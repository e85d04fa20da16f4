-- ===== src/FieldType/Normal.antt =====
-- Normal forms: normalising twice is normalising once, and what `digits` keeps.
use mathlib.Core.Path.{subst}
use sealbox.Base.{
  ℕ, ◌≡◌, refl, ap, ◌∙◌, sym, [], ◌∷◌, map, some, Text, ◌⊎◌, inl, inr, lookup, arith,
}
use sealbox.FieldType.{
  FieldType, string_type, email_type, phone_type, card_type, is_space, is_digit, digits, trim,
  normalize_email, types,
}
use sealbox.FieldType.Trim.{trim_idem, trim-map}

pub digits_idem : (s : Text) → digits (digits s) ≡ digits s
unfolding digits is_digit
digits_idem [] = refl
digits_idem (c ∷ s) = ground (arith, digits_idem s)

map-map_idem : (f : ℕ → ℕ) → ((c : ℕ) → f (f c) ≡ f c) → (s : Text) → map f (map f s) ≡ map f s
map-map_idem f idem [] = refl
map-map_idem f idem (c ∷ s) = cc (idem c, map-map_idem f idem s)

idem_of :
    {m n : Text → Text}
    → ((v : Text) → m (m v) ≡ m v)
    → some m ≡ some n
    → (v : Text) → n (n v) ≡ n v
idem_of {m} {n} h e v = let q : m ≡ n = cc in subst (λ (g : Text → Text). g (g v) ≡ g v) q (h v)

module _ (to_lower : ℕ → ℕ) (lower_idem : (c : ℕ) → to_lower (to_lower c) ≡ to_lower c)
    (lower_space : (c : ℕ) → is_space (to_lower c) ≡ is_space c) where
  pub normalize_email_idem :
      (s : Text)
      → normalize_email to_lower (normalize_email to_lower s) ≡ normalize_email to_lower s
  unfolding normalize_email
  normalize_email_idem s = rw (
    trim-map is_space to_lower lower_space (trim is_space s),
    trim_idem is_space s,
    map-map_idem to_lower lower_idem (trim is_space s),
  )

  types-cases :
      (name : Text) (t : FieldType)
      → lookup name (types to_lower) ≡ some t
      → (t ≡ string_type to_lower)
        ⊎ (t ≡ email_type to_lower)
        ⊎ (t ≡ phone_type to_lower)
        ⊎ (t ≡ card_type to_lower)
  unfolding types lookup
  types-cases name t found = ground arith

  -- For every entry of `types` that has a normal form, normalising a value twice gives the same
  -- as normalising it once, if lower case is stable and neither makes nor removes a space.
  pub normalize_idem :
      (name : Text) (t : FieldType) (n : Text → Text) (v : Text)
      → lookup name (types to_lower) ≡ some t
      → t.normalize ≡ some n
      → n (n v) ≡ n v
  normalize_idem name t n v found has = elim (types-cases name t found) [
    | inl e ↦ cc (e, has)
    | inr (inl e) ↦ idem_of normalize_email_idem (normal_form e) v
    | inr (inr (inl e)) ↦ idem_of digits_idem (normal_form e) v
    | inr (inr (inr e)) ↦ idem_of digits_idem (normal_form e) v
  ]
    where
      normal_form : {u : FieldType} → t ≡ u → u.normalize ≡ some n
      normal_form e = ap (λ (w : FieldType). w.normalize) (sym e) ∙ has
