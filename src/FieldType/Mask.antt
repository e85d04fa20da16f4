-- ===== src/FieldType/Mask.antt =====
-- What a mask keeps of a value that its type accepts.
use mathlib.Core.Logic.{◌≢◌}
use sealbox.Base.{
  ℕ, zero, suc, ◌-◌, ◌≤◌, ◌≡◌, ◌↔◌, refl, ap, ◌∙◌, true, false, [], ◌∷◌, ◌++◌, Text, codes, ◌==◌,
  eq_iff, arith, all, any, length, drop, length-drop, ok, eqb, take,
}
use sealbox.FieldType.{
  stars, cut, digits, last4, validate_email, mask_email, phone_chars, validate_phone, mask_phone,
  card_chars, validate_card, mask_card, luhn, trim,
}
use sealbox.FieldType.Trim.{trim-eq-nil_iff}

-- The two halves spell the text.
pub cut_spells :
    (sep : ℕ) (v : Text)
    → (cut sep v).found ≡ true
    → v ≡ (cut sep v).before ++ sep ∷ (cut sep v).after
unfolding cut
cut_spells sep [] h = cc
cut_spells sep (c ∷ v) h = ground (arith, cut_spells sep v)

length-last4 : (d : Text) → 4 ≤ length d → length (last4 d) ≡ 4
unfolding last4
length-last4 d h = ground (arith, length-drop (length d - 4) d)

-- A phone number is accepted exactly when every character is a digit, a space or one of `+-().`,
-- and 7 to 15 of them are digits.
pub validate_phone_iff :
    (v : Text)
    → (validate_phone v ≡ ok tt)
      ↔ ((all phone_chars v ≡ true) × (7 ≤ length (digits v)) × (length (digits v) ≤ 15))
unfolding validate_phone
validate_phone_iff v = ground (arith, trim-eq-nil_iff phone_chars v, eq_iff (trim phone_chars v) [])

-- A card number is accepted exactly when every character is a digit, a space or a hyphen, 13 to 19
-- of them are digits, and the digits pass the checksum.
pub validate_card_iff :
    (v : Text)
    → (validate_card v ≡ ok tt) ↔ (
        (all card_chars v ≡ true)
        × (13 ≤ length (digits v))
        × (length (digits v) ≤ 19)
        × (luhn (digits v) ≡ true))
unfolding validate_card
validate_card_iff v = ground (arith, trim-eq-nil_iff card_chars v, eq_iff (trim card_chars v) [])

-- A text ends in these characters.
abbrev pub EndsIn : Text → Text → Type 0
EndsIn tail v = (front : Text) × (v ≡ front ++ tail)

drop-EndsIn : (n : ℕ) (v : Text) → EndsIn (drop n v) v
drop-EndsIn zero v = ([], refl)
drop-EndsIn (suc n) [] = ([], refl)
drop-EndsIn (suc n) (c ∷ v) =
    let (front, e) = drop-EndsIn n v in (c ∷ front, ap (λ (t : Text). c ∷ t) e)

last4-EndsIn : (d : Text) → 4 ≤ length d → EndsIn (last4 d) d
unfolding last4
last4-EndsIn d h = ground (arith, drop-EndsIn (length d - 4) d)

ne-nil_of_length : (t : Text) → length t ≡ 4 → (t == []) ≡ false
ne-nil_of_length t h = ground (arith, eq_iff t [])

-- Of an accepted phone number the mask shows three stars and its last four digits, no more.
pub mask_phone_lem :
    (v : Text)
    → validate_phone v ≡ ok tt
    → (tail : Text) × (length tail ≡ 4) × EndsIn tail (digits v) × (mask_phone v ≡ stars ++ tail)
unfolding mask_phone
mask_phone_lem v h =
    let d = digits v in
    let (_, low, high) = (validate_phone_iff v).0 h in
    let four = length-last4 d (omega arith) in
    (last4 d, four, last4-EndsIn d (omega arith), rw (ne-nil_of_length (last4 d) four))

-- Of an accepted card number the mask shows a fixed text and its last four digits, no more.
pub mask_card_lem :
    (v : Text)
    → validate_card v ≡ ok tt
    → (tail : Text) × (length tail ≡ 4)
      × EndsIn tail (digits v)
      × (mask_card v ≡ codes "**** **** **** " ++ tail)
unfolding mask_card
mask_card_lem v h =
    let d = digits v in
    let (_, low, high, _) = (validate_card_iff v).0 h in
    let four = length-last4 d (omega arith) in
    (last4 d, four, last4-EndsIn d (omega arith), rw (ne-nil_of_length (last4 d) four))

validate_email_parts :
    (v : Text)
    → validate_email v ≡ ok tt
    → ((cut b'@' v).found ≡ true)
      × ((cut b'@' v).before ≢ [])
      × ((cut b'@' v).after ≢ [])
      × (any (eqb b'@') (cut b'@' v).after ≡ false)
unfolding validate_email
validate_email_parts v h =
    let c = cut b'@' v in ground (arith, eq_iff c.before [], eq_iff c.after [])

first_of_before :
    (t : Text) → t ≢ [] → (c : ℕ) × (rest : Text) × (t ≡ c ∷ rest) × (take 1 t ≡ c ∷ [])
first_of_before [] h = absurd (h refl)
first_of_before (c ∷ rest) h = (c, rest, refl, refl)

-- Of an accepted email address the mask shows the first character and the domain. The rest of
-- the local part, its length included, does not show.
pub mask_email_lem :
    (v : Text)
    → validate_email v ≡ ok tt
    → (c : ℕ) × (local : Text) × (domain : Text) × (v ≡ (c ∷ local) ++ (b'@' ∷ domain))
      × (any (eqb b'@') domain ≡ false)
      × (mask_email v ≡ c ∷ (stars ++ (b'@' ∷ domain)))
unfolding mask_email
mask_email_lem v h =
    let p = cut b'@' v in
    let (found, some_before, some_after, single) = validate_email_parts v h in
    let (c, local, split, first) = first_of_before p.before some_before in
    (
      c,
      local,
      p.after,
      cut_spells b'@' v found ∙ ap (λ (t : Text). t ++ b'@' ∷ p.after) split,
      single,
      ground (arith, eq_iff p.after []),
    )
