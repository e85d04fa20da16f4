-- ===== src/Schema/WellFormed.antt =====
-- What `Parse` accepts, and that under a schema it accepted `Indexed` and `Mask` do not panic.
use mathlib.Core.Path.{subst}
use sealbox.Base.{
  ℕ, ◌≡◌, ◌≢◌, ◌↔◌, ◌⊎◌, refl, inl, inr, true, false, none, some, List, [], ◌∷◌, Text, codes, ◌==◌,
  eq_iff, Dict, lookup, ok, >>=-eq-ok, arith, ap, All, All-lookup, Option-cases, Bool-cases,
}
use sealbox.FieldType.{FieldType, phone_type, card_type, types}
use sealbox.Schema.{
  Field, Collection, Schema, fragment_last4, check_fragments, lacks_normal_form, check_field,
  check_fields, check_collections, parse, fields_of, not_searchable, is_empty, call_normalize,
  call_mask,
}

abbrev pub IsFragment : Field → Text → Type 0
IsFragment f fr = (fr ≡ fragment_last4) × ((f.type ≡ codes "phone") ⊎ (f.type ≡ codes "card"))

module _ (to_lower : ℕ → ℕ) where
  -- A declarable type, one with a normal form if the field is indexed, and only known fragments.
  pub record IsSound (f : Field) : Type 0 where
    pub type_of : FieldType
    pub known : lookup f.type (types to_lower) ≡ some type_of
    pub indexable : f.index ≡ true → type_of.normalize ≢ none
    pub fragments : All (IsFragment f) f.fragments

  abbrev pub IsSoundCollection : Collection → Type 0
  IsSoundCollection c = All (λ (e : Text × Field). IsSound e.1) c.fields

  abbrev pub IsWellFormed : Schema → Type 0
  IsWellFormed s = All (λ (e : Text × Collection). IsSoundCollection e.1) s

check_fragments_iff :
    (cname fname : Text) (f : Field) (frs : List Text)
    → (check_fragments cname fname f frs ≡ ok tt) ↔ All (IsFragment f) frs
unfolding check_fragments
check_fragments_iff cname fname f [] = ground arith
check_fragments_iff cname fname f (fr ∷ frs) = ground (
  arith,
  check_fragments_iff cname fname f frs,
  eq_iff fr fragment_last4,
  eq_iff f.type (codes "phone"),
  eq_iff f.type (codes "card"),
)

fragment_field :
    (f : Field) (frs : List Text)
    → All (IsFragment f) frs
    → is_empty frs ≡ false
    → (f.type ≡ codes "phone") ⊎ (f.type ≡ codes "card")
fragment_field f [] w h = cc
fragment_field f (fr ∷ frs) w h = w.0.1

lacks_normal_form_iff : (t : FieldType) → (lacks_normal_form t ≡ false) ↔ (t.normalize ≢ none)
unfolding lacks_normal_form
lacks_normal_form_iff t = ground arith

module _ (to_lower : ℕ → ℕ) where
  check_field-IsSound :
      (cname fname : Text) (f : Field)
      → check_field to_lower cname fname f ≡ ok tt
      → IsSound to_lower f
  unfolding check_field
  check_field-IsSound cname fname f h = elim (Option-cases (lookup f.type (types to_lower))) [
    | inl missing ↦ cc (h, missing)
    | inr (t, found) ↦ record {
      type_of = t;
      known = found;
      indexable = ground (arith, found, lacks_normal_form_iff t);
      fragments = (check_fragments_iff cname fname f f.fragments).0 (ground (arith, found));
    }
  ]

  IsSound-check_field :
      (cname fname : Text) (f : Field)
      → IsSound to_lower f
      → check_field to_lower cname fname f ≡ ok tt
  unfolding check_field
  IsSound-check_field cname fname f w = ground (
    arith,
    w.known,
    w.indexable,
    lacks_normal_form_iff w.type_of,
    (check_fragments_iff cname fname f f.fragments).1 w.fragments,
  )

  check_fields_iff :
      (cname : Text) (fields : Dict Field)
      → (check_fields to_lower cname fields ≡ ok tt)
        ↔ All (λ (e : Text × Field). IsSound to_lower e.1) fields
  unfolding check_fields
  check_fields_iff cname [] = (λ _. tt, λ _. refl)
  check_fields_iff cname ((fname, f) ∷ rest) = (
    λ h.
        let (u, here, later) = >>=-eq-ok _ _ h in
        (check_field-IsSound cname fname f here, (check_fields_iff cname rest).0 later),
    λ w. rw (IsSound-check_field cname fname f w.0) ((check_fields_iff cname rest).1 w.1),
  )

  check_collections_iff :
      (s : Schema) → (check_collections to_lower s ≡ ok tt) ↔ IsWellFormed to_lower s
  unfolding check_collections
  check_collections_iff [] = (λ _. tt, λ _. refl)
  check_collections_iff ((cname, c) ∷ rest) = (
    λ h.
        let (u, here, later) = >>=-eq-ok _ _ h in
        ((check_fields_iff cname c.fields).0 here, (check_collections_iff rest).0 later),
    λ w. rw ((check_fields_iff cname c.fields).1 w.0) ((check_collections_iff rest).1 w.1),
  )

  -- `Parse` accepts a decoded document exactly when every field has a declarable type, one with a
  -- normal form if the field is indexed, and only "last4" fragments on phones and cards; it then
  -- returns the document.
  pub parse_iff :
      (s t : Schema) → (parse to_lower (some s) ≡ ok t) ↔ (IsWellFormed to_lower s × (s ≡ t))
  unfolding parse
  parse_iff s t = (
    λ h. let (u, checked, same) = >>=-eq-ok _ _ h in ((check_collections_iff s).0 checked, cc),
    λ w. rw ((check_collections_iff s).1 w.0) (ap ok w.1),
  )

  -- What the schema knows of a declared field.
  pub IsSound-field :
      (fields : Dict Field) (name : Text) (f : Field)
      → All (λ (e : Text × Field). IsSound to_lower e.1) fields
      → lookup name fields ≡ some f
      → IsSound to_lower f
  IsSound-field fields name f w h = All-lookup (IsSound to_lower) fields name f w h

  pub fields_of-IsSound :
      (s : Schema) (collection : Text)
      → IsWellFormed to_lower s
      → All (λ (e : Text × Field). IsSound to_lower e.1) (fields_of s collection)
  unfolding fields_of
  fields_of-IsSound s collection w = elim (Option-cases (lookup collection s)) [
    | inl missing ↦
        let e : [] ≡ fields_of s collection = ground arith in
        subst (All (λ (e : Text × Field). IsSound to_lower e.1)) e tt
    | inr (c, found) ↦
        let e : c.fields ≡ fields_of s collection = ground arith in
        subst (All (λ (e : Text × Field). IsSound to_lower e.1)) e
          (All-lookup (IsSoundCollection to_lower) s collection c w found)
  ]

  phone_entry : lookup (codes "phone") (types to_lower) ≡ some (phone_type to_lower)
  unfolding types lookup ◌==◌
  phone_entry = refl

  card_entry : lookup (codes "card") (types to_lower) ≡ some (card_type to_lower)
  unfolding types lookup ◌==◌
  card_entry = refl

  has_normal_form :
      (f : Field) (w : IsSound to_lower f) → not_searchable f ≡ false → w.type_of.normalize ≢ none
  has_normal_form f w h = elim (Bool-cases f.index) [
    | inl whole ↦ w.indexable whole
    | inr part ↦ elim (fragment_field f f.fragments w.fragments (ground arith)) [
      | inl phone ↦
          let same : w.type_of ≡ phone_type to_lower = cc (phone, w.known, phone_entry) in
          λ e. cc (ap (λ (u : FieldType). u.normalize) same, e)
      | inr card ↦
          let same : w.type_of ≡ card_type to_lower = cc (card, w.known, card_entry) in
          λ e. cc (ap (λ (u : FieldType). u.normalize) same, e)
    ]
  ]

  -- A field that is indexed or has a fragment has a normal form to call.
  pub call_normalize-ok :
      (f : Field) (v : Text)
      → IsSound to_lower f
      → not_searchable f ≡ false
      → (n : Text) × (call_normalize to_lower f.type v ≡ ok n)
  call_normalize-ok f v w h = elim (Option-cases w.type_of.normalize) [
    | inl missing ↦ absurd (has_normal_form f w h missing)
    | inr (n, found) ↦ (n v, unfold call_normalize in rw (w.known, found))
  ]

  pub call_mask-ok :
      (f : Field) (v : Text)
      → IsSound to_lower f
      → (m : Text) × (call_mask to_lower f.type v ≡ ok m)
  unfolding call_mask
  call_mask-ok f v w = (w.type_of.mask v, rw w.known)
