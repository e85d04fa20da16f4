-- ===== src/Schema/Masking.antt =====
-- Validation against a collection's declaration, and what a masked read shows.
use sealbox.Base.{
  ℕ, ◌≡◌, ◌↔◌, refl, ap, inl, inr, false, none, some, List, [], ◌∷◌, Text, codes, ◌==◌, Dict,
  lookup, ok, >>=-eq-ok, arith, All, All-lookup, Option-cases, Bool-cases, map,
}
use sealbox.Json.{Json, unmarshal_string, is_null}
use sealbox.FieldType.{FieldType, stars, types, string_type}
use sealbox.Schema.{
  Field, Collection, Schema, fields_of, call_mask, call_validate, validate_field, validate_loop,
  validate, mask_value, mask_loop, mask,
}
use sealbox.Schema.WellFormed.{IsSound, IsWellFormed, fields_of-IsSound, call_mask-ok}

module _ (to_lower : ℕ → ℕ) where
  string_entry : lookup (codes "string") (types to_lower) ≡ some (string_type to_lower)
  unfolding types lookup ◌==◌
  string_entry = refl

  mask_value-ok :
      (fields : Dict Field) (name : Text) (raw : Json)
      → All (λ (e : Text × Field). IsSound to_lower e.1) fields
      → (m : Text) × (mask_value to_lower fields name raw ≡ ok m)
  mask_value-ok fields name raw w = elim (Option-cases (unmarshal_string raw)) [
    | inl other ↦ (stars, unfold mask_value in ground (arith, other))
    | inr (v, text) ↦ elim (Option-cases (lookup name fields)) [
      | inl free ↦ (stars, unfold mask_value call_mask in ground (arith, text, free, string_entry))
      | inr (f, found) ↦
          let (m, called) =
            call_mask-ok to_lower f v (All-lookup (IsSound to_lower) fields name f w found) in
          (m, unfold mask_value in ground (arith, text, found, called))
    ]
  ]

  abbrev pub SameKeys : Dict Json → Dict Text → Type 0
  SameKeys object out = map (λ (e : Text × Json). e.0) object ≡ map (λ (e : Text × Text). e.0) out

  mask_loop-ok :
      (fields : Dict Field) (object : Dict Json)
      → All (λ (e : Text × Field). IsSound to_lower e.1) fields
      → (out : Dict Text) × (mask_loop to_lower fields object ≡ ok out) × SameKeys object out
  unfolding mask_loop
  mask_loop-ok fields [] w = ([], refl, refl)
  mask_loop-ok fields ((name, raw) ∷ rest) w =
      let (m, first) = mask_value-ok fields name raw w in
      let (out, later, keys) = mask_loop-ok fields rest w in
      ((name, m) ∷ out, ground (arith, first, later), ap (λ (ks : List Text). name ∷ ks) keys)

  -- Under a schema that `Parse` accepts `Mask` calls no nil function: it returns a map with
  -- exactly the object's keys, in the object's order, whatever the object.
  pub mask_total :
      (s : Schema) (collection : Text) (object : Dict Json)
      → IsWellFormed to_lower s
      → (out : Dict Text) × (mask to_lower s collection object ≡ ok out) × SameKeys object out
  unfolding mask
  mask_total s collection object w =
      mask_loop-ok (fields_of s collection) object (fields_of-IsSound to_lower s collection w)

  mask_loop_free :
      (object : Dict Json)
      → mask_loop to_lower [] object ≡ ok (map (λ (e : Text × Json). (e.0, stars)) object)
  unfolding mask_loop mask_value call_mask lookup
  mask_loop_free [] = refl
  mask_loop_free ((name, raw) ∷ rest) = elim (Option-cases (unmarshal_string raw)) [
    | inl other ↦ ground (arith, other, mask_loop_free rest)
    | inr (v, text) ↦ ground (arith, text, string_entry, mask_loop_free rest)
  ]

  -- In a collection that the schema does not declare a masked read shows three stars for every
  -- key, whatever the values are.
  pub mask_undeclared :
      (s : Schema) (collection : Text) (object : Dict Json)
      → lookup collection s ≡ none
      → mask to_lower s collection object ≡ ok (map (λ (e : Text × Json). (e.0, stars)) object)
  unfolding mask fields_of
  mask_undeclared s collection object free =
      let none_declared : fields_of s collection ≡ [] = ground arith in
      rw none_declared (mask_loop_free object)

  -- A declared string value that its type's validator accepts.
  abbrev pub Conforms : Dict Field → Text × Json → Type 0
  Conforms fields (name, raw) =
      (f : Field) × (t : FieldType) × (v : Text) × (lookup name fields ≡ some f)
      × (lookup f.type (types to_lower) ≡ some t)
      × (raw ≡ Json.str v)
      × (t.validate v ≡ ok tt)

  string_of :
      (raw : Json) (v : Text)
      → is_null raw ≡ false
      → unmarshal_string raw ≡ some v
      → raw ≡ Json.str v
  unfolding is_null unmarshal_string
  string_of (Json.str s) v h e = cc
  string_of raw v h e = cc

  validate_field-Conforms :
      (fields : Dict Field) (name : Text) (raw : Json)
      → validate_field to_lower fields name raw ≡ ok tt
      → Conforms fields (name, raw)
  unfolding validate_field call_validate
  validate_field-Conforms fields name raw h = elim (Option-cases (lookup name fields)) [
    | inl missing ↦ cc (h, missing)
    | inr (f, found) ↦ elim (Bool-cases (is_null raw)) [
      | inl empty ↦ cc (h, found, empty)
      | inr given ↦ elim (Option-cases (unmarshal_string raw)) [
        | inl other ↦ cc (h, found, given, other)
        | inr (v, text) ↦ elim (Option-cases (lookup f.type (types to_lower))) [
          | inl missing ↦ cc (h, found, given, text, missing)
          | inr (t, known) ↦ (
            f,
            t,
            v,
            found,
            known,
            string_of raw v given text,
            ground (arith, found, given, text, known),
          )
        ]
      ]
    ]
  ]

  Conforms-validate_field :
      (fields : Dict Field) (name : Text) (raw : Json)
      → Conforms fields (name, raw)
      → validate_field to_lower fields name raw ≡ ok tt
  unfolding validate_field call_validate is_null unmarshal_string
  Conforms-validate_field fields name raw (f, t, v, found, known, text, passed) =
      rw (text, found, known, passed)

  validate_loop_iff :
      (fields : Dict Field) (object : Dict Json)
      → (validate_loop to_lower fields object ≡ ok tt) ↔ All (Conforms fields) object
  unfolding validate_loop
  validate_loop_iff fields [] = (λ _. tt, λ _. refl)
  validate_loop_iff fields ((name, raw) ∷ rest) = (
    λ h.
        let (_, first, later) =
          >>=-eq-ok (validate_field to_lower fields name raw)
            (λ _. validate_loop to_lower fields rest) h in
        (validate_field-Conforms fields name raw first, (validate_loop_iff fields rest).0 later),
    λ w. rw (Conforms-validate_field fields name raw w.0) ((validate_loop_iff fields rest).1 w.1),
  )

  -- In a declared collection `Validate` accepts an object exactly when every key is a declared
  -- field and every value is a string, null excluded, that the field's type accepts.
  pub validate_iff :
      (s : Schema) (collection : Text) (c : Collection) (object : Dict Json)
      → lookup collection s ≡ some c
      → (validate to_lower s collection object ≡ ok tt) ↔ All (Conforms c.fields) object
  validate_iff s collection c object found =
      let opened : validate to_lower s collection object ≡ validate_loop to_lower c.fields object =
        unfold validate in ground (arith, found) in
      rw opened (validate_loop_iff c.fields object)
