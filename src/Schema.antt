-- ===== src/Schema.antt =====
-- internal/schema/schema.go: what a collection may hold, what of it is indexed, and its masks.
-- A Go map is an association list, so a loop over it is a recursion in the list's order; the
-- laws in the modules below hold for every order.
pub mod WellFormed
pub mod Index
pub mod Masking
use sealbox.Base.{
  ◌-◌, Bool, true, false, ◌&&◌, ◌||◌, not, Option, none, some, List, [], ◌∷◌, ◌++◌, Text, codes,
  ◌==◌, Dict, lookup, insert, Result, ok, err, ◌>>=◌, ◌>>◌, stop_if, leb, eqb, length, drop, any, ℕ,
  if◌then◌else◌,
}
use sealbox.Json.{Json, unmarshal_string, is_null}
use sealbox.FieldType.{Invalid, FieldType, stars, types}

-- `nil_call` is the panic of a call through a nil function
pub data SchemaError : Type 0 where
  bad_document nil_call : SchemaError
  unknown_type not_indexable : Text → Text → SchemaError
  unknown_fragment fragment_type : Text → Text → Text → SchemaError
  not_indexed last4_only : Text → SchemaError
  unknown_field not_a_string : Text → SchemaError
  invalid_field : Text → Invalid → SchemaError

pub record Field : Type 0 where
  pub type : Text
  pub index : Bool
  pub fragments : List Text

pub record Collection : Type 0 where
  pub fields : Dict Field

abbrev pub Schema : Type 0
Schema = Dict Collection

-- `fragmentLast4`, and the index name `name+"#"+fragmentLast4`
abbrev pub fragment_last4 : Text
fragment_last4 = codes "last4"

unfoldable pub last4_index : Text → Text
last4_index name = name ++ codes "#last4"

abbrev pub contains : List Text → Text → Bool
contains xs x = any (λ y. y == x) xs

abbrev pub is_empty : List Text → Bool
is_empty [] = true
is_empty (_ ∷ _) = false

abbrev pub or_fail : {A : Type 0} → Option A → SchemaError → Result SchemaError A
or_fail (some a) e = ok a
or_fail none e = err e

-- `s[collection].Fields`: a missing collection has no fields
unfoldable pub fields_of : Schema → Text → Dict Field
fields_of s collection = elim (lookup collection s) [ none ↦ [] | some c ↦ c.fields ]

unfoldable pub check_fragments : Text → Text → Field → List Text → Result SchemaError (Unit {0})
check_fragments cname fname f [] = ok tt
check_fragments cname fname f (fr ∷ rest) = do
  stop_if (not (fr == fragment_last4)) (unknown_fragment cname fname fr)
  stop_if (not (f.type == codes "phone") && not (f.type == codes "card"))
      (fragment_type cname fname fr)
  check_fragments cname fname f rest

unfoldable pub lacks_normal_form : FieldType → Bool
lacks_normal_form t = elim t.normalize [ none ↦ true | some _ ↦ false ]

abbrev pub not_searchable : Field → Bool
not_searchable f = not f.index && is_empty f.fragments

-- what one field of the loop in `Indexed` writes
unfoldable pub index_value : Text → Field → Text → Dict Text → Dict Text
index_value name f normalized out =
    let whole = if f.index then insert name normalized out else out in
    if contains f.fragments fragment_last4 && leb 4 (length normalized)
    then insert (last4_index name) (drop (length normalized - 4) normalized) whole
    else whole

pub record Query : Type 0 where
  pub index : Text
  pub normalized : Text

module _ (to_lower : ℕ → ℕ) where
  unfoldable pub check_field : Text → Text → Field → Result SchemaError (Unit {0})
  check_field cname fname f = do
    t ← or_fail (lookup f.type (types to_lower)) (unknown_type cname fname)
    stop_if (f.index && lacks_normal_form t) (not_indexable cname fname)
    check_fragments cname fname f f.fragments

  unfoldable pub check_fields : Text → Dict Field → Result SchemaError (Unit {0})
  check_fields cname [] = ok tt
  check_fields cname ((fname, f) ∷ rest) = do check_field cname fname f; check_fields cname rest

  unfoldable pub check_collections : Schema → Result SchemaError (Unit {0})
  check_collections [] = ok tt
  check_collections ((cname, c) ∷ rest) = do check_fields cname c.fields; check_collections rest

  -- `Parse`, from the schema that the JSON decoder found, if it found one
  unfoldable pub parse : Option Schema → Result SchemaError Schema
  parse none = err bad_document
  parse (some s) = do check_collections s; ok s

  -- `types[f.Type].normalize(v)`
  unfoldable pub call_normalize : Text → Text → Result SchemaError Text
  call_normalize type v = do
    t ← or_fail (lookup type (types to_lower)) nil_call
    n ← or_fail t.normalize nil_call
    ok (n v)

  -- `types[t].mask(v)`
  unfoldable pub call_mask : Text → Text → Result SchemaError Text
  call_mask type v = do t ← or_fail (lookup type (types to_lower)) nil_call; ok (t.mask v)

  unfoldable pub index_field :
      Text → Field → Option Json → Dict Text → Result SchemaError (Dict Text)
  index_field name f none out = ok out
  index_field name f (some raw) out =
      if not_searchable f then ok out else (elim (unmarshal_string raw) [
        | none ↦ ok out
        | some v ↦ call_normalize f.type v >>= λ normalized. ok (index_value name f normalized out)
      ])

  unfoldable pub index_loop : Dict Field → Dict Json → Dict Text → Result SchemaError (Dict Text)
  index_loop [] object out = ok out
  index_loop ((name, f) ∷ rest) object out =
      index_field name f (lookup name object) out >>= index_loop rest object

  -- `Indexed`
  unfoldable pub indexed : Schema → Text → Dict Json → Result SchemaError (Dict Text)
  indexed s collection object = index_loop (fields_of s collection) object []

  unfoldable pub normalize_for : Text → Field → Text → Result SchemaError Query
  normalize_for field f value = do
    stop_if (not_searchable f) (not_indexed field)
    normalized ← call_normalize f.type value
    if eqb (length normalized) 4 && contains f.fragments fragment_last4
        then ok (record { index = last4_index field; normalized = normalized })
        else if not f.index
        then err (last4_only field)
        else ok (record { index = field; normalized = normalized })

  -- `Normalize`
  unfoldable pub normalize : Schema → Text → Text → Text → Result SchemaError Query
  normalize s collection field value = do
    f ← or_fail (lookup field (fields_of s collection)) (not_indexed field)
    normalize_for field f value

  -- `types[f.Type].validate(v)`, its error wrapped with the field's name
  unfoldable pub call_validate : Text → Text → Text → Result SchemaError (Unit {0})
  call_validate name type v = do
    t ← or_fail (lookup type (types to_lower)) nil_call
    elim (t.validate v) [ ok _ ↦ ok tt | err e ↦ err (invalid_field name e) ]

  unfoldable pub validate_field : Dict Field → Text → Json → Result SchemaError (Unit {0})
  validate_field fields name raw = do
    f ← or_fail (lookup name fields) (unknown_field name)
    stop_if (is_null raw) (not_a_string name)
    v ← or_fail (unmarshal_string raw) (not_a_string name)
    call_validate name f.type v

  unfoldable pub validate_loop : Dict Field → Dict Json → Result SchemaError (Unit {0})
  validate_loop fields [] = ok tt
  validate_loop fields ((name, raw) ∷ rest) = do
    validate_field fields name raw
    validate_loop fields rest

  -- `Validate`
  unfoldable pub validate : Schema → Text → Dict Json → Result SchemaError (Unit {0})
  validate s collection object = elim (lookup collection s) [
    | none ↦ ok tt
    | some c ↦ validate_loop c.fields object
  ]

  unfoldable pub mask_value : Dict Field → Text → Json → Result SchemaError Text
  mask_value fields name raw = elim (unmarshal_string raw) [
    | none ↦ ok stars
    | some v ↦ call_mask (elim (lookup name fields) [ none ↦ codes "string" | some f ↦ f.type ]) v
  ]

  -- each key of a map comes once, so the assignment to `out[name]` adds an entry
  unfoldable pub mask_loop : Dict Field → Dict Json → Result SchemaError (Dict Text)
  mask_loop fields [] = ok []
  mask_loop fields ((name, raw) ∷ rest) = do
    masked ← mask_value fields name raw
    others ← mask_loop fields rest
    ok ((name, masked) ∷ others)

  -- `Mask`
  unfoldable pub mask : Schema → Text → Dict Json → Result SchemaError (Dict Text)
  mask s collection object = mask_loop (fields_of s collection) object
