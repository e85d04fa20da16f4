-- ===== src/Examples/Schemas.antt =====
-- A schema with an indexed address and a card with a searchable fragment.
use sealbox.Base.{
  ◌≡◌, refl, Text, codes, [], ◌∷◌, ok, true, false, ◌↔◌, some, arith, Dict, lookup, ◌==◌,
}
use sealbox.Json.{Json}
use sealbox.FieldType.{types, trim, normalize_email, is_space}
use sealbox.Schema.{
  Field, Collection, Schema, Query, parse, indexed, normalize, mask, validate, last4_index,
  fields_of,
}
use sealbox.Schema.WellFormed.{IsWellFormed, parse_iff}
use sealbox.Schema.Index.{HasNoClash, indexed-normalize}
use sealbox.Schema.Masking.{SameKeys, mask_total}
use sealbox.Examples.Fixtures.{to_lower}

abbrev card_field : Field
card_field = record { type = codes "card"; index = false; fragments = codes "last4" ∷ [] }

abbrev mail_field : Field
mail_field = record { type = codes "email"; index = true; fragments = [] }

abbrev people : Collection
people = record { fields = (codes "e", mail_field) ∷ (codes "n", card_field) ∷ [] }

abbrev pub schema : Schema
schema = (codes "p", people) ∷ []

abbrev object : Dict Json
object =
    (codes "n", Json.str (codes "4111111111111111"))
    ∷ (codes "e", Json.str (codes "Ann@b.org"))
    ∷ []

schema_parses : parse to_lower (some schema) ≡ ok schema
unfolding parse sealbox.Schema.check_collections sealbox.Schema.check_fields
    sealbox.Schema.check_field lookup types ◌==◌ sealbox.Schema.lacks_normal_form
    sealbox.Schema.check_fragments
schema_parses = refl

schema-IsWellFormed : IsWellFormed to_lower schema
schema-IsWellFormed = ((parse_iff to_lower schema schema).0 schema_parses).0

parse_iff_example :
    (parse to_lower (some schema) ≡ ok schema) ↔ (IsWellFormed to_lower schema × (schema ≡ schema))
parse_iff_example = parse_iff to_lower schema schema

mask_total_example :
    (out : Dict Text) × (mask to_lower schema (codes "p") object ≡ ok out)
    × SameKeys to_lower object out
mask_total_example = mask_total to_lower schema (codes "p") object schema-IsWellFormed

-- An index name has at least six characters, a field here has one.
no_clash : HasNoClash to_lower (fields_of schema (codes "p"))
unfolding fields_of lookup last4_index ◌==◌
no_clash [] = refl
no_clash (c ∷ []) = ground arith
no_clash (c ∷ d ∷ name) = ground arith

indexed-normalize_example :
    (out : Dict Text) × (indexed to_lower schema (codes "p") object ≡ ok out)
    × (lookup (codes "e") out ≡ some (codes "ann@b.org"))
unfolding normalize lookup fields_of ◌==◌ sealbox.Schema.normalize_for sealbox.Schema.call_normalize
    types normalize_email trim is_space
indexed-normalize_example =
    indexed-normalize to_lower schema (codes "p") (codes "e") (codes "ANN@b.org")
      (codes "Ann@b.org") object (record { index = codes "e"; normalized = codes "ann@b.org" })
      schema-IsWellFormed (refl, (refl, tt)) no_clash refl refl refl
