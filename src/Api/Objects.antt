-- ===== src/Api/Objects.antt =====
-- What api.go reads from JSON texts, `parseObject` and `render`.
use sealbox.Base.{
  ℕ, suc, Bool, true, false, ◌&&◌, not, Option, none, some, List, [], ◌∷◌, map, Text, codes, ◌==◌,
  Dict, lookup, insert, without, Result, ok, err, ◌>>=◌, ◌>>◌, stop_if, ltb, leb, eqb, length,
  if◌then◌else◌, ◌+◌,
}
use sealbox.Json.{Json, Elems, Members, nil, cons, end, member, decode_members, unmarshal_string}
use sealbox.Schema.{SchemaError, nil_call, validate, indexed, mask}
use sealbox.Envelope.{Bytes}
use sealbox.Store.Tables.{Item}
use sealbox.Api.Names.{max_body, subject_key, is_subject}
use sealbox.Api.Action.{
  Server, ObjectError, too_large, not_utf8, not_an_object, bad_subject, panics, invalid, Rendered,
  plain, masked,
}

-- A name of a struct field is matched without regard to case; two letters outside ASCII fold to
-- one inside.
abbrev fold_code : ℕ → ℕ
fold_code c =
    if leb b'A' c && leb c b'Z'
    then c + 32
    else if eqb c 0x17F
    then b's'
    else if eqb c 0x212A
    then b'k'
    else c

abbrev pub is_field : Text → Text → Bool
is_field name field = map fold_code name == field

-- an element that is null keeps the text that the slice had there
unfoldable pub decode_texts : List Text → Elems → Option (List Text)
decode_texts old nil = some []
decode_texts [] (cons e rest) = elim (unmarshal_string e) [
  | none ↦ none
  | some s ↦ elim (decode_texts [] rest) [ none ↦ none | some more ↦ some (s ∷ more) ]
]
decode_texts (o ∷ old) (cons e rest) = elim (decode_texts old rest) [
  | none ↦ none
  | some more ↦ elim e [ Json.null ↦ some (o ∷ more) | Json.str s ↦ some (s ∷ more) | _ ↦ none ]
]

unfoldable pub decode_ids : List Text → Json → Option (List Text)
decode_ids old Json.null = some []
decode_ids old (Json.arr elems) = decode_texts old elems
decode_ids old _ = none

-- null leaves a string as it was
unfoldable pub decode_text : Text → Json → Option Text
decode_text old Json.null = some old
decode_text old (Json.str s) = some s
decode_text old _ = none

-- `json.Unmarshal` into the struct of a batch reveal
unfoldable pub decode_reveal : Members → List Text × Text → Option (List Text × Text)
decode_reveal end req = some req
decode_reveal (member name raw rest) (ids, reveal) =
    if is_field name (codes "ids")
    then elim (decode_ids ids raw) [ none ↦ none | some ids' ↦ decode_reveal rest (ids', reveal) ]
    else if is_field name (codes "reveal")
    then elim (decode_text reveal raw) [
      | none ↦ none
      | some reveal' ↦ decode_reveal rest (ids, reveal')
    ]
    else decode_reveal rest (ids, reveal)

-- `json.Unmarshal` into a `map[string]string`
unfoldable pub decode_query : Members → Dict Text → Option (Dict Text)
decode_query end out = some out
decode_query (member name raw rest) out = elim (unmarshal_string raw) [
  | none ↦ none
  | some v ↦ decode_query rest (insert name v out)
]

-- `json.Unmarshal` into a map of raw values; null is a nil map
abbrev pub as_map : Option Json → Option (Dict Json)
as_map (some (Json.obj ms)) = some (decode_members ms [])
as_map (some Json.null) = some []
as_map _ = none

-- the same, where a nil map is refused
abbrev pub as_object : Option Json → Option (Dict Json)
as_object (some (Json.obj ms)) = some (decode_members ms [])
as_object _ = none

abbrev pub or_error : {A : Type 0} → Option A → ObjectError → Result ObjectError A
or_error none e = err e
or_error (some a) e = ok a

-- the subject is taken out of the object
unfoldable pub take_subject : Dict Json → Result ObjectError (Text × Dict Json)
take_subject obj = elim (lookup subject_key obj) [
  | none ↦ ok ([], obj)
  | some raw ↦ elim (unmarshal_string raw) [
    | none ↦ err bad_subject
    | some s ↦ if is_subject s then ok (s, without subject_key obj) else err bad_subject
  ]
]

-- an error of `Validate`, and the panic of a call through nil
abbrev pub of_schema : {A : Type 0} → Result SchemaError A → Result ObjectError A
of_schema (ok a) = ok a
of_schema (err nil_call) = err panics
of_schema (err e) = err (invalid e)

module _ {W L : Type 0} (srv : Server W L) where
  -- `parseObject`
  unfoldable pub parse_object : Text → Bytes → Result ObjectError Item
  parse_object collection raw = do
    stop_if (ltb max_body (length raw)) too_large
    stop_if (not (srv.codec.utf8_valid raw)) not_utf8
    whole ← or_error (as_object (srv.codec.decode raw)) not_an_object
    (subject, obj) ← take_subject whole
    of_schema (validate srv.to_lower srv.schema collection obj)
    values ← of_schema (indexed srv.to_lower srv.schema collection obj)
    ok (record { plaintext = srv.codec.encode obj; indexed = values; subject = subject })

  -- the loop of `createBatch`; an error comes with the position of its object
  unfoldable pub parse_all : Text → ℕ → List Bytes → Result (ℕ × ObjectError) (List Item)
  parse_all collection i [] = ok []
  parse_all collection i (raw ∷ rest) = elim (parse_object collection raw) [
    | err e ↦ err (i, e)
    | ok item ↦ parse_all collection (suc i) rest >>= λ items. ok (item ∷ items)
  ]

  -- `render`: none is an error of the JSON parser, and an error is a panic
  unfoldable pub render : Text → Bytes → Bool → Result SchemaError (Option Rendered)
  render collection plaintext true = ok (some (plain plaintext))
  render collection plaintext false = elim (as_map (srv.codec.decode plaintext)) [
    | none ↦ ok none
    | some obj ↦ mask srv.to_lower srv.schema collection obj >>= λ out. ok (some (masked out))
  ]
