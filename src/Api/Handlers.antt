-- ===== src/Api/Handlers.antt =====
-- The handlers of api.go.
use sealbox.Base.{
  ℕ, Bool, ◌&&◌, ◌||◌, not, Option, none, some, List, [], ◌∷◌, ◌++◌, Text, codes, ◌==◌, Dict,
  lookup, Result, ok, err, ltb, eqb, length, any, if◌then◌else◌,
}
use sealbox.Json.{Json}
use sealbox.Schema.{SchemaError, normalize, nil_call}
use sealbox.Auth.{Client}
use sealbox.Envelope.{Bytes}
use sealbox.Store.Tables.{AuditEntry, StoreError, not_found}
use sealbox.Store.Read.{search_page}
use sealbox.Api.Names.{
  max_body, max_batch, max_batch_body, max_ids_body, max_query, is_collection, is_id, is_subject,
}
use sealbox.Api.Action.{
  Server, ObjectError, panics, invalid_collection, invalid_subject, invalid_reveal, invalid_after,
  object_not_found, bad_batch, bad_reveal, bad_query, at_most, bad_object, bad_item, not_searchable,
  Rendered, Body, nothing, created, created_all, refs, erased, Response, answer, dropped, Request,
  Action, ◌>>=◌, ◌>>◌, return, stop_when, some_or, write_error, internal_error, call, ask,
  require_role, read_body, allow, audit_entries,
}
use sealbox.Api.Objects.{decode_reveal, decode_query, parse_object, parse_all, render}

abbrev pub is_full : Text → Bool
is_full reveal = reveal == codes "full"

-- `revealRole`
abbrev pub reveal_role : Text → Text
reveal_role reveal = if is_full reveal then codes "read_full" else codes "read_masked"

abbrev pub is_reveal : Text → Bool
is_reveal reveal = reveal == [] || reveal == codes "masked" || is_full reveal

-- `"reveal_" + cmp.Or(reveal, "masked")`
abbrev pub reveal_action : Text → Text
reveal_action [] = codes "reveal_masked"
reveal_action (c ∷ rest) = codes "reveal_" ++ (c ∷ rest)

abbrev pub entry_of : Text → Text → Text → Text → AuditEntry
entry_of action collection id field = record {
  client = [];
  action = action;
  collection = collection;
  object_id = id;
  field = field;
}

-- the answer to an object that is refused, or the panic of checking it
abbrev pub refuse_object : ObjectError → Response
refuse_object panics = dropped
refuse_object e = write_error 400 (bad_object e)

abbrev pub refuse_item : ℕ × ObjectError → Response
refuse_item (i, panics) = dropped
refuse_item (i, e) = write_error 400 (bad_item i e)

abbrev pub refuse_query : SchemaError → Response
refuse_query nil_call = dropped
refuse_query e = write_error 400 (not_searchable e)

abbrev pub or_refuse : {W L E A : Type 0} → Result E A → (E → Response) → Action W L A
or_refuse (ok a) refuse s = (ok a, s)
or_refuse (err e) refuse s = (err (refuse e), s)

abbrev pub first : List Text → Option Text
first [] = none
first (x ∷ xs) = some x

abbrev pub last : List Text → Option Text
last [] = none
last (x ∷ []) = some x
last (x ∷ y ∷ xs) = last (y ∷ xs)

-- `res["next"]`
abbrev pub next_of : List Text → Option Text
next_of ids = if eqb (length ids) search_page then last ids else none

-- a body of "ids" and "reveal"; no ids at all is refused as a text that cannot be read is
abbrev pub reveal_request : Option Json → Option (List Text × Text)
reveal_request (some (Json.obj ms)) = elim (decode_reveal ms ([], [])) [
  | some (id ∷ ids, reveal) ↦ some (id ∷ ids, reveal)
  | _ ↦ none
]
reveal_request _ = none

-- a body of exactly one field
abbrev pub query_request : Option Json → Option (Text × Text)
query_request (some (Json.obj ms)) = elim (decode_query ms []) [ some (q ∷ []) ↦ some q | _ ↦ none ]
query_request _ = none

-- a batch has at least one object
abbrev pub batch_request : Option (List Bytes) → Option (List Bytes)
batch_request (some (raw ∷ raws)) = some (raw ∷ raws)
batch_request _ = none

-- What a batch reveal answers and logs.
pub record Revealed : Type 0 where
  pub objects : Dict Rendered
  pub missing : List Text
  pub entries : List AuditEntry

-- what `delete` answers to the vault's result
abbrev pub deleted : Result StoreError (Unit {0}) → Response
deleted (ok _) = answer 204 nothing
deleted (err not_found) = write_error 404 object_not_found
deleted (err e) = internal_error

module _ {W L : Type 0} (srv : Server W L) where
  -- the answer for a stored text that is not JSON, and the panic of masking it
  unfoldable pub rendered : Text → Bytes → Bool → Action W L Rendered
  rendered collection plaintext full = do
    r ← or_refuse (render srv collection plaintext full) (λ _. dropped)
    some_or r internal_error

  -- the loop of `revealBatch`, with the ids that it has seen
  unfoldable pub reveal_loop :
      Text → Text → Dict Bytes → List Text → List Text → Result Response Revealed
  reveal_loop collection reveal held seen [] =
      ok (record { objects = []; missing = []; entries = [] })
  reveal_loop collection reveal held seen (id ∷ ids) =
      if any (λ x. x == id) seen
      then reveal_loop collection reveal held seen ids
      else elim (lookup id held) [
        | none ↦ elim (reveal_loop collection reveal held (id ∷ seen) ids) [
          | ok rest ↦ ok (record rest { missing = id ∷ rest.missing })
          | err e ↦ err e
        ]
        | some plaintext ↦ elim (render srv collection plaintext (is_full reveal)) [
          | err e ↦ err dropped
          | ok none ↦ err internal_error
          | ok (some shown) ↦ elim (reveal_loop collection reveal held (id ∷ seen) ids) [
            | ok rest ↦ ok (record {
              objects = (id, shown) ∷ rest.objects;
              missing = rest.missing;
              entries = entry_of (reveal_action reveal) collection id [] ∷ rest.entries;
            })
            | err e ↦ err e
          ]
        ]
      ]

module _ {W L Rate : Type 0} (srv : Server W L) where
  unfoldable pub subject : Client Rate → Text → Action W L Response
  subject c name = do
    require_role c (codes "read_masked")
    stop_when (not (is_subject name)) (write_error 400 invalid_subject)
    held ← ask (srv.vault.subject name)
    return (answer 200 (refs held))

  unfoldable pub erase_subject : Client Rate → Text → Action W L Response
  erase_subject c name = do
    require_role c (codes "delete")
    stop_when (not (is_subject name)) (write_error 400 invalid_subject)
    gone ← call (srv.vault.delete_subject c.name name)
    return (answer 200 (erased gone))

  unfoldable pub create : Request Rate → Text → Action W L Response
  create r collection = do
    require_role r.client (codes "write")
    stop_when (not (is_collection collection)) (write_error 400 invalid_collection)
    body ← read_body r max_body
    item ← or_refuse (parse_object srv collection body) refuse_object
    ids ← call (srv.vault.put_many r.client.name collection (item ∷ []))
    id ← some_or (first ids) dropped
    return (answer 201 (created id))

  unfoldable pub create_batch : Request Rate → Text → Action W L Response
  create_batch r collection = do
    require_role r.client (codes "write")
    stop_when (not (is_collection collection)) (write_error 400 invalid_collection)
    body ← read_body r max_batch_body
    raws ← some_or (batch_request (srv.codec.elements body)) (write_error 400 bad_batch)
    stop_when (ltb max_batch (length raws)) (write_error 400 (at_most max_batch))
    items ← or_refuse (parse_all srv collection 0 raws) refuse_item
    ids ← call (srv.vault.put_many r.client.name collection items)
    return (answer 201 (created_all ids))

  -- `audit`
  unfoldable pub audit_one : Client Rate → Text → Text → Text → Text → Action W L (Unit {0})
  audit_one c action collection id field =
      audit_entries srv c (entry_of action collection id field ∷ [])

  unfoldable pub get : Request Rate → Text → Text → Text → Action W L Response
  get r collection id reveal = do
    stop_when (not (is_reveal reveal)) (write_error 400 invalid_reveal)
    require_role r.client (reveal_role reveal)
    if is_full reveal then allow srv r.client 1 else return tt
    stop_when (not (is_id id)) (write_error 404 object_not_found)
    held ← ask (srv.vault.get_many collection (id ∷ []))
    plaintext ← some_or (lookup id held) (write_error 404 object_not_found)
    audit_one r.client (reveal_action reveal) collection id []
    shown ← rendered srv collection plaintext (is_full reveal)
    return (answer 200 (Body.object shown))

  unfoldable pub reveal_batch : Request Rate → Text → Action W L Response
  reveal_batch r collection = do
    body ← read_body r max_ids_body
    (ids, reveal) ← some_or (reveal_request (srv.codec.decode body)) (write_error 400 bad_reveal)
    stop_when (ltb max_batch (length ids)) (write_error 400 (at_most max_batch))
    stop_when (not (is_reveal reveal)) (write_error 400 invalid_reveal)
    require_role r.client (reveal_role reveal)
    held ← ask (srv.vault.get_many collection ids)
    if is_full reveal then allow srv r.client (length held) else return tt
    all ← or_refuse (reveal_loop srv collection reveal held [] ids) (λ e. e)
    audit_entries srv r.client all.entries
    return (answer 200 (Body.objects all.objects all.missing))

  unfoldable pub delete_object : Client Rate → Text → Text → Action W L Response
  delete_object c collection id = do
    require_role c (codes "delete")
    stop_when (not (is_id id)) (write_error 404 object_not_found)
    λ s.
        let (r, w) = srv.vault.delete c.name collection id s.vault in
        (ok (deleted r), record s { vault = w })

  unfoldable pub search : Request Rate → Text → Text → Action W L Response
  search r collection after = do
    require_role r.client (codes "search")
    allow srv r.client 1
    stop_when (not (after == []) && not (is_id after)) (write_error 400 invalid_after)
    body ← read_body r max_query
    (field, value) ← some_or (query_request (srv.codec.decode body)) (write_error 400 bad_query)
    q ← or_refuse (normalize srv.to_lower srv.schema collection field value) refuse_query
    ids ← ask (srv.vault.search collection q.index q.normalized after)
    audit_one r.client (codes "search") collection [] q.index
    return (answer 200 (Body.found ids (next_of ids)))
