-- ===== src/Examples/Searches.antt =====
-- A search on a server with a schema: a card is found by its last four digits.
use sealbox.Base.{
  ℕ, ◌≡◌, refl, ◌≤◌, Text, codes, List, [], ◌∷◌, ◌++◌, ok, true, none, some, All, arith, length,
}
use sealbox.Json.{Json, nil, cons, end, member}
use sealbox.Schema.{Schema}
use sealbox.Auth.{Client, authenticate, has_role}
use sealbox.Envelope.{Bytes}
use sealbox.Store.Tables.{World, Store, Item, audit_row}
use sealbox.Store.Write.{PutDraw, put_many, audit_many}
use sealbox.Store.Read.{get_many}
use sealbox.Store.Tables.{new_id, aad}
use sealbox.Base.{◌==◌, lookup, insert, without}
use sealbox.Schema.{validate, indexed}
use sealbox.Json.{decode_members}
use sealbox.Api.Action.{require_role, read_body, allow, audit_entries}
use sealbox.Api.Names.{is_collection}
use sealbox.Api.Objects.{take_subject, decode_reveal, decode_texts}
use sealbox.Api.Handlers
use sealbox.Api.Handlers.{rendered, reveal_loop}
use sealbox.Api.Names.{is_id}
use sealbox.Api.Action.{Server, State, Response, answer, Body}
use sealbox.Api.Objects.{parse_object, parse_all, render}
use sealbox.Api.Handlers.{reveal_role, reveal_action, is_full}
use sealbox.Api.Serve.{Route, create, serve}
use sealbox.Api.Backed.{on_store}
use sealbox.Api.Reveal.{stamped}
use sealbox.Store.Read.{is_about, ref_of}
use sealbox.Base.{any}
use sealbox.Examples.Fixtures.{to_lower, store}
use sealbox.Api.Searched.{search_logged}
use sealbox.Api.Handlers.{query_request, next_of}
use sealbox.Store.Read.{is_match, one_of, search_page, search, sort, insert_sorted}
use sealbox.Schema.{Query, normalize}
use sealbox.Store.Tables.{IndexRow}
use sealbox.Examples.Schemas.{schema}
use sealbox.Base.{◌&&◌}
use sealbox.Examples.Requests.{
  codec, id_tape, server, clerk, plain_hash, header, name, start, first_id,
}

abbrev carded : Server World ℕ
carded = record server { schema = schema }

abbrev teller : Client ℕ
teller = record clerk { roles = codes "write" ∷ codes "search" ∷ [] }

abbrev with_card : State World ℕ
with_card =
    (serve (on_store carded store id_tape) plain_hash (teller ∷ []) header
      (some (codes "{4111111111111111")) (create name) start).1

abbrev asks : Response × State World ℕ
asks =
    serve (on_store carded store id_tape) plain_hash (teller ∷ []) header (some (codes "{1111"))
      (Route.search name []) with_card

finds : asks ≡ (answer 200 (Body.found (first_id ∷ []) none), asks.1)
unfolding put_many sealbox.Store.Tx.transact sealbox.Store.Write.put_loop
    sealbox.Store.Write.put_one sealbox.Envelope.seal sealbox.Envelope.new
    sealbox.Store.Tx.tx_insert_object sealbox.Store.Write.insert_indexed
    sealbox.Store.Tx.tx_insert_index ◌==◌ new_id sealbox.Store.Tables.hex
    sealbox.Store.Tables.hex_digit sealbox.Store.Tx.tx_audit lookup insert sealbox.Store.Tables.emit
    aad sealbox.Envelope.seal_blob serve authenticate sealbox.Auth.cut_prefix Handlers.create
    require_role read_body is_collection parse_object take_subject without validate indexed
    decode_members sealbox.Auth.match_clients sealbox.Schema.index_loop sealbox.Schema.fields_of
    get_many sealbox.Envelope.open_many sealbox.Envelope.open_groups sealbox.Envelope.group
    sealbox.Envelope.number sealbox.Envelope.add_to_group sealbox.Envelope.open_group
    sealbox.Envelope.unwrap_group sealbox.Envelope.unwrap_each sealbox.Envelope.open_blob
    sealbox.Envelope.fill_group sealbox.Envelope.is_open_failed sealbox.Envelope.read_slots
    sealbox.Envelope.fail_group sealbox.Envelope.open_with_dek sealbox.Envelope.set_slot
    sealbox.Store.Read.collect Handlers.get is_id allow audit_entries audit_many Handlers.audit_one
    rendered render reveal_loop Handlers.reveal_batch decode_reveal decode_texts
    Handlers.create_batch parse_all sealbox.Api.Objects.decode_ids sealbox.Json.unmarshal_string
    sealbox.Api.Objects.decode_text Handlers.search sealbox.Schema.validate_loop
    sealbox.Schema.validate_field sealbox.Json.is_null sealbox.Schema.call_validate
    sealbox.FieldType.types sealbox.FieldType.validate_card sealbox.FieldType.trim
    sealbox.FieldType.digits sealbox.FieldType.luhn sealbox.FieldType.luhn_loop
    sealbox.FieldType.weight sealbox.Schema.index_field sealbox.Schema.call_normalize
    sealbox.Schema.index_value sealbox.Api.Objects.decode_query normalize sealbox.FieldType.cut
    sealbox.FieldType.is_digit sealbox.FieldType.is_space sealbox.FieldType.last4
    sealbox.FieldType.trim_left sealbox.FieldType.trim_right sealbox.Schema.last4_index
    sealbox.Schema.normalize_for sealbox.Store.Tables.hash_input search sort insert_sorted
finds = refl

search_logged_example :
    (c : Client ℕ) × (q_raw : Bytes) × (field : Text) × (value : Text) × (q : Query) × (ids : List
      Text)
    × (authenticate plain_hash (teller ∷ []) header ≡ some c)
    × (some (codes "{1111") ≡ some q_raw)
    × (has_role c.roles (codes "search") ≡ true)
    × (query_request (codec.decode q_raw) ≡ some (field, value))
    × (normalize to_lower schema name field value ≡ ok q)
    × (Body.found (first_id ∷ []) none ≡ Body.found ids (next_of ids))
    × (length ids ≤ search_page)
    × All
        (λ id.
          any
            (λ r. is_match store name q.index q.normalized [] r && r.object_id == id)
            with_card.vault.db.blind_index
          ≡ true)
        ids
    × (next_of ids ≡ none
        → All
            (λ (r : IndexRow).
              is_match store name q.index q.normalized [] r ≡ true → one_of ids r.object_id ≡ true)
            with_card.vault.db.blind_index)
    × (asks.1.vault.db.audit_log
        ≡ with_card.vault.db.audit_log
          ++ audit_row (stamped c (codes "search") name [] q.index) ∷ [])
search_logged_example =
    search_logged carded store id_tape plain_hash (teller ∷ []) header (some (codes "{1111")) name
      [] with_card asks.1 200 (Body.found (first_id ∷ []) none) (omega arith) finds
