-- ===== src/Examples/Requests.antt =====
-- Requests to a server on the store of the fixtures, with an ad hoc text format in place of JSON.
use sealbox.Base.{
  ℕ, ◌≡◌, refl, ◌≤◌, ◌<◌, ◌-◌, ◌%◌, Text, codes, List, [], ◌∷◌, ◌++◌, ok, true, Option, none, some,
  inr, arith, Dict, eqb, leb, length, if◌then◌else◌,
}
use sealbox.Json.{Json, nil, cons, end, member}
use sealbox.Schema.{Schema}
use sealbox.Auth.{Client, authenticate, has_role}
use sealbox.Envelope.{Bytes}
use sealbox.Store.Tables.{World, Store, Item, audit_row}
use sealbox.Store.Write.{PutDraw, put_many, audit_many}
use sealbox.Store.Read.{get_many}
use sealbox.Store.Tables.{new_id, aad}
use sealbox.Base.{◌==◌, lookup, insert, without}
use sealbox.Schema.{validate, indexed}
use sealbox.Json.{decode_members}
use sealbox.Api.Action.{require_role, read_body, allow, audit_entries}
use sealbox.Api.Names.{is_collection}
use sealbox.Api.Objects.{take_subject, decode_reveal, decode_texts}
use sealbox.Api.Handlers
use sealbox.Api.Handlers.{rendered, reveal_loop}
use sealbox.Store.View.{view, HasDistinctIds}
use sealbox.Store.Puts.{CanSeal}
use sealbox.Api.Names.{is_id, max_batch}
use sealbox.Api.Action.{Codec, Server, State, Response, answer, Body, Rendered, plain}
use sealbox.Api.Objects.{parse_object, parse_all, render}
use sealbox.Api.Handlers.{reveal_role, reveal_action, is_full}
use sealbox.Api.Serve.{Route, create, create_batch, get, reveal_batch, delete, serve}
use sealbox.Api.Backed.{on_store, backed}
use sealbox.Api.Roles.{Refused, serve_unauthorised}
use sealbox.Api.Logged.{get_logged}
use sealbox.Api.Reveal.{stamped}
use sealbox.Api.Batch.{BatchAnswer, reveal_batch_logged}
use sealbox.Api.Stored.{AreBytes}
use sealbox.Api.Erase.{delete_answers, erase_answers}
use sealbox.Store.Shred.{is_target}
use sealbox.Store.Read.{is_about, ref_of}
use sealbox.Api.Action.{nothing, erased, object_not_found, write_error}
use sealbox.Api.Names.{is_subject}
use sealbox.Base.{any, map, keep, false}
use sealbox.Api.Handlers.{reveal_request}
use sealbox.Api.Created.{IsTape, create_stored, create-get}
use sealbox.Examples.Fixtures.{to_lower, store, empty_world, draw, draw-IsDraw, repeat}
use sealbox.Examples.Sealing.{wrapper-IsHonest, current_loaded, loaded-IsHonest}

-- `{` opens an object of one field, `[` the body of a batch reveal of one id
abbrev decode : Bytes → Option Json
decode [] = none
decode (c ∷ rest) =
    if eqb c b'{'
    then some (Json.obj (member (codes "n") (Json.str rest) end))
    else if eqb c b'['
    then some (
        Json.obj (
          member (codes "ids") (Json.arr (cons (Json.str rest) nil))
            (member (codes "reveal") (Json.str (codes "full")) end)))
    else none

abbrev encode : Dict Json → Bytes
encode ((name, Json.str s) ∷ rest) = b'{' ∷ s
encode _ = []

abbrev pub codec : Codec
codec = record {
  decode = decode;
  elements = λ body. some (body ∷ body ∷ []);
  encode = encode;
  utf8_valid = λ body. true;
}

abbrev pub id_tape : ℕ → PutDraw
id_tape n = record { id_bytes = repeat 16 (n % 256); draw = draw }

sixteen : (b : ℕ) → length (repeat 16 b) ≡ 16
sixteen b = refl

small : (b : ℕ) → AreBytes (repeat 16 (b % 256))
small b =
    let h : b % 256 < 256 = omega arith in
    (h, (h, (h, (h, (h, (h, (h, (h, (h, (h, (h, (h, (h, (h, (h, (h, tt))))))))))))))))

id_tape-IsTape : IsTape id_tape
id_tape-IsTape = record {
  draws = λ n. draw-IsDraw;
  sixteen = λ n. sixteen (n % 256);
  bytes = λ n. small n;
}

abbrev pub server : Server World ℕ
server = record {
  vault = backed store id_tape;
  codec = codec;
  to_lower = to_lower;
  schema = [];
  limited = λ name. true;
  allow_n = λ name n left. (leb n left, left - n);
}

abbrev served : Server World ℕ
served = on_store server store id_tape

abbrev pub clerk : Client ℕ
clerk = record {
  name = codes "app";
  key = codes "0123456789abcdef";
  roles = codes "write" ∷ codes "read_full" ∷ [];
  reveal_per_second = 5;
}

abbrev clients : List (Client ℕ)
clients = clerk ∷ []

abbrev pub plain_hash : Text → List ℕ
plain_hash s = s

abbrev pub header : Text
header = codes "Bearer 0123456789abcdef"

abbrev pub name : Text
name = codes "p"

abbrev raw : Bytes
raw = codes "{x"

abbrev pub start : State World ℕ
start = record { vault = empty_world; limits = 3 }

abbrev request : Option Bytes → Route → State World ℕ → Response × State World ℕ
request body route s = serve served plain_hash clients header body route s

abbrev stored : State World ℕ
stored = (request (some raw) (create name) start).1

abbrev pub first_id : Text
first_id = codes "tok_00000000000000000000000000000000"

creates : request (some raw) (create name) start ≡ (answer 201 (Body.created first_id), stored)
unfolding put_many sealbox.Store.Tx.transact sealbox.Store.Write.put_loop
    sealbox.Store.Write.put_one sealbox.Envelope.seal sealbox.Envelope.new
    sealbox.Store.Tx.tx_insert_object sealbox.Store.Write.insert_indexed
    sealbox.Store.Tx.tx_insert_index ◌==◌ new_id sealbox.Store.Tables.hex
    sealbox.Store.Tables.hex_digit sealbox.Store.Tx.tx_audit lookup insert sealbox.Store.Tables.emit
    aad sealbox.Envelope.seal_blob serve authenticate sealbox.Auth.cut_prefix Handlers.create
    require_role read_body is_collection parse_object take_subject without validate indexed
    decode_members sealbox.Auth.match_clients sealbox.Schema.index_loop sealbox.Schema.fields_of
creates = refl

abbrev shown : State World ℕ
shown = (request none (get name first_id (codes "full")) stored).1

reads :
    request none (get name first_id (codes "full")) stored
    ≡ (answer 200 (Body.object (plain raw)), shown)
unfolding put_many sealbox.Store.Tx.transact sealbox.Store.Write.put_loop
    sealbox.Store.Write.put_one sealbox.Envelope.seal sealbox.Envelope.new
    sealbox.Store.Tx.tx_insert_object sealbox.Store.Write.insert_indexed
    sealbox.Store.Tx.tx_insert_index ◌==◌ new_id sealbox.Store.Tables.hex
    sealbox.Store.Tables.hex_digit sealbox.Store.Tx.tx_audit lookup insert sealbox.Store.Tables.emit
    aad sealbox.Envelope.seal_blob serve authenticate sealbox.Auth.cut_prefix Handlers.create
    require_role read_body is_collection parse_object take_subject without validate indexed
    decode_members sealbox.Auth.match_clients sealbox.Schema.index_loop sealbox.Schema.fields_of
    get_many sealbox.Envelope.open_many sealbox.Envelope.open_groups sealbox.Envelope.group
    sealbox.Envelope.number sealbox.Envelope.add_to_group sealbox.Envelope.open_group
    sealbox.Envelope.unwrap_group sealbox.Envelope.unwrap_each sealbox.Envelope.open_blob
    sealbox.Envelope.fill_group sealbox.Envelope.is_open_failed sealbox.Envelope.read_slots
    sealbox.Envelope.fail_group sealbox.Envelope.open_with_dek sealbox.Envelope.set_slot
    sealbox.Store.Read.collect Handlers.get is_id allow audit_entries audit_many Handlers.audit_one
    rendered render reveal_loop Handlers.reveal_batch decode_reveal decode_texts
    Handlers.create_batch parse_all sealbox.Api.Objects.decode_ids sealbox.Json.unmarshal_string
    sealbox.Api.Objects.decode_text
reads = refl

abbrev batch_body : Option Bytes
batch_body = some (b'[' ∷ first_id)

abbrev told : State World ℕ
told = (request batch_body (reveal_batch name) stored).1

tells :
    request batch_body (reveal_batch name) stored
    ≡ (answer 200 (Body.objects ((first_id, plain raw) ∷ []) []), told)
unfolding put_many sealbox.Store.Tx.transact sealbox.Store.Write.put_loop
    sealbox.Store.Write.put_one sealbox.Envelope.seal sealbox.Envelope.new
    sealbox.Store.Tx.tx_insert_object sealbox.Store.Write.insert_indexed
    sealbox.Store.Tx.tx_insert_index ◌==◌ new_id sealbox.Store.Tables.hex
    sealbox.Store.Tables.hex_digit sealbox.Store.Tx.tx_audit lookup insert sealbox.Store.Tables.emit
    aad sealbox.Envelope.seal_blob serve authenticate sealbox.Auth.cut_prefix Handlers.create
    require_role read_body is_collection parse_object take_subject without validate indexed
    decode_members sealbox.Auth.match_clients sealbox.Schema.index_loop sealbox.Schema.fields_of
    get_many sealbox.Envelope.open_many sealbox.Envelope.open_groups sealbox.Envelope.group
    sealbox.Envelope.number sealbox.Envelope.add_to_group sealbox.Envelope.open_group
    sealbox.Envelope.unwrap_group sealbox.Envelope.unwrap_each sealbox.Envelope.open_blob
    sealbox.Envelope.fill_group sealbox.Envelope.is_open_failed sealbox.Envelope.read_slots
    sealbox.Envelope.fail_group sealbox.Envelope.open_with_dek sealbox.Envelope.set_slot
    sealbox.Store.Read.collect Handlers.get is_id allow audit_entries audit_many Handlers.audit_one
    rendered render reveal_loop Handlers.reveal_batch decode_reveal decode_texts
    Handlers.create_batch parse_all sealbox.Api.Objects.decode_ids sealbox.Json.unmarshal_string
    sealbox.Api.Objects.decode_text
tells = refl

abbrev second_id : Text
second_id = codes "tok_01010101010101010101010101010101"

abbrev both : State World ℕ
both = (request (some raw) (create_batch name) start).1

can_seal : CanSeal store
unfolding sealbox.Envelope.new
can_seal = record { honest = wrapper-IsHonest; loaded = current_loaded }

knows : authenticate plain_hash clients header ≡ some clerk
unfolding authenticate sealbox.Auth.cut_prefix sealbox.Auth.match_clients ◌==◌
knows = refl

-- the clerk may not delete
serve_unauthorised_example : Refused start (request none (delete name first_id) start)
unfolding ◌==◌
serve_unauthorised_example =
    serve_unauthorised served plain_hash clients header none (delete name first_id) start
      (inr (clerk, knows, refl))

create_stored_example :
    (c : Client ℕ) × (raw' : Bytes) × (item : Item) × (id : Text) × (authenticate plain_hash clients
        header
      ≡ some c)
    × (has_role c.roles (codes "write") ≡ true)
    × (some raw ≡ some raw')
    × (parse_object served name raw' ≡ ok item)
    × (Body.created first_id ≡ Body.created id)
    × (is_id id ≡ true)
    × (view store stored.vault.db name id ≡ some (ok item.plaintext))
    × HasDistinctIds stored.vault.db.objects
create_stored_example =
    create_stored server store id_tape plain_hash clients header (some raw) name start stored 201
      (Body.created first_id) can_seal id_tape-IsTape tt (omega arith) creates

stored-distinct : HasDistinctIds stored.vault.db.objects
stored-distinct =
    let (c, raw', item, id, known, may, given, parsed, made, named, held, apart) =
      create_stored_example in
    apart

abbrev item : Item
item = record { plaintext = raw; indexed = []; subject = [] }

parses : parse_object served name raw ≡ ok item
unfolding put_many sealbox.Store.Tx.transact sealbox.Store.Write.put_loop
    sealbox.Store.Write.put_one sealbox.Envelope.seal sealbox.Envelope.new
    sealbox.Store.Tx.tx_insert_object sealbox.Store.Write.insert_indexed
    sealbox.Store.Tx.tx_insert_index ◌==◌ new_id sealbox.Store.Tables.hex
    sealbox.Store.Tables.hex_digit sealbox.Store.Tx.tx_audit lookup insert sealbox.Store.Tables.emit
    aad sealbox.Envelope.seal_blob serve authenticate sealbox.Auth.cut_prefix Handlers.create
    require_role read_body is_collection parse_object take_subject without validate indexed
    decode_members sealbox.Auth.match_clients sealbox.Schema.index_loop sealbox.Schema.fields_of
parses = refl

create-get_example : Body.object (plain raw) ≡ Body.object (plain item.plaintext)
create-get_example =
    create-get server store id_tape plain_hash clients header header raw item name first_id start
      stored shown 201 200 (Body.object (plain raw)) loaded-IsHonest can_seal id_tape-IsTape tt
      (omega arith) (omega arith) parses creates reads

get_logged_example :
    (c : Client ℕ) × (plaintext : Bytes) × (s : Rendered) × (authenticate plain_hash clients header
      ≡ some c)
    × (has_role c.roles (reveal_role (codes "full")) ≡ true)
    × (view store stored.vault.db name first_id ≡ some (ok plaintext))
    × (render served name plaintext (is_full (codes "full")) ≡ ok (some s))
    × (Body.object (plain raw) ≡ Body.object s)
    × (shown.vault.db.audit_log
        ≡ stored.vault.db.audit_log
          ++ audit_row (stamped c (reveal_action (codes "full")) name first_id []) ∷ [])
get_logged_example =
    get_logged server store id_tape plain_hash clients header none name first_id (codes "full")
      stored shown 200 (Body.object (plain raw)) loaded-IsHonest stored-distinct (omega arith) reads

reveal_batch_logged_example :
    (c : Client ℕ) × (sent : Bytes) × (ids : List Text) × (reveal : Text) × (authenticate plain_hash
        clients header
      ≡ some c)
    × (batch_body ≡ some sent)
    × (reveal_request (codec.decode sent) ≡ some (ids, reveal))
    × (has_role c.roles (reveal_role reveal) ≡ true)
    × (length ids ≤ max_batch)
    × BatchAnswer served store c name ids reveal stored.vault.db told.vault.db
        (Body.objects ((first_id, plain raw) ∷ []) [])
reveal_batch_logged_example =
    reveal_batch_logged server store id_tape plain_hash clients header batch_body name stored told
      200 (Body.objects ((first_id, plain raw) ∷ []) []) loaded-IsHonest stored-distinct
      (omega arith) tells

abbrev remover : Client ℕ
remover = record clerk { roles = codes "delete" ∷ [] }

knows_remover : authenticate plain_hash (remover ∷ []) header ≡ some remover
unfolding authenticate sealbox.Auth.cut_prefix sealbox.Auth.match_clients ◌==◌
knows_remover = refl

abbrev removed : Response × State World ℕ
removed = serve served plain_hash (remover ∷ []) header none (Route.delete name first_id) stored

delete_answers_example :
    (any (is_target name first_id) stored.vault.db.objects ≡ true
      → (removed.0 ≡ answer 204 nothing) × (view store removed.1.vault.db name first_id ≡ none))
    × (any (is_target name first_id) stored.vault.db.objects ≡ false
        → removed ≡ (write_error 404 object_not_found, stored))
unfolding ◌==◌ is_id
delete_answers_example =
    delete_answers server store id_tape (λ st. refl) plain_hash (remover ∷ []) header none remover
      name first_id stored knows_remover refl refl

abbrev forgotten : Response × State World ℕ
forgotten =
    serve served plain_hash (remover ∷ []) header none (Route.erase_subject (codes "u1")) stored

erase_answers_example :
    (forgotten.0
      ≡ answer 200 (erased (map ref_of (keep (is_about (codes "u1")) stored.vault.db.objects))))
    × (keep (is_about (codes "u1")) forgotten.1.vault.db.objects ≡ [])
unfolding ◌==◌ is_subject
erase_answers_example =
    erase_answers server store id_tape (λ st. refl) plain_hash (remover ∷ []) header none remover
      (codes "u1") stored knows_remover refl refl
