-- ===== src/Store/Tables.antt =====
-- The four tables of internal/store/migrations, the values that a row identity and a search hash
-- are made of, and what a store works with.
use sealbox.Base.{
  ℕ, ◌+◌, ◌-◌, ◌/◌, ◌%◌, Bool, Option, none, some, List, [], ◌∷◌, ◌++◌, Text, codes, Dict, ltb,
  if◌then◌else◌,
}
use sealbox.Envelope.{Bytes, Error, Aead, Envelope}

-- `deleted` says that `deleted_at` is set; a NULL key or subject is `none`.
pub record ObjectRow : Type 0 where
  pub id : Text
  pub collection : Text
  pub key_id : Text
  pub wrapped_dek : Option Bytes
  pub ciphertext : Bytes
  pub subject_id : Option Text
  pub deleted : Bool

pub record IndexRow : Type 0 where
  pub collection : Text
  pub field : Text
  pub hash : Bytes
  pub object_id : Text

pub record KeyRow : Type 0 where
  pub name : Text
  pub key_id : Text
  pub wrapped_dek : Bytes
  pub ciphertext : Bytes

-- `AuditEntry`, and the row that `auditSQL` makes of it: an empty id or field is NULL
pub record AuditEntry : Type 0 where
  pub client : Text
  pub action : Text
  pub collection : Text
  pub object_id : Text
  pub field : Text

pub record AuditRow : Type 0 where
  pub client : Text
  pub action : Text
  pub collection : Text
  pub object_id : Option Text
  pub field : Option Text

abbrev pub nullif_empty : Text → Option Text
nullif_empty [] = none
nullif_empty (c ∷ s) = some (c ∷ s)

abbrev pub audit_row : AuditEntry → AuditRow
audit_row e = record {
  client = e.client;
  action = e.action;
  collection = e.collection;
  object_id = nullif_empty e.object_id;
  field = nullif_empty e.field;
}

pub record Db : Type 0 where
  pub objects : List ObjectRow
  pub blind_index : List IndexRow
  pub keys : List KeyRow
  pub audit_log : List AuditRow

-- the database, and the entries that `emit` wrote to the audit logger
pub record World : Type 0 where
  pub db : Db
  pub shipped : List AuditEntry

pub record Item : Type 0 where
  pub plaintext : Bytes
  pub indexed : Dict Text
  pub subject : Text

pub record Ref : Type 0 where
  pub collection : Text
  pub id : Text

-- `ErrNotFound`, an error of the envelope, a statement that the database refused, and the
-- violation of a primary or foreign key
pub data StoreError : Type 0 where
  not_found database violation : StoreError
  envelope : Error → StoreError

-- The statements that the database may refuse: a lost connection, a missing grant, a timeout.
pub data Statement : Type 0 where
  begin commit : Statement
  insert_object insert_index delete_index shred update_key lock_object : Text → Statement
  insert_audit : AuditRow → Statement
  shred_subject select_subject : Text → Statement
  select_objects select_index read_index_key update_index_key : Statement
  select_page : Text → Statement

-- The order of `text` columns in the database.
pub record Collation : Type 0 where
  pub less : Text → Text → Bool

-- `Store`: the envelope, the blind-index key and whether there is an audit logger; with it the
-- cipher, HMAC-SHA256, the database's collation, the statements that fail, and whether a COMMIT that
-- fails took effect all the same, as when only its acknowledgement is lost.
pub record Store : Type 0 where
  pub aead : Aead
  pub hmac : Bytes → Bytes → Bytes
  pub collation : Collation
  pub fails : Statement → Bool
  pub env : Envelope
  pub index_key : Bytes
  pub ships : Bool
  pub commits_anyway : Bool

-- `aad`: the row identity
unfoldable pub aad : Text → Text → Bytes
aad collection id = codes "objects" ++ (0 ∷ (collection ++ (0 ∷ id)))

-- `indexKeyAAD`
unfoldable pub index_key_aad : Bytes
index_key_aad = codes "keys" ++ (0 ∷ codes "blind-index")

abbrev pub index_key_name : Text
index_key_name = codes "blind-index"

-- what `Index.Hash` feeds to the HMAC
unfoldable pub hash_input : Text → Text → Text → Bytes
hash_input collection field normalized = collection ++ (0 ∷ (field ++ (0 ∷ normalized)))

abbrev pub hash : Store → Text → Text → Text → Bytes
hash s collection field normalized = s.hmac s.index_key (hash_input collection field normalized)

-- `hex.EncodeToString`
unfoldable pub hex_digit : ℕ → ℕ
hex_digit n = if ltb n 10 then b'0' + n else b'a' + (n - 10)

unfoldable pub hex : Bytes → Text
hex [] = []
hex (b ∷ rest) = hex_digit (b / 16) ∷ hex_digit (b % 16) ∷ hex rest

-- `newID`, from the sixteen bytes that it draws
unfoldable pub new_id : Bytes → Text
new_id drawn = codes "tok_" ++ hex drawn

-- `emit`
unfoldable pub emit : Store → List AuditEntry → World → World
emit s entries w = if s.ships then record w { shipped = w.shipped ++ entries } else w
