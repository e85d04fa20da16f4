-- ===== src/Store/Maintain.antt =====
-- One row of `Rotate` and of `Reindex`. Other clients write between the read of a page and the
-- update of a row, so the row as it was read and the tables as they are now are separate arguments.
use sealbox.Base.{
  ℕ, suc, Option, none, some, List, [], ◌∷◌, Text, codes, ◌==◌, Dict, Result, ok, err, Bool, true,
  false, ◌&&◌, not, any, if◌then◌else◌,
}
use sealbox.Envelope.{Bytes, Error, unknown_key, is_open_failed, Sealed, rewrap, open_value}
use sealbox.Store.Tables.{
  ObjectRow, AuditEntry, World, StoreError, database, begin, lock_object, update_key, Store, aad,
}
use sealbox.Store.Tx.{Tx, ◌>>◌, pure, run, has_id, tx_delete_index, tx_audit, transact}
use sealbox.Store.Write.{insert_indexed}
use sealbox.Store.Read.{or_nil, sealed_of}

-- what became of one row: how many rows the update changed, or that it was skipped
pub data Outcome : Type 0 where
  skipped unchanged : Outcome
  changed : ℕ → Outcome

-- `errors.Is(err, ErrOpen) || errors.Is(err, ErrUnknownKey)`
abbrev pub is_bad_row : Error → Bool
is_bad_row unknown_key = true
is_bad_row e = is_open_failed e

abbrev pub reindex_entry : Text → Text → Text → AuditEntry
reindex_entry actor collection id = record {
  client = actor;
  action = codes "reindex";
  collection = collection;
  object_id = id;
  field = [];
}

-- `WHERE id = $3 AND key_id = $4 AND deleted_at IS NULL`
abbrev pub is_unmoved : Text → Text → ObjectRow → Bool
is_unmoved id key_id r = r.id == id && r.key_id == key_id && not r.deleted

-- `SET key_id = $1, wrapped_dek = $2`
unfoldable pub rekey_where : (ObjectRow → Bool) → Sealed → List ObjectRow → List ObjectRow
rekey_where p re [] = []
rekey_where p re (r ∷ rows) =
    (if p r then record r { key_id = re.key_id; wrapped_dek = some re.wrapped_dek } else r)
    ∷ rekey_where p re rows

unfoldable pub count : (ObjectRow → Bool) → List ObjectRow → ℕ
count p [] = 0
count p (r ∷ rows) = let rest = count p rows in if p r then suc rest else rest

module _ (s : Store) where
  -- the loop body of `Rotate`, for a row as it was read
  unfoldable pub rotate_row : Bytes → ObjectRow → Tx Outcome
  rotate_row drawn r db =
      elim (rewrap s.env drawn
        (record { key_id = r.key_id; wrapped_dek = or_nil r.wrapped_dek; ciphertext = [] })
        (aad r.collection r.id)) [
          | err e ↦ if is_bad_row e then ok (skipped, db) else err (StoreError.envelope e)
          | ok (re, false) ↦ ok (unchanged, db)
          | ok (re, true) ↦
              if s.fails (update_key r.id)
              then err database
              else ok (
                changed (count (is_unmoved r.id r.key_id) db.objects),
                record db { objects = rekey_where (is_unmoved r.id r.key_id) re db.objects },
              )
        ]

  -- `SELECT deleted_at IS NULL FROM objects WHERE id = $1 FOR UPDATE`; no row is an error
  unfoldable pub tx_lock : Text → Tx Bool
  tx_lock id = run s (lock_object id) (λ db.
      if any (has_id id) db.objects
      then ok (any (λ r. has_id id r && not r.deleted) db.objects, db)
      else err database)

  unfoldable pub rewrite_tx : Text → Text → Text → Dict Text → Tx (Unit {0} × List AuditEntry)
  rewrite_tx actor collection id values = do
    tx_delete_index s collection id
    insert_indexed s collection id values
    tx_audit s (reindex_entry actor collection id)
    pure (tt, reindex_entry actor collection id ∷ [])

  -- `rewriteIndex`
  unfoldable pub rewrite_index :
      Text → Text → Text → Dict Text → World → Result StoreError (Unit {0}) × World
  rewrite_index actor collection id values w =
      if s.fails begin then (err database, w) else (elim (tx_lock id w.db) [
        | err e ↦ (err e, w)
        | ok (false, db) ↦ (ok tt, w)
        | ok (true, db) ↦ transact s (rewrite_tx actor collection id values) w
      ])

  -- the loop body of `Reindex`, for a row as it was read; `indexed` is the function it is given
  unfoldable pub reindex_row :
      Text
      → (Text → Bytes → Option (Dict Text))
      → ObjectRow
      → World
      → Result StoreError Outcome × World
  reindex_row actor indexed r w =
      elim (open_value s.aead s.env (sealed_of r) (aad r.collection r.id)) [
        | err e ↦ if is_bad_row e then (ok skipped, w) else (err (StoreError.envelope e), w)
        | ok plaintext ↦ elim (indexed r.collection plaintext) [
          | none ↦ (ok skipped, w)
          | some values ↦
              let (result, w') = rewrite_index actor r.collection r.id values w in
              elim result [ ok _ ↦ (ok (changed 1), w') | err e ↦ (err e, w') ]
        ]
      ]
