-- ===== src/Store/Write.antt =====
-- `PutMany` and `AuditMany`.
use sealbox.Base.{
  ℕ, suc, some, List, [], ◌∷◌, ◌++◌, Text, codes, Dict, Result, ok, err, false, map, if◌then◌else◌,
  any,
}
use sealbox.Envelope.{Bytes, Draw, seal}
use sealbox.Store.Tables.{
  AuditEntry, audit_row, nullif_empty, World, Item, StoreError, database, Store, aad, hash, new_id,
  emit, insert_audit,
}
use sealbox.Store.Tx.{
  Tx, ◌>>=◌, ◌>>◌, pure, lift, tx_insert_object, tx_insert_index, tx_audit, transact,
}

-- what one round of the loop in `PutMany` draws: the bytes of the id, and those of `Seal`
pub record PutDraw : Type 0 where
  pub id_bytes : Bytes
  pub draw : Draw

abbrev pub create_entry : Text → Text → Text → AuditEntry
create_entry actor collection id = record {
  client = actor;
  action = codes "create";
  collection = collection;
  object_id = id;
  field = [];
}

module _ (s : Store) where
  -- `for field, value := range it.Indexed`
  unfoldable pub insert_indexed : Text → Text → Dict Text → Tx (Unit {0})
  insert_indexed collection id [] = pure tt
  insert_indexed collection id ((field, value) ∷ rest) = do
    tx_insert_index s (record {
      collection = collection;
      field = field;
      hash = hash s collection field value;
      object_id = id;
    })
    insert_indexed collection id rest

  -- one round of the loop
  unfoldable pub put_one : Text → Text → PutDraw → Item → Tx Text
  put_one actor collection d it = do
    let id = new_id d.id_bytes
    sealed ← lift (seal s.aead s.env d.draw it.plaintext (aad collection id))
    tx_insert_object s (record {
      id = id;
      collection = collection;
      key_id = sealed.key_id;
      wrapped_dek = some sealed.wrapped_dek;
      ciphertext = sealed.ciphertext;
      subject_id = nullif_empty it.subject;
      deleted = false;
    })
    insert_indexed collection id it.indexed
    tx_audit s (create_entry actor collection id)
    pure id

  -- The loop, from a round on; `tape` is the randomness of each round.
  unfoldable pub put_loop :
      Text → Text → (ℕ → PutDraw) → ℕ → List Item → Tx (List Text × List AuditEntry)
  put_loop actor collection tape i [] = pure ([], [])
  put_loop actor collection tape i (it ∷ rest) = do
    id ← put_one actor collection (tape i) it
    (ids, entries) ← put_loop actor collection tape (suc i) rest
    pure (id ∷ ids, create_entry actor collection id ∷ entries)

  -- `PutMany`
  unfoldable pub put_many :
      Text → Text → (ℕ → PutDraw) → List Item → World → Result StoreError (List Text) × World
  put_many actor collection tape items = transact s (put_loop actor collection tape 0 items)

  -- `AuditMany`: all entries in one implicit transaction
  unfoldable pub audit_many : List AuditEntry → World → Result StoreError (Unit {0}) × World
  audit_many [] w = (ok tt, w)
  audit_many (e ∷ rest) w =
      let entries = e ∷ rest in
      if any (λ e. s.fails (insert_audit (audit_row e))) entries then (err database, w) else (
        ok tt,
        emit s entries
            (record w { db = record w.db { audit_log = w.db.audit_log ++ map audit_row entries } }),
      )
