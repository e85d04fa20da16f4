-- ===== src/Store/Shred.antt =====
-- `Delete` and `DeleteSubject`: the key is destroyed, the row stays.
use sealbox.Base.{
  none, List, [], ◌∷◌, map, Text, codes, ◌==◌, Result, ok, Bool, true, ◌&&◌, not, any, keep,
  if◌then◌else◌,
}
use sealbox.Store.Tables.{
  ObjectRow, AuditEntry, World, Ref, StoreError, not_found, shred, shred_subject, Store,
}
use sealbox.Store.Tx.{Tx, ◌>>=◌, ◌>>◌, pure, fail, run, tx_delete_index, tx_audit, transact}
use sealbox.Store.Read.{is_about, ref_of}

-- `SET wrapped_dek = NULL, deleted_at = now()`
abbrev pub shredded : ObjectRow → ObjectRow
shredded r = record r { wrapped_dek = none; deleted = true }

unfoldable pub shred_where : (ObjectRow → Bool) → List ObjectRow → List ObjectRow
shred_where p [] = []
shred_where p (r ∷ rows) = (if p r then shredded r else r) ∷ shred_where p rows

-- `WHERE id = $1 AND collection = $2 AND deleted_at IS NULL`
abbrev pub is_target : Text → Text → ObjectRow → Bool
is_target collection id r = r.id == id && r.collection == collection && not r.deleted

abbrev pub delete_entry : Text → Text → Text → AuditEntry
delete_entry actor collection id = record {
  client = actor;
  action = codes "delete";
  collection = collection;
  object_id = id;
  field = [];
}

module _ (s : Store) where
  -- the update of one object; the result says whether a row was affected
  unfoldable pub tx_shred : Text → Text → Tx Bool
  tx_shred collection id = run s (shred id) (λ db. ok (
    any (is_target collection id) db.objects,
    record db { objects = shred_where (is_target collection id) db.objects },
  ))

  unfoldable pub delete_tx : Text → Text → Text → Tx (Unit {0} × List AuditEntry)
  delete_tx actor collection id = do
    affected ← tx_shred collection id
    if affected
        then (do
          tx_delete_index s collection id
          tx_audit s (delete_entry actor collection id)
          pure (tt, delete_entry actor collection id ∷ []))
        else fail not_found

  -- `Delete`
  unfoldable pub delete : Text → Text → Text → World → Result StoreError (Unit {0}) × World
  delete actor collection id = transact s (delete_tx actor collection id)

  -- the update of `DeleteSubject`, with what it returns
  unfoldable pub tx_shred_subject : Text → Tx (List Ref)
  tx_shred_subject subject = run s (shred_subject subject) (λ db. ok (
    map ref_of (keep (is_about subject) db.objects),
    record db { objects = shred_where (is_about subject) db.objects },
  ))

  unfoldable pub erase_loop : Text → List Ref → Tx (List AuditEntry)
  erase_loop actor [] = pure []
  erase_loop actor (r ∷ rest) = do
    tx_delete_index s r.collection r.id
    tx_audit s (delete_entry actor r.collection r.id)
    entries ← erase_loop actor rest
    pure (delete_entry actor r.collection r.id ∷ entries)

  unfoldable pub delete_subject_tx : Text → Text → Tx (List Ref × List AuditEntry)
  delete_subject_tx actor subject = do
    erased ← tx_shred_subject subject
    entries ← erase_loop actor erased
    pure (erased, entries)

  -- `DeleteSubject`
  unfoldable pub delete_subject : Text → Text → World → Result StoreError (List Ref) × World
  delete_subject actor subject = transact s (delete_subject_tx actor subject)
