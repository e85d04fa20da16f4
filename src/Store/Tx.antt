-- ===== src/Store/Tx.antt =====
-- A transaction, and the statements of store.go as changes of the tables. What a failed
-- transaction did to its copy of the tables is dropped with the copy: that is its rollback.
use sealbox.Base.{
  Bool, ◌&&◌, ◌||◌, not, List, [], ◌∷◌, ◌++◌, Text, ◌==◌, Result, ok, err, any, keep, if◌then◌else◌,
}
use sealbox.Envelope.{Error}
use sealbox.Store.Tables.{
  ObjectRow, IndexRow, AuditEntry, audit_row, Db, World, StoreError, database, violation, Statement,
  begin, commit, insert_object, insert_index, insert_audit, delete_index, Store, emit,
}

abbrev pub Tx : Type 0 → Type 0
Tx A = Db → Result StoreError (A × Db)

infixl 5 ◌>>=◌ ◌>>◌
abbrev pub ◌>>=◌ : {A B : Type 0} → Tx A → (A → Tx B) → Tx B
◌>>=◌ m f db = elim (m db) [ ok (a, db') ↦ f a db' | err e ↦ err e ]

abbrev pub ◌>>◌ : {B : Type 0} → Tx (Unit {0}) → Tx B → Tx B
m >> k = m >>= λ _. k

abbrev pub pure : {A : Type 0} → A → Tx A
pure a db = ok (a, db)

abbrev pub fail : {A : Type 0} → StoreError → Tx A
fail e db = err e

-- an error of the envelope ends the transaction
abbrev pub lift : {A : Type 0} → Result Error A → Tx A
lift (ok a) db = ok (a, db)
lift (err e) db = err (StoreError.envelope e)

abbrev pub has_id : Text → ObjectRow → Bool
has_id id r = r.id == id

-- the rows of one object in the blind index
abbrev pub of_object : Text → Text → IndexRow → Bool
of_object collection id r = r.collection == collection && r.object_id == id

abbrev pub same_index_row : IndexRow → IndexRow → Bool
same_index_row a b =
    a.collection == b.collection
    && a.field == b.field
    && a.hash == b.hash
    && a.object_id == b.object_id

module _ (s : Store) where
  -- a statement that the database may refuse
  abbrev pub run : {A : Type 0} → Statement → Tx A → Tx A
  run st m db = if s.fails st then err database else m db

  -- `INSERT INTO objects`
  unfoldable pub tx_insert_object : ObjectRow → Tx (Unit {0})
  tx_insert_object r = run (insert_object r.id) (λ db.
      if any (has_id r.id) db.objects
      then err violation
      else ok (tt, record db { objects = db.objects ++ r ∷ [] }))

  -- `INSERT INTO blind_index`
  unfoldable pub tx_insert_index : IndexRow → Tx (Unit {0})
  tx_insert_index r = run (insert_index r.object_id) (λ db.
      if any (same_index_row r) db.blind_index || not (any (has_id r.object_id) db.objects)
      then err violation
      else ok (tt, record db { blind_index = db.blind_index ++ r ∷ [] }))

  -- `DELETE FROM blind_index WHERE collection = $1 AND object_id = $2`
  unfoldable pub tx_delete_index : Text → Text → Tx (Unit {0})
  tx_delete_index collection id = run (delete_index id) (λ db.
      ok (
        tt,
        record db { blind_index = keep (λ r. not (of_object collection id r)) db.blind_index },
      ))

  -- `audit`
  unfoldable pub tx_audit : AuditEntry → Tx (Unit {0})
  tx_audit e =
      run (insert_audit (audit_row e))
        (λ db. ok (tt, record db { audit_log = db.audit_log ++ audit_row e ∷ [] }))

  -- `Begin`, the statements, `Commit`, and then `emit` of the entries that they audited. An error
  -- before the commit rolls back; an error of the commit leaves open whether it took effect. Nothing is
  -- emitted after an error.
  unfoldable pub transact :
      {A : Type 0} → Tx (A × List AuditEntry) → World → Result StoreError A × World
  transact m w = if s.fails begin then (err database, w) else (elim (m w.db) [
    | err e ↦ (err e, w)
    | ok ((a, entries), db) ↦
        if s.fails commit
        then (err database, if s.commits_anyway then record w { db = db } else w)
        else (ok a, emit s entries (record w { db = db }))
  ])
