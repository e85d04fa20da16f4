-- ===== src/Store/Effect.antt =====
-- What a successful transaction did to the tables, statement by statement.
use mathlib.Core.Path.{subst}
use sealbox.Base.{
  ◌≡◌, refl, sym, some, List, [], ◌∷◌, ◌++◌, Text, Dict, Result, ok, err, false, not, any, keep,
  arith, Result-cases, inl, inr, append_assoc, append-nil,
}
use sealbox.Envelope.{Error, Sealed, seal}
use sealbox.Store.Tables.{
  ObjectRow, IndexRow, AuditEntry, audit_row, nullif_empty, Db, World, Item, StoreError, database,
  violation, Statement, begin, commit, insert_object, insert_index, insert_audit, delete_index,
  Store, aad, hash, new_id, emit,
}
use sealbox.Store.Tables
use sealbox.Store.Tx.{
  Tx, ◌>>=◌, lift, has_id, of_object, tx_insert_object, tx_insert_index, tx_delete_index, tx_audit,
  transact,
}
use sealbox.Store.Write.{PutDraw, create_entry, insert_indexed, put_one}

pub bind-eq-ok :
    {A B : Type 0} (m : Tx A) (f : A → Tx B) (db : Db) {b : B} {last : Db}
    → (m >>= f) db ≡ ok (b, last)
    → (a : A) × (mid : Db) × (m db ≡ ok (a, mid)) × (f a mid ≡ ok (b, last))
bind-eq-ok m f db {b} {last} h = elim (Result-cases (m db)) [
  | inl ((a, mid), ran) ↦ (a, mid, ran, ground (arith, ran))
  | inr (e, failed) ↦ cc (h, failed)
]

pub lift-eq-ok :
    {A : Type 0} (r : Result Error A) (db : Db) {a : A} {last : Db}
    → lift r db ≡ ok (a, last)
    → (r ≡ ok a) × (db ≡ last)
lift-eq-ok (ok a) db h = (cc, cc)
lift-eq-ok (err e) db h = cc

module _ (s : Store) where
  insert_object_effect :
      (r : ObjectRow) (db last : Db) (u : Unit {0})
      → tx_insert_object s r db ≡ ok (u, last)
      → (any (has_id r.id) db.objects ≡ false)
        × (last ≡ record db { objects = db.objects ++ r ∷ [] })
  unfolding tx_insert_object
  insert_object_effect r db last u h = ground arith

  insert_index_effect :
      (r : IndexRow) (db last : Db) (u : Unit {0})
      → tx_insert_index s r db ≡ ok (u, last)
      → last ≡ record db { blind_index = db.blind_index ++ r ∷ [] }
  unfolding tx_insert_index
  insert_index_effect r db last u h = ground arith

  pub delete_index_effect :
      (collection id : Text) (db last : Db) (u : Unit {0})
      → tx_delete_index s collection id db ≡ ok (u, last)
      → last
        ≡ record db { blind_index = keep (λ r. not (of_object collection id r)) db.blind_index }
  unfolding tx_delete_index
  delete_index_effect collection id db last u h = ground arith

  pub audit_effect :
      (e : AuditEntry) (db last : Db) (u : Unit {0})
      → tx_audit s e db ≡ ok (u, last)
      → last ≡ record db { audit_log = db.audit_log ++ audit_row e ∷ [] }
  unfolding tx_audit
  audit_effect e db last u h = ground arith

-- the index rows and the object row that `PutMany` writes for one item
abbrev pub index_rows : Store → Text → Text → Dict Text → List IndexRow
index_rows s collection id [] = []
index_rows s collection id ((field, value) ∷ rest) =
    record {
      collection = collection;
      field = field;
      hash = s.hmac s.index_key (Tables.hash_input collection field value);
      object_id = id;
    }
    ∷ index_rows s collection id rest

abbrev pub object_row : Text → Text → Sealed → Text → ObjectRow
object_row collection id sealed subject = record {
  id = id;
  collection = collection;
  key_id = sealed.key_id;
  wrapped_dek = some sealed.wrapped_dek;
  ciphertext = sealed.ciphertext;
  subject_id = nullif_empty subject;
  deleted = false;
}

-- What storing one item did: a row under a fresh id, its index rows and its audit row, at the end
-- of their tables.
pub record Put (s : Store) (actor collection : Text) (d : PutDraw) (it : Item) (db last : Db)
    (id : Text) : Type 0 where
  pub sealed : Sealed
  pub named : id ≡ new_id d.id_bytes
  pub made : seal s.aead s.env d.draw it.plaintext (aad collection id) ≡ ok sealed
  pub fresh : any (has_id id) db.objects ≡ false
  pub after : last ≡ record {
    objects = db.objects ++ object_row collection id sealed it.subject ∷ [];
    blind_index = db.blind_index ++ index_rows s collection id it.indexed;
    keys = db.keys;
    audit_log = db.audit_log ++ audit_row (create_entry actor collection id) ∷ [];
  }

module _ (s : Store) where
  pub insert_indexed_effect :
      (collection id : Text) (indexed : Dict Text) (db last : Db) (u : Unit {0})
      → insert_indexed s collection id indexed db ≡ ok (u, last)
      → last ≡ record db { blind_index = db.blind_index ++ index_rows s collection id indexed }
  unfolding insert_indexed
  insert_indexed_effect collection id [] db last u h =
      let same : db ≡ last = cc in rw (append-nil db.blind_index) (sym same)
  insert_indexed_effect collection id ((field, value) ∷ rest) db last u h =
      let row : IndexRow = record {
        collection = collection;
        field = field;
        hash = s.hmac s.index_key (Tables.hash_input collection field value);
        object_id = id;
      } in
      let (_, mid, first, later) =
        bind-eq-ok (tx_insert_index s row) (λ _. insert_indexed s collection id rest) db {b = u}
          {last = last} h in
      let here = insert_index_effect s row db mid tt first in
      let there = insert_indexed_effect collection id rest mid last u later in
      let joined = append_assoc db.blind_index (row ∷ []) (index_rows s collection id rest) in
      ground (arith, here, there, joined)

  pub put_one_effect :
      (actor collection : Text) (d : PutDraw) (it : Item) (db last : Db) (id : Text)
      → put_one s actor collection d it db ≡ ok (id, last)
      → Put s actor collection d it db last id
  unfolding put_one
  put_one_effect actor collection d it db last id h =
      let new = new_id d.id_bytes in
      elim (Result-cases (seal s.aead s.env d.draw it.plaintext (aad collection new))) [
        | inl (sealed, made) ↦
            let row = object_row collection new sealed it.subject in
            elim (Result-cases (tx_insert_object s row db)) [
              | inl ((_, one), first) ↦
                  elim (Result-cases (insert_indexed s collection new it.indexed one)) [
                    | inl ((_, two), second) ↦
                        elim (Result-cases (tx_audit s (create_entry actor collection new) two)) [
                          | inl ((_, three), third) ↦
                              let same : new ≡ id = ground (arith, made, first, second, third) in
                              let end : three ≡ last = ground (arith, made, first, second, third) in
                              let (fresh, at_one) = insert_object_effect s row db one tt first in
                              let at_two =
                                insert_indexed_effect collection new it.indexed one two tt second in
                              let at_three =
                                audit_effect s (create_entry actor collection new) two three tt
                                  third in
                              subst (Put s actor collection d it db last) same (record {
                                sealed = sealed;
                                named = refl;
                                made = made;
                                fresh = fresh;
                                after = ground (arith, end, at_one, at_two, at_three);
                              })
                          | inr (e, failed) ↦ ground (arith, made, first, second, failed)
                        ]
                    | inr (e, failed) ↦ ground (arith, made, first, failed)
                  ]
              | inr (e, failed) ↦ ground (arith, made, failed)
            ]
        | inr (e, failed) ↦ ground (arith, failed)
      ]

  -- A transaction that returned a value ran to its end and committed.
  pub transact-eq-ok :
      {A : Type 0} (m : Tx (A × List AuditEntry)) (w w' : World) (a : A)
      → transact s m w ≡ (ok a, w')
      → (entries : List AuditEntry) × (db : Db) × (m w.db ≡ ok ((a, entries), db))
        × (w' ≡ emit s entries (record w { db = db }))
  unfolding transact
  transact-eq-ok m w w' a h = elim (Result-cases (m w.db)) [
    | inl (((b, entries), db), ran) ↦
        let same : b ≡ a = ground (arith, ran) in
        (entries, db, rw (← same) ran, ground (arith, ran))
    | inr (e, failed) ↦ ground (arith, failed)
  ]
