-- ===== src/Store/Upkeep.antt =====
-- What re-wrapping and re-indexing one row does to the tables.
use mathlib.Core.Path.{subst}
use sealbox.Base.{
  ◌≡◌, refl, ap, ◌∙◌, sym, List, [], ◌∷◌, ◌++◌, Text, Dict, Result, ◌⊎◌, ok, err, Bool, true, false,
  ◌&&◌, not, any, keep, if◌then◌else◌, arith, Bool-cases, Result-cases, inl, inr,
}
use sealbox.Envelope.{Bytes, Sealed, rewrap}
use sealbox.Store.Tables.{
  ObjectRow, AuditEntry, audit_row, Db, World, Store, aad, begin, StoreError, update_key,
}
use sealbox.Store.Tx.{has_id, of_object, tx_delete_index, tx_audit, transact}
use sealbox.Store.Write.{insert_indexed}
use sealbox.Store.Read.{or_nil}
use sealbox.Store.Effect.{
  delete_index_effect, insert_indexed_effect, audit_effect, index_rows, transact-eq-ok,
}
use sealbox.Store.PutAll.{emit-db, transact-err}
use sealbox.Store.Maintain.{
  Outcome, is_bad_row, is_unmoved, rekey_where, rotate_row, tx_lock, rewrite_tx, rewrite_index,
  reindex_entry,
}

keep-rekey_where :
    (id key_id : Text) (re : Sealed) (rows : List ObjectRow)
    → keep (λ r. r.deleted) (rekey_where (is_unmoved id key_id) re rows)
      ≡ keep (λ r. r.deleted) rows
unfolding rekey_where
keep-rekey_where id key_id re [] = refl
keep-rekey_where id key_id re (r ∷ rows) = elim (Bool-cases r.deleted) [
  | inl gone ↦ ground (arith, gone, keep-rekey_where id key_id re rows)
  | inr live ↦ ground (arith, live, keep-rekey_where id key_id re rows)
]

-- Only live object rows differ.
abbrev SameButLive : Db → Db → Type 0
SameButLive db last =
    (keep (λ x. x.deleted) last.objects ≡ keep (λ x. x.deleted) db.objects)
    × (last.blind_index ≡ db.blind_index)
    × (last.keys ≡ db.keys)
    × (last.audit_log ≡ db.audit_log)

-- The tables after the index rows of an object were replaced.
abbrev pub reindexed : Store → Text → Text → Text → Dict Text → Db → Db
reindexed s actor collection id values db = record {
  objects = db.objects;
  blind_index =
      keep (λ r. not (of_object collection id r)) db.blind_index
      ++ index_rows s collection id values;
  keys = db.keys;
  audit_log = db.audit_log ++ audit_row (reindex_entry actor collection id) ∷ [];
}

module _ (s : Store) where
  -- Whatever other clients did since the row was read, one step of `Rotate` changes no deleted row,
  -- so a destroyed key is never written back, and no index row, service key or audit row.
  pub rotate_row_deleted :
      (drawn : Bytes) (r : ObjectRow) (db last : Db) (o : Outcome)
      → rotate_row s drawn r db ≡ ok (o, last)
      → (keep (λ x. x.deleted) last.objects ≡ keep (λ x. x.deleted) db.objects)
        × (last.blind_index ≡ db.blind_index)
        × (last.keys ≡ db.keys)
        × (last.audit_log ≡ db.audit_log)
  unfolding rotate_row
  rotate_row_deleted drawn r db last o h =
      let row : Sealed = record {
        key_id = r.key_id;
        wrapped_dek = or_nil r.wrapped_dek;
        ciphertext = [];
      } in
      elim (Result-cases (rewrap s.env drawn row (aad r.collection r.id))) [
        | inl ((re, true), done) ↦ elim (Bool-cases (s.fails (update_key r.id))) [
          | inl refused ↦ ground (arith, done, refused)
          | inr served ↦
              let same : record db {
                objects = rekey_where (is_unmoved r.id r.key_id) re db.objects;
              }
                  ≡ last =
                ground (arith, done, served) in
              subst (SameButLive db) same
                (keep-rekey_where r.id r.key_id re db.objects, refl, refl, refl)
        ]
        | inl ((re, false), done) ↦
            let same : db ≡ last = ground (arith, done) in
            subst (SameButLive db) same (refl, refl, refl, refl)
        | inr (e, failed) ↦ elim (Bool-cases (is_bad_row e)) [
          | inl bad ↦
              let same : db ≡ last = ground (arith, failed, bad) in
              subst (SameButLive db) same (refl, refl, refl, refl)
          | inr stop ↦ ground (arith, failed, stop)
        ]
      ]

  rewrite_effect :
      (actor collection id : Text) (values : Dict Text) (db last : Db) (entries : List AuditEntry)
      (u : Unit {0})
      → rewrite_tx s actor collection id values db ≡ ok ((u, entries), last)
      → last ≡ record {
        objects = db.objects;
        blind_index =
            keep (λ r. not (of_object collection id r)) db.blind_index
            ++ index_rows s collection id values;
        keys = db.keys;
        audit_log = db.audit_log ++ audit_row (reindex_entry actor collection id) ∷ [];
      }
  unfolding rewrite_tx
  rewrite_effect actor collection id values db last entries u h =
      elim (Result-cases (tx_delete_index s collection id db)) [
        | inl ((_, one), first) ↦ elim (Result-cases (insert_indexed s collection id values one)) [
          | inl ((_, two), second) ↦
              elim (Result-cases (tx_audit s (reindex_entry actor collection id) two)) [
                | inl ((_, three), third) ↦
                    let end : three ≡ last = ground (arith, first, second, third) in
                    let at_one = delete_index_effect s collection id db one tt first in
                    let at_two = insert_indexed_effect s collection id values one two tt second in
                    let at_three =
                      audit_effect s (reindex_entry actor collection id) two three tt third in
                    ground (arith, end, at_one, at_two, at_three)
                | inr (e, failed) ↦ ground (arith, first, second, failed)
              ]
          | inr (e, failed) ↦ ground (arith, first, failed)
        ]
        | inr (e, failed) ↦ ground (arith, failed)
      ]

  lock_effect :
      (id : Text) (db last : Db) (live : Bool)
      → tx_lock s id db ≡ ok (live, last)
      → live ≡ any (λ r. has_id id r && not r.deleted) db.objects
  unfolding tx_lock
  lock_effect id db last live h = ground arith

  -- A successful `rewriteIndex` replaces the index rows of a live object by those of the values it
  -- was given, adds one "reindex" audit row and changes nothing else in the tables; for an object
  -- that was deleted in the meantime it changes nothing at all.
  pub rewrite_index_lem :
      (actor collection id : Text) (values : Dict Text) (w w' : World)
      → rewrite_index s actor collection id values w ≡ (ok tt, w')
      → w'.db ≡ (
          if any (λ r. has_id id r && not r.deleted) w.db.objects
          then record {
            objects = w.db.objects;
            blind_index =
                keep (λ r. not (of_object collection id r)) w.db.blind_index
                ++ index_rows s collection id values;
            keys = w.db.keys;
            audit_log = w.db.audit_log ++ audit_row (reindex_entry actor collection id) ∷ [];
          }
          else w.db)
  unfolding rewrite_index
  rewrite_index_lem actor collection id values w w' h = elim (Bool-cases (s.fails begin)) [
    | inl refused ↦ ground (arith, refused)
    | inr begun ↦ elim (Result-cases (tx_lock s id w.db)) [
      | inl ((true, mid), locked) ↦
          let ran : transact s (rewrite_tx s actor collection id values) w ≡ (ok tt, w') =
            ground (arith, begun, locked) in
          let (entries, db, did, after) =
            transact-eq-ok s (rewrite_tx s actor collection id values) w w' tt ran in
          let at = ap (λ (x : World). x.db) after ∙ emit-db s entries (record w { db = db }) in
          let whole = rewrite_effect actor collection id values w.db db entries tt did in
          rw (← (lock_effect id w.db mid true locked)) (at ∙ whole)
      | inl ((false, mid), locked) ↦
          let same : w ≡ w' = ground (arith, begun, locked) in
          rw (← (lock_effect id w.db mid false locked)) (ap (λ (x : World). x.db) (sym same))
      | inr (e, failed) ↦ ground (arith, begun, failed)
    ]
  ]

  -- What a failed `rewriteIndex` did: nothing, or, when its commit took effect all the same,
  -- everything but the emission.
  pub rewrite_index_failed :
      (actor collection id : Text) (values : Dict Text) (w : World) (e : StoreError)
      → (rewrite_index s actor collection id values w).0 ≡ err e
      → ((rewrite_index s actor collection id values w).1 ≡ w)
        ⊎ ((any (λ r. has_id id r && not r.deleted) w.db.objects ≡ true)
            × ((rewrite_index s actor collection id values w).1
                ≡ record w { db = reindexed s actor collection id values w.db }))
  unfolding rewrite_index
  rewrite_index_failed actor collection id values w e h = elim (Bool-cases (s.fails begin)) [
    | inl refused ↦ inl (ground (arith, refused))
    | inr begun ↦ elim (Result-cases (tx_lock s id w.db)) [
      | inl ((true, mid), locked) ↦
          let out = transact s (rewrite_tx s actor collection id values) w in
          let here : rewrite_index s actor collection id values w ≡ out =
            unfold rewrite_index in ground (arith, begun, locked) in
          let failed : out.0 ≡ err e = ground (arith, begun, locked, h) in
          let live = sym (lock_effect id w.db mid true locked) in
          elim (transact-err s (rewrite_tx s actor collection id values) w out.1 e
            (ground (arith, failed))) [
              | inl same ↦ inl (ground (arith, begun, locked, same))
              | inr (a, entries, ran, all) ↦
                  let whole =
                    rewrite_effect actor collection id values w.db out.1.db entries tt ran in
                  let at : out.1 ≡ record w { db = reindexed s actor collection id values w.db } =
                    all ∙ ap (λ (x : Db). record w { db = x }) whole in
                  inr (live, ap (λ (o : Result StoreError (Unit {0}) × World). o.1) here ∙ at)
            ]
      | inl ((false, mid), locked) ↦ inl (ground (arith, begun, locked))
      | inr (e', fault) ↦ inl (ground (arith, begun, fault))
    ]
  ]

  -- Whatever its result is, it does nothing or replaces the index rows of a live object.
  pub rewrite_index-cases :
      (actor collection id : Text) (values : Dict Text) (w : World)
      → ((rewrite_index s actor collection id values w).1.db ≡ w.db)
        ⊎ ((any (λ r. has_id id r && not r.deleted) w.db.objects ≡ true)
            × ((rewrite_index s actor collection id values w).1.db
                ≡ reindexed s actor collection id values w.db))
  rewrite_index-cases actor collection id values w =
      let after = rewrite_index s actor collection id values w in
      elim (Result-cases after.0) [
        | inl (tt, done) ↦
            let at =
              rewrite_index_lem actor collection id values w after.1 (ground (arith, done)) in
            elim (Bool-cases (any (λ r. has_id id r && not r.deleted) w.db.objects)) [
              | inl live ↦ inr (live, ground (arith, at, live))
              | inr gone ↦ inl (ground (arith, at, gone))
            ]
        | inr (e, fault) ↦ elim (rewrite_index_failed actor collection id values w e fault) [
          | inl same ↦ inl (ap (λ (x : World). x.db) same)
          | inr (live, all) ↦ inr (live, ap (λ (x : World). x.db) all)
        ]
      ]

  pub rewrite_index-objects :
      (actor collection id : Text) (values : Dict Text) (w : World)
      → (rewrite_index s actor collection id values w).1.db.objects ≡ w.db.objects
  rewrite_index-objects actor collection id values w =
      elim (rewrite_index-cases actor collection id values w) [
        | inl same ↦ ap (λ (x : Db). x.objects) same
        | inr (live, all) ↦ ap (λ (x : Db). x.objects) all
      ]
