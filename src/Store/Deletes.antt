-- ===== src/Store/Deletes.antt =====
-- `Delete` and `DeleteSubject`: what they make of the tables and of the abstract store.
use sealbox.Base.{
  ◌≡◌, refl, ap, ◌∙◌, sym, List, [], ◌∷◌, ◌++◌, map, Text, ◌==◌, eq_iff, none, some, ok, err, Bool,
  true, false, ◌&&◌, not, any, keep, if◌then◌else◌, arith, Bool-cases, Result-cases, inl, inr,
  append_assoc, append-nil,
}
use sealbox.Store.Tables.{
  ObjectRow, IndexRow, AuditEntry, audit_row, Db, World, Ref, Store, not_found, begin, shred,
}
use sealbox.Store.Tx.{of_object, tx_delete_index, tx_audit, transact}
use sealbox.Store.Read.{is_about, ref_of}
use sealbox.Store.Shred.{
  shred_where, is_target, delete_entry, tx_shred, delete_tx, delete, tx_shred_subject, erase_loop,
  delete_subject_tx, delete_subject,
}
use sealbox.Store.Effect.{delete_index_effect, audit_effect, transact-eq-ok}
use sealbox.Store.View.{find, view, view-find, find-shred_where_other, find-shred_where_hit}
use sealbox.Store.PutAll.{emit-db}

-- The tables after the keys of some rows were destroyed, their index rows dropped and audited.
abbrev pub kept_index : List Ref → List IndexRow → List IndexRow
kept_index [] rows = rows
kept_index (r ∷ refs) rows = kept_index refs (keep (λ x. not (of_object r.collection r.id x)) rows)

abbrev pub erased_entries : Text → List Ref → List AuditEntry
erased_entries actor [] = []
erased_entries actor (r ∷ refs) = delete_entry actor r.collection r.id ∷ erased_entries actor refs

abbrev pub erased : (ObjectRow → Bool) → Text → List Ref → Db → Db
erased p actor refs db = record {
  objects = shred_where p db.objects;
  blind_index = kept_index refs db.blind_index;
  keys = db.keys;
  audit_log = db.audit_log ++ map audit_row (erased_entries actor refs);
}

target_apart :
    (c i collection id : Text) (r : ObjectRow)
    → (i == id && c == collection) ≡ false
    → is_target c i r ≡ true
    → is_target collection id r ≡ false
target_apart c i collection id r apart same =
    let named : r.id ≡ i = ground (arith, eq_iff r.id i) in
    let kept : r.collection ≡ c = ground (arith, eq_iff r.collection c) in
    ground (arith, named, kept)

find-shred_where_kept :
    (p : ObjectRow → Bool) (c i : Text) (rows : List ObjectRow) (x : ObjectRow)
    → find (is_target c i) rows ≡ some x
    → p x ≡ false
    → find (is_target c i) (shred_where p rows) ≡ some x
unfolding shred_where
find-shred_where_kept p c i [] x found kept = cc
find-shred_where_kept p c i (r ∷ rows) x found kept = elim (Bool-cases (is_target c i r)) [
  | inl hit ↦
      let same : r ≡ x = ground (arith, hit) in
      let kept' : p r ≡ false = rw same kept in ground (arith, hit, kept', same)
  | inr miss ↦ let rest = find-shred_where_kept p c i rows x in ground (arith, miss, rest)
]

keep-shred_where_about :
    (subject : Text) (rows : List ObjectRow)
    → keep (is_about subject) (shred_where (is_about subject) rows) ≡ []
unfolding shred_where
keep-shred_where_about subject [] = refl
keep-shred_where_about subject (r ∷ rows) = ground (arith, keep-shred_where_about subject rows)

module _ (s : Store) where
  shred_effect :
      (collection id : Text) (db last : Db) (affected : Bool)
      → tx_shred s collection id db ≡ ok (affected, last)
      → (affected ≡ any (is_target collection id) db.objects)
        × (last ≡ record db { objects = shred_where (is_target collection id) db.objects })
  unfolding tx_shred
  shred_effect collection id db last affected h = (ground arith, ground arith)

  shred_absent :
      (collection id : Text) (db : Db)
      → s.fails (shred id) ≡ false
      → any (is_target collection id) db.objects ≡ false
      → tx_shred s collection id db
        ≡ ok (false, record db { objects = shred_where (is_target collection id) db.objects })
  unfolding tx_shred
  shred_absent collection id db served missing = ground (arith, served, missing)

  shred_subject_effect :
      (subject : Text) (db last : Db) (refs : List Ref)
      → tx_shred_subject s subject db ≡ ok (refs, last)
      → (refs ≡ map ref_of (keep (is_about subject) db.objects))
        × (last ≡ record db { objects = shred_where (is_about subject) db.objects })
  unfolding tx_shred_subject
  shred_subject_effect subject db last refs h = (ground arith, ground arith)

  pub delete_effect :
      (actor collection id : Text) (db last : Db) (entries : List AuditEntry) (u : Unit {0})
      → delete_tx s actor collection id db ≡ ok ((u, entries), last)
      → (any (is_target collection id) db.objects ≡ true)
        × (last
            ≡ erased
                (is_target collection id)
                actor
                (record { collection = collection; id = id } ∷ [])
                db)
  unfolding delete_tx
  delete_effect actor collection id db last entries u h =
      elim (Result-cases (tx_shred s collection id db)) [
        | inl ((true, one), first) ↦ elim (Result-cases (tx_delete_index s collection id one)) [
          | inl ((_, two), second) ↦
              elim (Result-cases (tx_audit s (delete_entry actor collection id) two)) [
                | inl ((_, three), third) ↦
                    let end : three ≡ last = ground (arith, first, second, third) in
                    let (hit, at_one) = shred_effect collection id db one true first in
                    let at_two = delete_index_effect s collection id one two tt second in
                    let at_three =
                      audit_effect s (delete_entry actor collection id) two three tt third in
                    (sym hit, ground (arith, end, at_one, at_two, at_three))
                | inr (e, failed) ↦ ground (arith, first, second, failed)
              ]
          | inr (e, failed) ↦ ground (arith, first, failed)
        ]
        | inl ((false, one), first) ↦ ground (arith, first)
        | inr (e, failed) ↦ ground (arith, failed)
      ]

  erase_loop_effect :
      (actor : Text) (refs : List Ref) (db last : Db) (entries : List AuditEntry)
      → erase_loop s actor refs db ≡ ok (entries, last)
      → last ≡ record db {
        blind_index = kept_index refs db.blind_index;
        audit_log = db.audit_log ++ map audit_row (erased_entries actor refs);
      }
  unfolding erase_loop
  erase_loop_effect actor [] db last entries h =
      let same : db ≡ last = cc (h) in rw (append-nil db.audit_log) (sym same)
  erase_loop_effect actor (r ∷ refs) db last entries h =
      elim (Result-cases (tx_delete_index s r.collection r.id db)) [
        | inl ((_, one), first) ↦
            elim (Result-cases (tx_audit s (delete_entry actor r.collection r.id) one)) [
              | inl ((_, two), second) ↦ elim (Result-cases (erase_loop s actor refs two)) [
                | inl ((more, three), third) ↦
                    let end : three ≡ last = ground (arith, first, second, third) in
                    let at_one = delete_index_effect s r.collection r.id db one tt first in
                    let at_two =
                      audit_effect s (delete_entry actor r.collection r.id) one two tt second in
                    let at_three = erase_loop_effect actor refs two three more third in
                    let joined =
                      append_assoc db.audit_log
                        (audit_row (delete_entry actor r.collection r.id) ∷ [])
                        (map audit_row (erased_entries actor refs)) in
                    ground (arith, end, at_one, at_two, at_three, joined)
                | inr (e, failed) ↦ ground (arith, first, second, failed)
              ]
              | inr (e, failed) ↦ ground (arith, first, failed)
            ]
        | inr (e, failed) ↦ ground (arith, failed)
      ]

  pub delete_subject_effect :
      (actor subject : Text) (db last : Db) (refs : List Ref) (entries : List AuditEntry)
      → delete_subject_tx s actor subject db ≡ ok ((refs, entries), last)
      → (refs ≡ map ref_of (keep (is_about subject) db.objects))
        × (last ≡ erased (is_about subject) actor refs db)
  unfolding delete_subject_tx
  delete_subject_effect actor subject db last refs entries h =
      elim (Result-cases (tx_shred_subject s subject db)) [
        | inl ((about, one), first) ↦ elim (Result-cases (erase_loop s actor about one)) [
          | inl ((more, two), second) ↦
              let listed : about ≡ refs = ground (arith, first, second) in
              let end : two ≡ last = ground (arith, first, second) in
              let (all, at_one) = shred_subject_effect subject db one about first in
              let at_two = erase_loop_effect actor about one two more second in
              (ground (arith, listed, all), ground (arith, end, at_one, at_two, listed))
          | inr (e, failed) ↦ ground (arith, first, failed)
        ]
        | inr (e, failed) ↦ ground (arith, failed)
      ]

  -- What a pair names after the keys of the rows of one pair are gone.
  delete_at :
      (actor collection id c i : Text) (db last : Db)
      → last.objects ≡ shred_where (is_target collection id) db.objects
      → view s last c i ≡ (if i == id && c == collection then none else view s db c i)
  delete_at actor collection id c i db last objects =
      let hit = is_target collection id in
      elim (Bool-cases (i == id && c == collection)) [
        | inl same ↦
            let named : i ≡ id = ground (arith, eq_iff i id) in
            let kept : c ≡ collection = ground (arith, eq_iff c collection) in
            rw same (
              rw (named, kept)
                (view-find s last collection id none
                  (rw objects (find-shred_where_hit hit collection id db.objects (λ r h. h)))))
        | inr apart ↦ rw apart (
            view-find s last c i (find (is_target c i) db.objects) (
              rw objects (
                find-shred_where_other hit c i db.objects
                  (λ r h. target_apart c i collection id r apart h)))
            ∙ sym (view-find s db c i (find (is_target c i) db.objects) refl))
      ]

  -- A successful `Delete` found a live row under the collection and the id. Afterwards the pair
  -- names nothing, every other pair names what it named, no index row of the object is left and the
  -- other index rows stay, and the audit log has one more row, the "delete" of this object.
  pub delete-view :
      (actor collection id : Text) (w w' : World)
      → delete s actor collection id w ≡ (ok tt, w')
      → (any (is_target collection id) w.db.objects ≡ true)
        × ((c i : Text)
            → view s w'.db c i ≡ (if i == id && c == collection then none else view s w.db c i))
        × (w'.db.blind_index ≡ keep (λ r. not (of_object collection id r)) w.db.blind_index)
        × (w'.db.audit_log ≡ w.db.audit_log ++ audit_row (delete_entry actor collection id) ∷ [])
  unfolding delete
  delete-view actor collection id w w' h =
      let (entries, db, ran, after) =
        transact-eq-ok s (delete_tx s actor collection id) w w' tt h in
      let (there, did) = delete_effect actor collection id w.db db entries tt ran in
      let at = ap (λ (x : World). x.db) after ∙ emit-db s entries (record w { db = db }) ∙ did in
      let hit = is_target collection id in
      let objects : w'.db.objects ≡ shred_where hit w.db.objects = ap (λ (d : Db). d.objects) at in
      (
        there,
        λ c i. delete_at actor collection id c i w.db w'.db objects,
        ap (λ (d : Db). d.blind_index) at,
        ap (λ (d : Db). d.audit_log) at,
      )

  -- `Delete` of a pair that names no live row is `not_found` and leaves the tables and the audit logger as they
  -- were, when the database serves the transaction.
  pub delete_absent :
      (actor collection id : Text) (w : World)
      → s.fails begin ≡ false
      → s.fails (shred id) ≡ false
      → any (is_target collection id) w.db.objects ≡ false
      → delete s actor collection id w ≡ (err not_found, w)
  unfolding delete transact delete_tx
  delete_absent actor collection id w begun served missing =
      let ran = shred_absent collection id w.db served missing in ground (arith, begun, ran)

  -- A successful `DeleteSubject` returns the rows that were live and about the subject, in order.
  -- Afterwards no live row is about the subject, and the audit log grew by one "delete" row for each erased object.
  pub delete_subject-view :
      (actor subject : Text) (w w' : World) (refs : List Ref)
      → delete_subject s actor subject w ≡ (ok refs, w')
      → (refs ≡ map ref_of (keep (is_about subject) w.db.objects))
        × (keep (is_about subject) w'.db.objects ≡ [])
        × (w'.db.audit_log ≡ w.db.audit_log ++ map audit_row (erased_entries actor refs))
  unfolding delete_subject
  delete_subject-view actor subject w w' refs h =
      let (entries, db, ran, after) =
        transact-eq-ok s (delete_subject_tx s actor subject) w w' refs h in
      let (listed, did) = delete_subject_effect actor subject w.db db refs entries ran in
      let at = ap (λ (x : World). x.db) after ∙ emit-db s entries (record w { db = db }) ∙ did in
      let objects : w'.db.objects ≡ shred_where (is_about subject) w.db.objects =
        ap (λ (d : Db). d.objects) at in
      (
        listed,
        rw objects (keep-shred_where_about subject w.db.objects),
        ap (λ (d : Db). d.audit_log) at,
      )

  -- A successful `DeleteSubject` does not change what a pair names if the pair's live row is not
  -- about the subject.
  pub delete_subject_others :
      (actor subject c i : Text) (w w' : World) (refs : List Ref) (r : ObjectRow)
      → delete_subject s actor subject w ≡ (ok refs, w')
      → find (is_target c i) w.db.objects ≡ some r
      → is_about subject r ≡ false
      → view s w'.db c i ≡ view s w.db c i
  unfolding delete_subject
  delete_subject_others actor subject c i w w' refs r h found other =
      let (entries, db, ran, after) =
        transact-eq-ok s (delete_subject_tx s actor subject) w w' refs h in
      let (listed, did) = delete_subject_effect actor subject w.db db refs entries ran in
      let at = ap (λ (x : World). x.db) after ∙ emit-db s entries (record w { db = db }) ∙ did in
      let objects : w'.db.objects ≡ shred_where (is_about subject) w.db.objects =
        ap (λ (d : Db). d.objects) at in
      view-find s w'.db c i (some r)
        (rw objects (find-shred_where_kept (is_about subject) c i w.db.objects r found other))
      ∙ sym (view-find s w.db c i (some r) found)
