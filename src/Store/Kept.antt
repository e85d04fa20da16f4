-- ===== src/Store/Kept.antt =====
-- What every writing call keeps.
use sealbox.Base.{
  ℕ, suc, ◌≡◌, ap, ◌∙◌, sym, List, [], ◌∷◌, ◌++◌, map, Text, Result, ok, err, Bool, false, ◌&&◌,
  any, arith, Bool-cases, Result-cases, inl, inr,
}
use mathlib.Core.Path.{subst}
use sealbox.Store.Tables.{
  ObjectRow, IndexRow, AuditEntry, audit_row, Db, World, Ref, Item, Store, StoreError, emit,
  insert_audit,
}
use sealbox.Store.Tx.{Tx, transact}
use sealbox.Store.Write.{PutDraw, put_one, put_loop, put_many, audit_many}
use sealbox.Store.Read.{is_about}
use sealbox.Store.Shred.{is_target, delete_tx, delete, delete_subject_tx, delete_subject}
use sealbox.Store.Effect.{Put, put_one_effect, transact-eq-ok}
use sealbox.Store.PutAll.{emit-db, transact-err}
use sealbox.Store.Deletes.{erased, delete_effect, delete_subject_effect}
use sealbox.Store.Sound.{is_covered, delete_covers, delete_subject_covers}

-- What a committed `AuditMany` did to the tables.
abbrev pub audited : List AuditEntry → Db → Db
audited entries db = record db { audit_log = db.audit_log ++ map audit_row entries }

-- A property of the tables that each writing transaction keeps.
pub record IsKeptByWrites (s : Store) (P : Db → Type 0) : Type 0 where
  pub put :
      (actor c : Text) (d : PutDraw) (it : Item) (db last : Db) (i : Text)
      → Put s actor c d it db last i
      → P db
      → P last
  pub erase :
      (p : ObjectRow → Bool) (actor : Text) (refs : List Ref) (db : Db)
      → ((x : IndexRow)
          → is_covered refs x ≡ false
          → any (λ r. p r && is_target x.collection x.object_id r) db.objects ≡ false)
      → P db
      → P (erased p actor refs db)
  pub audit : (entries : List AuditEntry) (db : Db) → P db → P (audited entries db)

module _ (s : Store) (P : Db → Type 0) (kept : IsKeptByWrites s P) where
  transact_keeps :
      {A : Type 0} (m : Tx (A × List AuditEntry)) (w w' : World) (r : Result StoreError A)
      → ((a : A) (entries : List AuditEntry) (db : Db) → m w.db ≡ ok ((a, entries), db) → P db)
      → transact s m w ≡ (r, w')
      → P w.db
      → P w'.db
  transact_keeps m w w' (ok a) f h held =
      let (entries, db, ran, after) = transact-eq-ok s m w w' a h in
      let at = ap (λ (x : World). x.db) after ∙ emit-db s entries (record w { db = db }) in
      subst P (sym at) (f a entries db ran)
  transact_keeps m w w' (err e) f h held = elim (transact-err s m w w' e h) [
    | inl same ↦ subst (λ (x : World). P x.db) (sym same) held
    | inr (a, entries, ran, _) ↦ f a entries w'.db ran
  ]

  put_loop_keeps :
      (actor c : Text) (tape : ℕ → PutDraw) (n : ℕ) (items : List Item) (db last : Db)
      (out : List Text × List AuditEntry)
      → put_loop s actor c tape n items db ≡ ok (out, last)
      → P db
      → P last
  unfolding put_loop
  put_loop_keeps actor c tape n [] db last out h held =
      let same : db ≡ last = cc (h) in subst P same held
  put_loop_keeps actor c tape n (it ∷ items) db last out h held =
      elim (Result-cases (put_one s actor c (tape n) it db)) [
        | inl ((id, mid), first) ↦ elim (Result-cases (put_loop s actor c tape (suc n) items mid)) [
          | inl ((out', last'), later) ↦
              let same : last' ≡ last = ground (arith, first, later) in
              let one =
                kept.put actor c (tape n) it db mid id
                  (put_one_effect s actor c (tape n) it db mid id first) held in
              subst P same (put_loop_keeps actor c tape (suc n) items mid last' out' later one)
          | inr (e, failed) ↦ ground (arith, first, failed)
        ]
        | inr (e, failed) ↦ ground (arith, failed)
      ]

  pub audit_many_keeps :
      (entries : List AuditEntry) (w w' : World) (r : Result StoreError (Unit {0}))
      → audit_many s entries w ≡ (r, w')
      → P w.db
      → P w'.db
  unfolding audit_many
  audit_many_keeps [] w w' r h held =
      let same : w ≡ w' = cc (h) in subst (λ (x : World). P x.db) same held
  audit_many_keeps (e ∷ rest) w w' r h held =
      let entries = e ∷ rest in
      elim (Bool-cases (any (λ x. s.fails (insert_audit (audit_row x))) entries)) [
        | inl refused ↦
            let same : w ≡ w' = ground (arith, refused) in subst (λ (x : World). P x.db) same held
        | inr served ↦
            let same : emit s entries (record w { db = audited entries w.db }) ≡ w' =
              ground (arith, served) in
            let at =
              sym (emit-db s entries (record w { db = audited entries w.db }))
              ∙ ap (λ (x : World). x.db) same in
            subst P at (kept.audit entries w.db held)
      ]

  pub put_many_keeps :
      (actor c : Text) (tape : ℕ → PutDraw) (items : List Item) (w w' : World)
      (r : Result StoreError (List Text))
      → put_many s actor c tape items w ≡ (r, w')
      → P w.db
      → P w'.db
  unfolding put_many
  put_many_keeps actor c tape items w w' r h held =
      transact_keeps (put_loop s actor c tape 0 items) w w' r
        (λ ids entries db ran. put_loop_keeps actor c tape 0 items w.db db (ids, entries) ran held)
        h held

  pub delete_keeps :
      (actor c id : Text) (w w' : World) (r : Result StoreError (Unit {0}))
      → delete s actor c id w ≡ (r, w')
      → P w.db
      → P w'.db
  unfolding delete
  delete_keeps actor c id w w' r h held =
      let refs : List Ref = record { collection = c; id = id } ∷ [] in
      let whole =
        kept.erase (is_target c id) actor refs w.db (delete_covers c id w.db.objects) held in
      transact_keeps (delete_tx s actor c id) w w' r
        (λ u entries db ran.
          let (_, did) = delete_effect s actor c id w.db db entries u ran in
          subst P (sym did) whole)
        h held

  pub delete_subject_keeps :
      (actor subject : Text) (w w' : World) (r : Result StoreError (List Ref))
      → delete_subject s actor subject w ≡ (r, w')
      → P w.db
      → P w'.db
  unfolding delete_subject
  delete_subject_keeps actor subject w w' r h held =
      transact_keeps (delete_subject_tx s actor subject) w w' r
        (λ refs entries db ran.
          let (listed, did) = delete_subject_effect s actor subject w.db db refs entries ran in
          let covers = λ (x : IndexRow) (missed : is_covered refs x ≡ false).
            delete_subject_covers subject w.db.objects x
              (ap (λ (l : List Ref). is_covered l x) (sym listed) ∙ missed) in
          subst P (sym did) (kept.erase (is_about subject) actor refs w.db covers held))
        h held
