-- ===== src/Api/Erase.antt =====
-- Deletes through the API, on a store whose database serves every statement.
use sealbox.Base.{
  keep, map, ◌++◌, eq_refl, ℕ, ◌≡◌, refl, ap, ◌∙◌, true, false, not, Option, none, some, List, [],
  ◌∷◌, Text, codes, ok, any, arith,
}
use sealbox.Auth.{Client, has_role, authenticate}
use sealbox.Envelope.{Bytes}
use sealbox.Store.Tables.{Db, World, Store, Statement, begin, commit, audit_row, AuditEntry, Ref}
use sealbox.Store.Tx.{of_object, tx_delete_index, tx_audit, transact}
use sealbox.Store.View.{view}
use sealbox.Store.Deletes.{delete-view, delete_absent, delete_subject-view}
use sealbox.Store.Write.{PutDraw}
use sealbox.Store.Read.{is_about, ref_of}
use sealbox.Store.Shred.{
  is_target, shred_where, tx_shred, tx_shred_subject, delete_tx, delete_entry, erase_loop,
  delete_subject_tx, delete, delete_subject,
}
use sealbox.Api.Names.{is_id, is_subject}
use sealbox.Api.Action.{
  Server, State, nothing, erased, answer, write_error, object_not_found, require_role,
}
use sealbox.Api.Handlers
use sealbox.Api.Serve.{Route, serve}
use sealbox.Api.Backed.{on_store}

-- the database refuses no statement
abbrev pub Serves : Store → Type 0
Serves s = (st : Statement) → s.fails st ≡ false

module _ (s : Store) (serves : Serves s) where
  shred_step :
      (collection id : Text) (db : Db)
      → tx_shred s collection id db
        ≡ ok (
          any (is_target collection id) db.objects,
          record db { objects = shred_where (is_target collection id) db.objects },
        )
  unfolding tx_shred
  shred_step collection id db = ground (arith, serves (Statement.shred id))

  shred_subject_step :
      (subject : Text) (db : Db)
      → tx_shred_subject s subject db
        ≡ ok (
          map ref_of (keep (is_about subject) db.objects),
          record db { objects = shred_where (is_about subject) db.objects },
        )
  unfolding tx_shred_subject
  shred_subject_step subject db = ground (arith, serves (Statement.shred_subject subject))

  delete_index_step :
      (collection id : Text) (db : Db)
      → tx_delete_index s collection id db
        ≡ ok (
          tt,
          record db { blind_index = keep (λ r. not (of_object collection id r)) db.blind_index },
        )
  unfolding tx_delete_index
  delete_index_step collection id db = ground (arith, serves (Statement.delete_index id))

  audit_step :
      (e : AuditEntry) (db : Db)
      → tx_audit s e db ≡ ok (tt, record db { audit_log = db.audit_log ++ audit_row e ∷ [] })
  unfolding tx_audit
  audit_step e db = ground (arith, serves (Statement.insert_audit (audit_row e)))

  delete_found :
      (actor collection id : Text) (w : World)
      → any (is_target collection id) w.db.objects ≡ true
      → (delete s actor collection id w).0 ≡ ok tt
  unfolding delete transact delete_tx
  delete_found actor collection id w there =
      let one : Db = record w.db { objects = shred_where (is_target collection id) w.db.objects } in
      let two : Db = record one {
        blind_index = keep (λ r. not (of_object collection id r)) one.blind_index;
      } in
      ground (
        arith,
        there,
        serves begin,
        serves commit,
        shred_step collection id w.db,
        delete_index_step collection id one,
        audit_step (delete_entry actor collection id) two,
      )

  erase_loop_serves :
      (actor : Text) (refs : List Ref) (db : Db)
      → (entries : List AuditEntry) × (db' : Db) × (erase_loop s actor refs db ≡ ok (entries, db'))
  unfolding erase_loop
  erase_loop_serves actor [] db = ([], db, refl)
  erase_loop_serves actor (r ∷ refs) db =
      let entry = delete_entry actor r.collection r.id in
      let one : Db = record db {
        blind_index = keep (λ x. not (of_object r.collection r.id x)) db.blind_index;
      } in
      let two : Db = record one { audit_log = one.audit_log ++ audit_row entry ∷ [] } in
      let (entries, last, ran) = erase_loop_serves actor refs two in
      (
        entry ∷ entries,
        last,
        ground (arith, ran, delete_index_step r.collection r.id db, audit_step entry one),
      )

  delete_subject_serves :
      (actor subject : Text) (w : World)
      → (delete_subject s actor subject w).0
        ≡ ok (map ref_of (keep (is_about subject) w.db.objects))
  unfolding delete_subject transact delete_subject_tx
  delete_subject_serves actor subject w =
      let held = map ref_of (keep (is_about subject) w.db.objects) in
      let (entries, last, ran) =
        erase_loop_serves actor held
          (record w.db { objects = shred_where (is_about subject) w.db.objects }) in
      ground (arith, ran, serves begin, serves commit, shred_subject_step subject w.db)

module _ {W L Rate : Type 0} where
  granted :
      (c : Client Rate) (role : Text) (s : State W L)
      → has_role c.roles role ≡ true
      → require_role c role s ≡ (ok tt, s)
  unfolding require_role
  granted c role s may = ground (arith, may)

module _ {L Rate : Type 0} (srv : Server World L) (st : Store) (tape : ℕ → PutDraw)
    (serves : Serves st) where
  -- A delete by a client with the role, of a well-formed id, always has its answer when the database
  -- serves every statement: 204 if a live object has the id, and then the abstract store
  -- names nothing by it; 404 if none has, and then nothing changed.
  pub delete_answers :
      (sha256 : Text → List ℕ) (clients : List (Client Rate)) (header : Text) (body : Option Bytes)
      (c : Client Rate) (collection id : Text) (s : State World L)
      → authenticate sha256 clients header ≡ some c
      → has_role c.roles (codes "delete") ≡ true
      → is_id id ≡ true
      → let out =
          serve (on_store srv st tape) sha256 clients header body (Route.delete collection id) s in
        (any (is_target collection id) s.vault.db.objects ≡ true
          → (out.0 ≡ answer 204 nothing) × (view st out.1.vault.db collection id ≡ none))
        × (any (is_target collection id) s.vault.db.objects ≡ false
            → out ≡ (write_error 404 object_not_found, s))
  unfolding serve Handlers.delete_object
  delete_answers sha256 clients header body c collection id s known may named = (
    λ there.
        let found = delete_found st serves c.name collection id s.vault there in
        let w' = (delete st c.name collection id s.vault).1 in
        let (_, shows, _, _) =
          delete-view st c.name collection id s.vault w' (ground (arith, found)) in
        let at : (serve (on_store srv st tape) sha256 clients header body
              (Route.delete collection id) s).1.vault
            ≡ w' =
          ground (arith, known, granted c (codes "delete") s may, named, found) in
        let none_left : view st w'.db collection id ≡ none =
          shows collection id ∙ ground (arith, eq_refl id, eq_refl collection) in
        (
          ground (arith, known, granted c (codes "delete") s may, named, found),
          ap (λ (w : World). view st w.db collection id) at ∙ none_left,
        ),
    λ gone.
        let missing =
          delete_absent st c.name collection id s.vault (serves begin) (serves (Statement.shred id))
            gone in
        ground (arith, known, granted c (codes "delete") s may, named, missing),
  )

  -- Erasing a subject by a client with the role, of a well-formed name, always has its answer when the
  -- database serves every statement: 200, with the collection and the id of each live object about
  -- the subject, in order. No live object about the subject is left.
  pub erase_answers :
      (sha256 : Text → List ℕ) (clients : List (Client Rate)) (header : Text) (body : Option Bytes)
      (c : Client Rate) (name : Text) (s : State World L)
      → authenticate sha256 clients header ≡ some c
      → has_role c.roles (codes "delete") ≡ true
      → is_subject name ≡ true
      → let out =
          serve (on_store srv st tape) sha256 clients header body (Route.erase_subject name) s in
        (out.0 ≡ answer 200 (erased (map ref_of (keep (is_about name) s.vault.db.objects))))
        × (keep (is_about name) out.1.vault.db.objects ≡ [])
  unfolding serve Handlers.erase_subject
  erase_answers sha256 clients header body c name s known may named =
      let found = delete_subject_serves st serves c.name name s.vault in
      let held = map ref_of (keep (is_about name) s.vault.db.objects) in
      let w' = (delete_subject st c.name name s.vault).1 in
      let (_, gone, _) =
        delete_subject-view st c.name name s.vault w' held (ground (arith, found)) in
      let at : (serve (on_store srv st tape) sha256 clients header body (Route.erase_subject name)
            s).1.vault
          ≡ w' =
        ground (arith, known, granted c (codes "delete") s may, named, found) in
      (
        ground (arith, known, granted c (codes "delete") s may, named, found),
        ap (λ (w : World). keep (is_about name) w.db.objects) at ∙ gone,
      )
