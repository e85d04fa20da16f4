-- ===== src/Store/Forever.antt =====
-- What no run of the store undoes: the invariant, the audit log, and erasure.
use sealbox.Base.{
  ◌≡◌, refl, ap, ◌∙◌, sym, List, [], ◌∷◌, ◌++◌, map, Text, ◌==◌, eq_iff, none, ok, Bool, true,
  false, any, arith, Bool-cases, inl, inr, append_assoc, append-nil,
}
use sealbox.Envelope.{Sealed}
use sealbox.Store.Tables.{ObjectRow, AuditRow, audit_row, Db, World, Item, Store}
use sealbox.Store.Tx.{has_id}
use sealbox.Store.Write.{PutDraw, create_entry}
use sealbox.Store.Shred.{shred_where, is_target, delete_tx, delete}
use sealbox.Store.Maintain.{is_unmoved, rekey_where, reindex_entry}
use sealbox.Store.Effect.{Put, object_row, transact-eq-ok}
use sealbox.Store.View.{view, view-find, find-none_of_any, any-append_one, any_id-shred_where}
use sealbox.Store.PutAll.{emit-db}
use sealbox.Store.Deletes.{erased, erased_entries, delete_effect}
use sealbox.Store.Upkeep.{reindexed}
use sealbox.Store.Steps.{Running, Steps}
use sealbox.Store.Keeps.{IsKept, Steps-keeps}
use sealbox.Store.Kept.{audited}
use sealbox.Store.Held.{any_id-rekey_where}

-- The audit log.
module _ (s : Store) where
  -- What the log holds beyond an earlier one.
  abbrev Extends : List AuditRow → Db → List ObjectRow → Type 0
  Extends log db held = (rest : List AuditRow) × (db.audit_log ≡ log ++ rest)

  longer :
      (log more : List AuditRow) (db last : Db) (held : List ObjectRow)
      → last.audit_log ≡ db.audit_log ++ more
      → Extends log db held
      → Extends log last held
  longer log more db last held grown (rest, at) =
      (rest ++ more, ground (arith, grown, at, append_assoc log rest more))

  Extends-IsKept : (log : List AuditRow) → IsKept s (Extends log)
  Extends-IsKept log = record {
    writes = λ fails anyway held. record {
      put = λ actor c d it db last i did old.
          longer log (audit_row (create_entry actor c i) ∷ []) db last held
            (ap (λ (x : Db). x.audit_log) did.after) old;
      erase = λ p actor refs db covers old.
          longer log (map audit_row (erased_entries actor refs)) db (erased p actor refs db) held
            refl old;
      audit = λ entries db old.
          longer log (map audit_row entries) db (audited entries db) held refl old;
    };
    keys = λ keys db held old. old;
    read = λ fails anyway test last db held old. old;
    rekey = λ drawn r re db held size among did old. old;
    index = λ fails anyway actor r values db held among live old.
        longer log (audit_row (reindex_entry actor r.collection r.id) ∷ []) db
          (reindexed s actor r.collection r.id values db) held refl old;
  }

  -- The audit log only grows: after any sequence of `PutMany`, `Delete`, `DeleteSubject` and
  -- `AuditMany` calls and of steps of `Rotate` and `Reindex`, interleaved in any order, each with
  -- its own failures and whatever it returned, the old log is a prefix of the log.
  pub Steps-audit_log :
      (a b : Running)
      → Steps s a b
      → (rest : List AuditRow) × (b.world.db.audit_log ≡ a.world.db.audit_log ++ rest)
  Steps-audit_log a b steps =
      let log = a.world.db.audit_log in
      Steps-keeps s (Extends log) (Extends-IsKept log) a b steps ([], sym (append-nil log))

-- Erasure.
any_id_of_target :
    (c id : Text) (rows : List ObjectRow)
    → any (is_target c id) rows ≡ true
    → any (has_id id) rows ≡ true
any_id_of_target c id [] h = cc
any_id_of_target c id (r ∷ rows) h = ground (arith, any_id_of_target c id rows)

any_target-shred_where :
    (p : ObjectRow → Bool) (c id : Text) (rows : List ObjectRow)
    → any (is_target c id) rows ≡ false
    → any (is_target c id) (shred_where p rows) ≡ false
unfolding shred_where
any_target-shred_where p c id [] h = refl
any_target-shred_where p c id (r ∷ rows) h = ground (arith, any_target-shred_where p c id rows)

any_target-shredded :
    (c id : Text) (rows : List ObjectRow)
    → any (is_target c id) (shred_where (is_target c id) rows) ≡ false
unfolding shred_where
any_target-shredded c id [] = refl
any_target-shredded c id (r ∷ rows) = ground (arith, any_target-shredded c id rows)

any_target-rekey_where :
    (p : ObjectRow → Bool) (re : Sealed) (c id : Text) (rows : List ObjectRow)
    → any (is_target c id) (rekey_where p re rows) ≡ any (is_target c id) rows
unfolding rekey_where
any_target-rekey_where p re c id [] = refl
any_target-rekey_where p re c id (r ∷ rows) = ground (arith, any_target-rekey_where p re c id rows)

module _ (s : Store) (c id : Text) where
  -- The id is in use, and the pair names no live row.
  record IsGone (db : Db) (held : List ObjectRow) : Type 0 where
    used : any (has_id id) db.objects ≡ true
    dead : any (is_target c id) db.objects ≡ false

  Put-IsGone :
      (st : Store) (actor collection : Text) (d : PutDraw) (it : Item) (db last : Db) (i : Text)
      (held : List ObjectRow)
      → Put st actor collection d it db last i
      → IsGone db held
      → IsGone last held
  Put-IsGone st actor collection d it db last i held put old =
      let row = object_row collection i put.sealed it.subject in
      let objects : last.objects ≡ db.objects ++ row ∷ [] = ap (λ (x : Db). x.objects) put.after in
      let other : (i == id) ≡ false = elim (Bool-cases (i == id)) [
        | inl same ↦
            let named = (eq_iff i id).0 same in
            let unused : any (has_id id) db.objects ≡ false = rw (← named) put.fresh in
            cc (unused, old.used)
        | inr apart ↦ apart
      ] in
      record {
        used = rw objects (ground (arith, any-append_one (has_id id) db.objects row, old.used));
        dead =
            rw objects
              (ground (arith, any-append_one (is_target c id) db.objects row, old.dead, other));
      }

  IsGone-IsKept : IsKept s IsGone
  IsGone-IsKept = record {
    writes = λ fails anyway held. record {
      put = λ actor collection d it db last i put old.
          Put-IsGone _ actor collection d it db last i held put old;
      erase = λ p actor refs db covers old. record {
        used = any_id-shred_where p id db.objects ∙ old.used;
        dead = any_target-shred_where p c id db.objects old.dead;
      };
      audit = λ entries db old. record { used = old.used; dead = old.dead };
    };
    keys = λ keys db held old. record { used = old.used; dead = old.dead };
    read = λ fails anyway test last db held old. record { used = old.used; dead = old.dead };
    rekey = λ drawn r re db held size among did old. record {
      used = any_id-rekey_where (is_unmoved r.id r.key_id) re id db.objects ∙ old.used;
      dead = any_target-rekey_where (is_unmoved r.id r.key_id) re c id db.objects ∙ old.dead;
    };
    index = λ fails anyway actor r values db held among live old. record {
      used = old.used;
      dead = old.dead;
    };
  }

  -- Deletion is final: after a successful `Delete`, and any sequence of `PutMany`, `Delete`,
  -- `DeleteSubject` and `AuditMany` calls and of steps of `Rotate` and `Reindex` that follows it,
  -- interleaved in any order and each with its own failures, the collection and the id name
  -- nothing. `Rotate` and `Reindex` may have read any rows before the deletion.
  pub delete_final :
      (actor : Text) (w mid : World) (held : List ObjectRow) (b : Running)
      → delete s actor c id w ≡ (ok tt, mid)
      → Steps s (record { world = mid; held = held }) b
      → view s b.world.db c id ≡ none
  unfolding delete
  delete_final actor w mid held b h steps =
      let hit = is_target c id in
      let (entries, db, ran, after) = transact-eq-ok s (delete_tx s actor c id) w mid tt h in
      let (there, did) = delete_effect s actor c id w.db db entries tt ran in
      let at = ap (λ (x : World). x.db) after ∙ emit-db s entries (record w { db = db }) ∙ did in
      let objects : mid.db.objects ≡ shred_where hit w.db.objects = ap (λ (d : Db). d.objects) at in
      let used = any_id_of_target c id w.db.objects there in
      let start : IsGone mid.db held = record {
        used = ap (any (has_id id)) objects ∙ any_id-shred_where hit id w.db.objects ∙ used;
        dead = ap (any hit) objects ∙ any_target-shredded c id w.db.objects;
      } in
      let last =
        Steps-keeps s IsGone IsGone-IsKept (record { world = mid; held = held }) b steps start in
      view-find s b.world.db c id none
        (find-none_of_any hit hit b.world.db.objects (λ r t. t) last.dead)
