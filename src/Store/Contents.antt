-- ===== src/Store/Contents.antt =====
-- What an id names at two moments of a run.
use mathlib.Core.Path.{subst}
use sealbox.Base.{
  ◌≡◌, ap, ◌∙◌, sym, List, [], ◌∷◌, ◌++◌, Text, eq_iff, none, some, Option-cases, Bool, true, false,
  Bool-cases, any, Any, All, All-append, All-parts, arith, ◌⊎◌, inl, inr, append_assoc,
}
use sealbox.Envelope.{open_value}
use sealbox.Store.Tables.{ObjectRow, Db, World, Store, aad}
use sealbox.Store.Tx.{has_id}
use sealbox.Store.Read.{sealed_of}
use sealbox.Store.Shred.{is_target}
use sealbox.Store.View.{find, find-eq-some, view, view-find, HasDistinctIds}
use sealbox.Store.Puts.{CanSeal}
use sealbox.Store.Steps.{Running, Steps}
use sealbox.Store.Keeps.{IsKept, Steps-keeps}
use sealbox.Store.Held.{find-some_of_any, Held, IsHolding, Holding-IsKept, Held-only}
use sealbox.Store.Alike.{IsAlike, IsAlike-open_value, IsAlike-IsKept}
use sealbox.Store.Runs.{at_rest}

Any-append : (Q : ObjectRow → Type 0) (xs ys : List ObjectRow) → Any Q xs → Any Q (xs ++ ys)
Any-append Q [] ys h = absurd h
Any-append Q (x ∷ xs) ys (inl here) = inl here
Any-append Q (x ∷ xs) ys (inr there) = inr (Any-append Q xs ys there)

-- What the steps keep, they keep with more rows held.
IsKept-more :
    (s : Store) (P : Db → List ObjectRow → Type 0) (more : List ObjectRow)
    → IsKept s P
    → IsKept s (λ db held. P db (held ++ more))
IsKept-more s P more kept = record {
  writes = λ fails anyway held. kept.writes fails anyway (held ++ more);
  keys = λ keys db held old. kept.keys keys db (held ++ more) old;
  read = λ fails anyway test last db held old.
      subst (P db) (sym (append_assoc _ held more))
        (kept.read fails anyway test last db (held ++ more) old);
  rekey = λ drawn r re db held size among did old.
      kept.rekey drawn r re db (held ++ more) size (Any-append (λ x. x ≡ r) held more among) did
        old;
  index = λ fails anyway actor r values db held among live old.
      kept.index fails anyway actor r values db (held ++ more)
        (Any-append (λ x. x ≡ r) held more among) live old;
}

find_stricter :
    (p q : ObjectRow → Bool) (rows : List ObjectRow) (r : ObjectRow)
    → ((x : ObjectRow) → q x ≡ true → p x ≡ true)
    → find p rows ≡ some r
    → q r ≡ true
    → find q rows ≡ some r
find_stricter p q [] r imp h hit = cc
find_stricter p q (x ∷ rows) r imp h hit =
    let rest = find_stricter p q rows r imp in ground (arith, imp x, rest, hit)

All-find :
    (Q : ObjectRow → Type 0) (p : ObjectRow → Bool) (rows : List ObjectRow) (x : ObjectRow)
    → All Q rows
    → find p rows ≡ some x
    → Q x
All-find Q p [] x all h = cc
All-find Q p (r ∷ rows) x (q, all) h = elim (Bool-cases (p r)) [
  | inl hit ↦ let same : r ≡ x = ground (arith, hit) in subst Q same q
  | inr miss ↦ All-find Q p rows x all (ground (arith, miss))
]

module _ (s : Store) where
  later_row :
      (w : World) (a b : Running) (id : Text)
      → CanSeal s
      → HasDistinctIds w.db.objects
      → Steps s (at_rest w) a
      → (r : ObjectRow) → find (has_id r.id) a.world.db.objects ≡ some r
      → Steps s a b
      → Held (IsAlike s) b.world.db.objects r
  later_row w a b id can distinct before r found steps =
      let law = IsAlike-IsKept s can in
      let kept = Holding-IsKept s (IsAlike s) law in
      let start =
        Steps-keeps s (IsHolding (IsAlike s)) kept (at_rest w) a before
          (record { distinct = distinct; rows = tt }) in
      let here = Held-only (IsAlike s) r a.world.db.objects law.same start.distinct found in
      let last : IsHolding (IsAlike s) b.world.db (b.held ++ r ∷ []) =
        Steps-keeps s (λ db held. IsHolding (IsAlike s) db (held ++ r ∷ []))
          (IsKept-more s (IsHolding (IsAlike s)) (r ∷ []) kept) a b steps
          (record {
            distinct = start.distinct;
            rows =
                All-append (Held (IsAlike s) a.world.db.objects) a.held (r ∷ []) start.rows
                  (here, tt);
          }) in
      let (_, (of_r, _)) =
        All-parts (Held (IsAlike s) b.world.db.objects) b.held (r ∷ []) last.rows in
      of_r

  -- Content never changes under an id: at two moments of a run, an id in use at the first names at
  -- the second exactly what it named, or nothing. The run is any sequence of `PutMany`, `Delete`,
  -- `DeleteSubject` and `AuditMany` calls and of steps of `Rotate` and `Reindex`, interleaved in
  -- any order, each with its own failures and whatever it returned, and starts with distinct ids and no
  -- `Rotate` or `Reindex` under way. The current wrapper is honest and loaded.
  pub Steps-view :
      (w : World) (a b : Running) (c id : Text)
      → CanSeal s
      → HasDistinctIds w.db.objects
      → Steps s (at_rest w) a
      → any (has_id id) a.world.db.objects ≡ true
      → Steps s a b
      → (view s b.world.db c id ≡ view s a.world.db c id) ⊎ (view s b.world.db c id ≡ none)
  Steps-view w a b c id can distinct before used steps =
      let (r, found) = find-some_of_any (has_id id) a.world.db.objects used in
      let named : r.id ≡ id =
        (eq_iff r.id id).0 (find-eq-some (has_id id) a.world.db.objects r found) in
      let first : find (has_id r.id) a.world.db.objects ≡ some r = rw named found in
      let of_r = later_row w a b id can distinct before r first steps in
      elim (Option-cases (find (is_target c id) b.world.db.objects)) [
        | inl gone ↦ inr (view-find s b.world.db c id none gone)
        | inr (x, now) ↦
            let hit = find-eq-some (is_target c id) b.world.db.objects x now in
            let same_id : x.id ≡ r.id = (eq_iff x.id id).0 (ground (arith, hit)) ∙ sym named in
            let like =
              All-find (λ y. has_id r.id y ≡ true → IsAlike s y r) (is_target c id)
                b.world.db.objects x of_r.like now ((eq_iff x.id r.id).1 same_id) in
            let placed : r.collection ≡ c =
              sym like.placed ∙ (eq_iff x.collection c).0 (ground (arith, hit)) in
            let live : x.deleted ≡ false = ground (arith, hit) in
            let was : r.deleted ≡ false = elim (Bool-cases r.deleted) [
              | inl dead ↦ cc (like.final dead, live)
              | inr alive ↦ alive
            ] in
            let then =
              find_stricter (has_id id) (is_target c id) a.world.db.objects r
                (λ y t. ground (arith, t)) found
                (ground (arith, was, (eq_iff r.id id).1 named, (eq_iff r.collection c).1 placed)) in
            let place : aad r.collection r.id ≡ aad c id = cc (placed, named) in
            let opens : open_value s.aead s.env (sealed_of x) (aad c id)
                ≡ open_value s.aead s.env (sealed_of r) (aad c id) =
              subst
                (λ p.
                  open_value s.aead s.env (sealed_of x) p ≡ open_value s.aead s.env (sealed_of r) p)
                place (IsAlike-open_value s x r like live) in
            inl (
              view-find s b.world.db c id (some x) now
              ∙ ap some opens
              ∙ sym (view-find s a.world.db c id (some r) then))
      ]
