-- ===== src/Store/PutAll.antt =====
-- `PutMany` as a whole: what it stores, what it leaves alone and what it audits.
use mathlib.Core.Path.{subst}
use sealbox.Base.{
  ℕ, Bool-cases, Result-cases, ◌≡◌, ap, ◌∙◌, sym, List, ◌++◌, map, Text, ok, err, false,
  if◌then◌else◌, arith, ◌⊎◌, inl, inr,
}
use sealbox.Envelope.RoundTrip.{IsDraw}
use sealbox.Store.Tables.{AuditEntry, audit_row, World, Item, Store, StoreError, emit}
use sealbox.Store.Tx.{Tx, transact}
use sealbox.Store.Tables.{Db, begin, commit}
use sealbox.Store.Write.{PutDraw, create_entry, put_loop, put_many}
use sealbox.Store.Read.{one_of}
use sealbox.Store.Effect.{transact-eq-ok}
use sealbox.Store.View.{view, HasDistinctIds}
use sealbox.Store.Puts.{CanSeal, Holds, Stored, put_loop-Stored}

pub emit-db : (s : Store) (entries : List AuditEntry) (w : World) → (emit s entries w).db ≡ w.db
unfolding emit
emit-db s entries w = ground arith

pub emit-shipped :
    (s : Store) (entries : List AuditEntry) (w : World)
    → (emit s entries w).shipped ≡ (if s.ships then w.shipped ++ entries else w.shipped)
unfolding emit
emit-shipped s entries w = ground arith

-- `transact` does nothing or everything when it fails: the world is as it was, or the commit took
-- effect and nothing was emitted.
pub transact-err :
    {A : Type 0} (s : Store) (m : Tx (A × List AuditEntry)) (w w' : World) (e : StoreError)
    → transact s m w ≡ (err e, w')
    → (w' ≡ w)
      ⊎ ((a : A) × (entries : List AuditEntry) × (m w.db ≡ ok ((a, entries), w'.db))
          × (w' ≡ record w { db = w'.db }))
unfolding transact
transact-err s m w w' e h = elim (Bool-cases (s.fails begin)) [
  | inl refused ↦ inl (ground (arith, refused, h))
  | inr begun ↦ elim (Result-cases (m w.db)) [
    | inr (e', fault) ↦ inl (ground (arith, begun, fault, h))
    | inl (((a, entries), db), ran) ↦ elim (Bool-cases (s.fails commit)) [
      | inr served ↦ ground (arith, begun, ran, served, h)
      | inl refused ↦ elim (Bool-cases s.commits_anyway) [
        | inr rolled_back ↦ inl (ground (arith, begun, ran, refused, rolled_back, h))
        | inl took ↦
            let same : record w { db = db } ≡ w' = ground (arith, begun, ran, refused, took, h) in
            let at : db ≡ w'.db = ap (λ (x : World). x.db) same in
            inr (a, entries, rw (← at) ran, sym same ∙ ap (λ (x : Db). record w { db = x }) at)
      ]
    ]
  ]
]

module _ (s : Store) where
  -- What the loop did, seen from the tables that the transaction committed.
  put_many-Stored :
      (actor collection : Text) (tape : ℕ → PutDraw) (items : List Item) (w w' : World)
      (ids : List Text)
      → CanSeal s
      → ((n : ℕ) → IsDraw (tape n).draw)
      → put_many s actor collection tape items w ≡ (ok ids, w')
      → (entries : List AuditEntry) × Stored s actor collection items ids entries w.db w'.db
        × (w'.shipped ≡ (if s.ships then w.shipped ++ entries else w.shipped))
  unfolding put_many
  put_many-Stored actor collection tape items w w' ids can sizes h =
      let (entries, db, ran, after) =
        transact-eq-ok s (put_loop s actor collection tape 0 items) w w' ids h in
      let did = put_loop-Stored s can tape sizes actor collection 0 items ids entries w.db db ran in
      let at : db ≡ w'.db =
        sym (ap (λ (x : World). x.db) after ∙ emit-db s entries (record w { db = db })) in
      (
        entries,
        subst (Stored s actor collection items ids entries w.db) at did,
        ap (λ (x : World). x.shipped) after ∙ emit-shipped s entries (record w { db = db }),
      )

  -- A successful `PutMany` returns one id for each item, in order, and each id then opens to its
  -- item's plaintext. Ids stay distinct, and the audit log grew by one "create" row for each id, in
  -- order, which is also what is shipped when there is an audit logger. The current wrapper is
  -- honest and loaded, every draw has the sizes that the code asks for, and ids were distinct.
  pub put_many-view :
      (actor collection : Text) (tape : ℕ → PutDraw) (items : List Item) (w w' : World)
      (ids : List Text)
      → CanSeal s
      → ((n : ℕ) → IsDraw (tape n).draw)
      → HasDistinctIds w.db.objects
      → put_many s actor collection tape items w ≡ (ok ids, w')
      → Holds s w'.db collection ids items
        × HasDistinctIds w'.db.objects
        × (w'.db.audit_log
            ≡ w.db.audit_log ++ map audit_row (map (create_entry actor collection) ids))
        × (w'.shipped
            ≡ (if s.ships then w.shipped ++ map (create_entry actor collection) ids else w.shipped))
  put_many-view actor collection tape items w w' ids can sizes distinct h =
      let (entries, did, sent) = put_many-Stored actor collection tape items w w' ids can sizes h in
      (did.holds, did.distinct distinct, rw (← did.named) did.logged, rw (← did.named) sent)

  -- A successful `PutMany` does not change what any other id names, in any collection. The current
  -- wrapper is honest and loaded, and every draw has the sizes that the code asks for.
  pub put_many_others :
      (actor collection : Text) (tape : ℕ → PutDraw) (items : List Item) (w w' : World)
      (ids : List Text) (c id : Text)
      → CanSeal s
      → ((n : ℕ) → IsDraw (tape n).draw)
      → put_many s actor collection tape items w ≡ (ok ids, w')
      → one_of ids id ≡ false
      → view s w'.db c id ≡ view s w.db c id
  put_many_others actor collection tape items w w' ids c id can sizes h other =
      let (entries, did, sent) = put_many-Stored actor collection tape items w w' ids can sizes h in
      did.others c id other
