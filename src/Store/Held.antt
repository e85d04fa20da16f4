-- ===== src/Store/Held.antt =====
-- Rows that a run has read, and what the tables hold under their ids later.
use mathlib.Core.Path.{subst}
use sealbox.Base.{
  ◌≡◌, refl, ap, ◌∙◌, sym, some, List, [], ◌∷◌, ◌++◌, Text, eq_iff, ok, Bool, true, false, any, Any,
  All, All-append, All-mono, length, arith, Bool-cases, inl, inr,
}
use sealbox.Envelope.{Bytes, Sealed, nonce_bytes, rewrap}
use sealbox.Store.Tables.{ObjectRow, Store, Db, Item, aad}
use sealbox.Store.Tx.{has_id}
use sealbox.Store.Maintain.{is_unmoved, rekey_where}
use sealbox.Store.Shred.{shredded, shred_where}
use sealbox.Store.Write.{PutDraw}
use sealbox.Store.Effect.{Put, object_row}
use sealbox.Store.View.{
  find, HasDistinctIds, HasDistinctIds-append_one, HasDistinctIds-shred_where, any-append_one,
  any_id-shred_where,
}
use sealbox.Store.Pages.{page_of, page_size}
use sealbox.Store.Pages.Order.{All-keep, All-sort_rows, All-take}
use sealbox.Store.Pages.Reach.{IsOnly, All-IsOnly}
use sealbox.Store.Keeps.{row_key, IsKept}

-- The row with a new key.
abbrev pub rekeyed : Sealed → ObjectRow → ObjectRow
rekeyed re r = record r { key_id = re.key_id; wrapped_dek = some re.wrapped_dek }

any_of_find :
    (p : ObjectRow → Bool) (rows : List ObjectRow) (x : ObjectRow)
    → find p rows ≡ some x
    → any p rows ≡ true
any_of_find p [] x h = cc
any_of_find p (r ∷ rows) x h = ground (arith, any_of_find p rows x)

pub find-some_of_any :
    (p : ObjectRow → Bool) (rows : List ObjectRow)
    → any p rows ≡ true
    → (x : ObjectRow) × (find p rows ≡ some x)
find-some_of_any p [] h = cc
find-some_of_any p (r ∷ rows) h = elim (Bool-cases (p r)) [
  | inl hit ↦ (r, ground (arith, hit))
  | inr miss ↦
      let (x, found) = find-some_of_any p rows (ground (arith, miss)) in
      (x, ground (arith, miss, found))
]

pub any_id-rekey_where :
    (p : ObjectRow → Bool) (re : Sealed) (id : Text) (rows : List ObjectRow)
    → any (has_id id) (rekey_where p re rows) ≡ any (has_id id) rows
unfolding rekey_where
any_id-rekey_where p re id [] = refl
any_id-rekey_where p re id (r ∷ rows) = ground (arith, any_id-rekey_where p re id rows)

pub HasDistinctIds-rekey_where :
    (p : ObjectRow → Bool) (re : Sealed) (rows : List ObjectRow)
    → HasDistinctIds rows
    → HasDistinctIds (rekey_where p re rows)
unfolding rekey_where
HasDistinctIds-rekey_where p re [] h = tt
HasDistinctIds-rekey_where p re (r ∷ rows) h =
    (ground (arith, any_id-rekey_where p re r.id rows), HasDistinctIds-rekey_where p re rows h.1)

pub All-Any :
    (Q : ObjectRow → Type 0) (r : ObjectRow) (rows : List ObjectRow)
    → All Q rows
    → Any (λ x. x ≡ r) rows
    → Q r
All-Any Q r [] all there = absurd there
All-Any Q r (x ∷ rows) (q, all) (inl same) = subst Q same q
All-Any Q r (x ∷ rows) (q, all) (inr there) = All-Any Q r rows all there

module _ (R : ObjectRow → ObjectRow → Type 0) where
  -- An id in use, whose row is related to the row that was read.
  pub record Held (objects : List ObjectRow) (r : ObjectRow) : Type 0 where
    pub used : any (has_id r.id) objects ≡ true
    pub like : All (λ x. has_id r.id x ≡ true → R x r) objects

  -- Tables with distinct ids, and rows read earlier.
  pub record IsHolding (db : Db) (held : List ObjectRow) : Type 0 where
    pub distinct : HasDistinctIds db.objects
    pub rows : All (Held db.objects) held

  Held-append_one :
      (objects : List ObjectRow) (row r : ObjectRow)
      → any (has_id row.id) objects ≡ false
      → Held objects r
      → Held (objects ++ row ∷ []) r
  Held-append_one objects row r fresh h = record {
    used = ground (arith, any-append_one (has_id r.id) objects row, h.used);
    like =
        All-append (λ x. has_id r.id x ≡ true → R x r) objects (row ∷ []) h.like
          (
            (λ (same : has_id r.id row ≡ true).
                let at : row.id ≡ r.id = (eq_iff row.id r.id).0 same in
                let unused : any (has_id r.id) objects ≡ false = rw (← at) fresh in
                cc (unused, h.used)),
            tt,
          );
  }

  shred_like :
      (p : ObjectRow → Bool) (r : ObjectRow)
      → ((x : ObjectRow) → R x r → R (shredded x) r)
      → (objects : List ObjectRow) → All (λ x. has_id r.id x ≡ true → R x r) objects
      → All (λ x. has_id r.id x ≡ true → R x r) (shred_where p objects)
  unfolding shred_where
  shred_like p r f [] all = tt
  shred_like p r f (x ∷ objects) (here, all) = elim (Bool-cases (p x)) [
    | inl hit ↦ rw hit ((λ same. f x (here same)), shred_like p r f objects all)
    | inr miss ↦ rw miss (here, shred_like p r f objects all)
  ]

  rekey_like :
      (p : ObjectRow → Bool) (re : Sealed) (r q : ObjectRow)
      → ((x : ObjectRow)
          → p x ≡ true
          → has_id r.id x ≡ true
          → (has_id q.id x ≡ true → R x q)
          → R x r
          → R (rekeyed re x) r)
      → (objects : List ObjectRow) → All (λ x. has_id q.id x ≡ true → R x q) objects
      → All (λ x. has_id r.id x ≡ true → R x r) objects
      → All (λ x. has_id r.id x ≡ true → R x r) (rekey_where p re objects)
  unfolding rekey_where
  rekey_like p re r q f [] from all = tt
  rekey_like p re r q f (x ∷ objects) (of, from) (here, all) = elim (Bool-cases (p x)) [
    | inl hit ↦
        rw hit ((λ same. f x hit same of (here same)), rekey_like p re r q f objects from all)
    | inr miss ↦ rw miss (here, rekey_like p re r q f objects from all)
  ]

-- What the only row of its id has, the row of that id has.
only_like :
    (R : ObjectRow → ObjectRow → Type 0) (r : ObjectRow) (objects : List ObjectRow)
    → ((x : ObjectRow) → R x x)
    → HasDistinctIds objects
    → find (has_id r.id) objects ≡ some r
    → All (λ x. has_id r.id x ≡ true → R x r) objects
only_like R r objects same distinct only =
    All-mono (IsOnly objects) (λ x. has_id r.id x ≡ true → R x r)
      (λ x sole hit.
        let at : x.id ≡ r.id = (eq_iff x.id r.id).0 hit in
        let there : find (has_id r.id) objects ≡ some x = rw (← at) sole in
        let one : x ≡ r = cc (there, only) in subst (λ (y : ObjectRow). R y r) (sym one) (same r))
      objects (All-IsOnly objects distinct)

pub Held-only :
    (R : ObjectRow → ObjectRow → Type 0) (r : ObjectRow) (objects : List ObjectRow)
    → ((x : ObjectRow) → R x x)
    → HasDistinctIds objects
    → find (has_id r.id) objects ≡ some r
    → Held R objects r
Held-only R r objects same distinct only = record {
  used = any_of_find (has_id r.id) objects r only;
  like = only_like R r objects same distinct only;
}

-- What a relation between a row now and the row as it was read wants to be kept.
pub record IsKeptRelation (s : Store) (R : ObjectRow → ObjectRow → Type 0) : Type 0 where
  pub same : (x : ObjectRow) → R x x
  pub shred : (x r : ObjectRow) → R x r → R (shredded x) r
  pub rekey :
      (drawn : Bytes) (q : ObjectRow) (re : Sealed) (x r : ObjectRow)
      → length drawn ≡ nonce_bytes
      → rewrap s.env drawn (row_key q) (aad q.collection q.id) ≡ ok (re, true)
      → is_unmoved q.id q.key_id x ≡ true
      → q.id ≡ r.id
      → R x q
      → R x r
      → R (rekeyed re x) r

module _ (s : Store) (R : ObjectRow → ObjectRow → Type 0) (law : IsKeptRelation s R) where
  page_of-All :
      (st : Store) (test : ObjectRow → Bool) (last : Text) (objects : List ObjectRow)
      (Q : ObjectRow → Type 0)
      → All Q objects
      → All Q (page_of st test last objects)
  unfolding page_of
  page_of-All st test last objects Q all =
      All-take Q page_size _
        (All-sort_rows Q st.collation.less _ (All-keep Q _ Q (λ r h q. q) objects all))

  page_of-Held :
      (st : Store) (test : ObjectRow → Bool) (last : Text) (objects : List ObjectRow)
      → HasDistinctIds objects
      → All (Held R objects) (page_of st test last objects)
  page_of-Held st test last objects distinct = page_of-All st test last objects (Held R objects) (
      All-mono (IsOnly objects) (Held R objects)
        (λ x only. Held-only R x objects law.same distinct only) objects
        (All-IsOnly objects distinct))

  Put-IsHolding :
      (st : Store) (actor c : Text) (d : PutDraw) (it : Item) (db last : Db) (i : Text)
      (held : List ObjectRow)
      → Put st actor c d it db last i
      → IsHolding R db held
      → IsHolding R last held
  Put-IsHolding st actor c d it db last i held put old =
      let row = object_row c i put.sealed it.subject in
      let rows : last.objects ≡ db.objects ++ row ∷ [] = ap (λ (x : Db). x.objects) put.after in
      record {
        distinct =
            subst HasDistinctIds (sym rows)
              (HasDistinctIds-append_one db.objects row old.distinct put.fresh);
        rows =
            subst (λ l. All (Held R l) held) (sym rows)
              (All-mono (Held R db.objects) (Held R (db.objects ++ row ∷ []))
                (λ r h. Held-append_one R db.objects row r put.fresh h) held old.rows);
      }

  shred_where-Held :
      (p : ObjectRow → Bool) (objects : List ObjectRow) (r : ObjectRow)
      → Held R objects r
      → Held R (shred_where p objects) r
  shred_where-Held p objects r h = record {
    used = any_id-shred_where p r.id objects ∙ h.used;
    like = shred_like R p r (λ x. law.shred x r) objects h.like;
  }

  rekey_where-Held :
      (drawn : Bytes) (q : ObjectRow) (re : Sealed) (objects : List ObjectRow) (r : ObjectRow)
      → length drawn ≡ nonce_bytes
      → rewrap s.env drawn (row_key q) (aad q.collection q.id) ≡ ok (re, true)
      → Held R objects q
      → Held R objects r
      → Held R (rekey_where (is_unmoved q.id q.key_id) re objects) r
  rekey_where-Held drawn q re objects r size did from h =
      let p = is_unmoved q.id q.key_id in
      record {
        used = any_id-rekey_where p re r.id objects ∙ h.used;
        like =
            rekey_like R p re r q
              (λ x hit mine from_q rx.
                let at : x.id ≡ q.id = (eq_iff x.id q.id).0 (ground arith) in
                let named : x.id ≡ r.id = (eq_iff x.id r.id).0 mine in
                law.rekey drawn q re x r size did hit (sym at ∙ named)
                  (from_q (ground (arith, hit))) rx)
              objects from.like h.like;
      }

  -- What is held stays held through each step.
  pub Holding-IsKept : IsKept s (IsHolding R)
  Holding-IsKept = record {
    writes = λ fails anyway held. record {
      put = λ actor c d it db last i put old. Put-IsHolding _ actor c d it db last i held put old;
      erase = λ p actor refs db covers old. record {
        distinct = HasDistinctIds-shred_where p db.objects old.distinct;
        rows =
            All-mono (Held R db.objects) (Held R (shred_where p db.objects))
              (shred_where-Held p db.objects) held old.rows;
      };
      audit = λ entries db old. record { distinct = old.distinct; rows = old.rows };
    };
    keys = λ keys db held old. record { distinct = old.distinct; rows = old.rows };
    read = λ fails anyway test last db held old. record {
      distinct = old.distinct;
      rows =
          All-append (Held R db.objects) _ held (page_of-Held _ test last db.objects old.distinct)
            old.rows;
    };
    rekey = λ drawn r re db held size among did old. record {
      distinct = HasDistinctIds-rekey_where (is_unmoved r.id r.key_id) re db.objects old.distinct;
      rows =
          All-mono (Held R db.objects)
            (Held R (rekey_where (is_unmoved r.id r.key_id) re db.objects))
            (λ x h.
              rekey_where-Held drawn r re db.objects x size did
                (All-Any (Held R db.objects) r held old.rows among) h)
            held old.rows;
    };
    index = λ fails anyway actor r values db held among live old. record {
      distinct = old.distinct;
      rows = old.rows;
    };
  }
