-- ===== src/Store/Pages/Order.antt =====
-- The order of the rows in a page.
use mathlib.Core.Path.{subst}
use sealbox.Base.{
  ℕ, zero, suc, map, ◌≡◌, refl, ◌≤◌, ◌<◌, Bool, true, false, List, [], ◌∷◌, Text, ◌==◌, eq_iff,
  eq_refl, keep, take, length, All, All-mono, arith, Bool-cases, inl, inr,
}
use sealbox.Store.Tables.{ObjectRow, Collation}
use sealbox.Store.Read.{is_after, one_of}
use sealbox.Store.Pages.{insert_row, sort_rows}

-- A collation is a strict total order in which the empty text comes first.
pub record IsOrder (c : Collation) : Type 0 where
  pub irreflexive : (a : Text) → c.less a a ≡ false
  pub transitive : (a b d : Text) → c.less a b ≡ true → c.less b d ≡ true → c.less a d ≡ true
  pub total : (a b : Text) → c.less a b ≡ false → c.less b a ≡ false → a ≡ b
  pub empty_first : (a : Text) → c.less a [] ≡ false

module _ (c : Collation) (order : IsOrder c) where
  pub after_trans :
      (a b d : Text) → is_after c a b ≡ true → is_after c b d ≡ true → is_after c a d ≡ true
  unfolding ◌==◌
  after_trans [] [] d h k = ground arith
  after_trans [] (x ∷ b) [] h k = ground (arith, order.empty_first (x ∷ b))
  after_trans [] (x ∷ b) (y ∷ d) h k = refl
  after_trans (z ∷ a) [] d h k = ground (arith, order.empty_first (z ∷ a))
  after_trans (z ∷ a) (x ∷ b) d h k = order.transitive (z ∷ a) (x ∷ b) d h k

  pub after_irrefl : (a : Text) → is_after c a a ≡ false
  unfolding ◌==◌
  after_irrefl [] = refl
  after_irrefl (x ∷ a) = order.irreflexive (x ∷ a)

-- every element that passes one test passes the other
pub keep_mono :
    (p q : Text → Bool)
    → ((x : Text) → q x ≡ true → p x ≡ true)
    → (xs : List Text) → length (keep q xs) ≤ length (keep p xs)
keep_mono p q imp [] = omega arith
keep_mono p q imp (x ∷ xs) = elim (Bool-cases (q x)) [
  | inl hit ↦ ground (arith, hit, imp x hit, keep_mono p q imp xs)
  | inr miss ↦ ground (arith, miss, keep_mono p q imp xs)
]

-- and one that passes only the other is one fewer
pub keep-fewer :
    (p q : Text → Bool) (y : Text)
    → ((x : Text) → q x ≡ true → p x ≡ true)
    → p y ≡ true
    → q y ≡ false
    → (xs : List Text) → one_of xs y ≡ true
    → length (keep q xs) < length (keep p xs)
keep-fewer p q y imp hit miss [] h = ground arith
keep-fewer p q y imp hit miss (x ∷ xs) h = elim (Bool-cases (x == y)) [
  | inl same ↦
      let at : x ≡ y = (eq_iff x y).0 same in
      let px : p x ≡ true = rw at hit in
      let qx : q x ≡ false = rw at miss in ground (arith, px, qx, keep_mono p q imp xs)
  | inr other ↦
      let rest : one_of xs y ≡ true = ground (arith, other) in
      let fewer = keep-fewer p q y imp hit miss xs rest in
      elim (Bool-cases (q x)) [
        | inl qx ↦ ground (arith, qx, imp x qx, fewer)
        | inr qx ↦ ground (arith, qx, fewer)
      ]
]

-- What every element has, those of a sorted list, of a prefix and of the elements that pass a test
-- have too.
module _ (Q : ObjectRow → Type 0) where
  pub All-insert_row :
      (less : Text → Text → Bool) (x : ObjectRow) (rows : List ObjectRow)
      → Q x
      → All Q rows
      → All Q (insert_row less x rows)
  unfolding insert_row
  All-insert_row less x [] q all = (q, tt)
  All-insert_row less x (y ∷ rows) q (here, all) = elim (Bool-cases (less y.id x.id)) [
    | inl later ↦ rw later (here, All-insert_row less x rows q all)
    | inr sooner ↦ rw sooner (q, (here, all))
  ]

  pub All-sort_rows :
      (less : Text → Text → Bool) (rows : List ObjectRow) → All Q rows → All Q (sort_rows less rows)
  unfolding sort_rows
  All-sort_rows less [] all = tt
  All-sort_rows less (x ∷ rows) (here, all) =
      All-insert_row less x (sort_rows less rows) here (All-sort_rows less rows all)

  pub All-take : (n : ℕ) (rows : List ObjectRow) → All Q rows → All Q (take n rows)
  All-take zero rows all = tt
  All-take (suc n) [] all = tt
  All-take (suc n) (r ∷ rows) (here, all) = (here, All-take n rows all)

  pub All-keep :
      (p : ObjectRow → Bool) (R : ObjectRow → Type 0)
      → ((r : ObjectRow) → p r ≡ true → R r → Q r)
      → (rows : List ObjectRow) → All R rows
      → All Q (keep p rows)
  All-keep p R f [] all = tt
  All-keep p R f (r ∷ rows) (here, all) = elim (Bool-cases (p r)) [
    | inl passes ↦
        let here' = f r passes here in
        let there = All-keep p R f rows all in
        let same : r ∷ keep p rows ≡ keep p (r ∷ rows) = ground (arith, passes) in
        subst (All Q) same (here', there)
    | inr drops ↦
        let same : keep p rows ≡ keep p (r ∷ rows) = ground (arith, drops) in
        subst (All Q) same (All-keep p R f rows all)
  ]

abbrev pub ids_of : List ObjectRow → List Text
ids_of rows = map (λ (r : ObjectRow). r.id) rows

pub All-listed :
    (rows : List ObjectRow) → All (λ (r : ObjectRow). one_of (ids_of rows) r.id ≡ true) rows
All-listed [] = tt
All-listed (r ∷ rows) = (
  ground (arith, eq_refl r.id),
  All-mono (λ (x : ObjectRow). one_of (ids_of rows) x.id ≡ true)
      (λ (x : ObjectRow). one_of (ids_of (r ∷ rows)) x.id ≡ true) (λ x h. ground (arith, h)) rows
      (All-listed rows),
)
