-- ===== src/Store/Pages/Sorted.antt =====
-- Pages in order: a row that passes the test of a page is in it or after all of it.
use mathlib.Core.Path.{subst}
use sealbox.Base.{
  ℕ, zero, suc, ◌≡◌, refl, Bool, true, false, ◌&&◌, List, [], ◌∷◌, Text, ◌==◌, eq_refl, keep, take,
  any, All, All-mono, arith, Bool-cases, inl, inr, ◌⊎◌,
}
use sealbox.Store.Tables.{ObjectRow, Collation}
use sealbox.Store.Pages.{insert_row, sort_rows}
use sealbox.Store.Pages.Order.{IsOrder, All-insert_row}

module _ (c : Collation) (order : IsOrder c) where
  not_less_trans : (x y z : Text) → c.less y x ≡ false → c.less z y ≡ false → c.less z x ≡ false
  not_less_trans x y z h k = elim (Bool-cases (c.less z x)) [
    | inr apart ↦ apart
    | inl below ↦ elim (Bool-cases (c.less y z)) [
      | inl above ↦ ground (arith, h, order.transitive y z x above below)
      | inr other ↦ let same = order.total y z other k in ground (arith, same, h, below)
    ]
  ]

  not_less_flip : (x y : Text) → c.less y x ≡ true → c.less x y ≡ false
  not_less_flip x y h = elim (Bool-cases (c.less x y)) [
    | inr apart ↦ apart
    | inl above ↦ ground (arith, order.transitive x y x above h, order.irreflexive x)
  ]

-- no row is before an earlier one
abbrev pub IsSorted : Collation → List ObjectRow → Type 0
IsSorted c [] = Unit {0}
IsSorted c (x ∷ rows) = All (λ (y : ObjectRow). c.less y.id x.id ≡ false) rows × IsSorted c rows

module _ (c : Collation) (order : IsOrder c) where
  insert_row-IsSorted :
      (x : ObjectRow) (rows : List ObjectRow)
      → IsSorted c rows
      → IsSorted c (insert_row c.less x rows)
  unfolding insert_row
  insert_row-IsSorted x [] sorted = (tt, tt)
  insert_row-IsSorted x (y ∷ rows) (all, sorted) = elim (Bool-cases (c.less y.id x.id)) [
    | inl later ↦ rw later (
      All-insert_row (λ (z : ObjectRow). c.less z.id y.id ≡ false) c.less x rows
          (not_less_flip c order x.id y.id later) all,
      insert_row-IsSorted x rows sorted,
    )
    | inr sooner ↦ rw sooner (
      (
        sooner,
        All-mono (λ (z : ObjectRow). c.less z.id y.id ≡ false)
            (λ (z : ObjectRow). c.less z.id x.id ≡ false)
            (λ z h. not_less_trans c order x.id y.id z.id sooner h) rows all,
      ),
      (all, sorted),
    )
  ]

  pub sort_rows-IsSorted : (rows : List ObjectRow) → IsSorted c (sort_rows c.less rows)
  unfolding sort_rows
  sort_rows-IsSorted [] = tt
  sort_rows-IsSorted (x ∷ rows) =
      insert_row-IsSorted x (sort_rows c.less rows) (sort_rows-IsSorted rows)

-- What all of a sorted list has, all of the list has; and so for the rows that a test keeps.
module _ (Q : ObjectRow → Type 0) where
  All-of_insert_row :
      (less : Text → Text → Bool) (x : ObjectRow) (rows : List ObjectRow)
      → All Q (insert_row less x rows)
      → Q x × All Q rows
  unfolding insert_row
  All-of_insert_row less x [] all = all
  All-of_insert_row less x (y ∷ rows) all = elim (Bool-cases (less y.id x.id)) [
    | inl later ↦
        let same : insert_row less x (y ∷ rows) ≡ y ∷ insert_row less x rows =
          ground (arith, later) in
        let (here, rest) = subst (All Q) same all in
        let (mine, there) = All-of_insert_row less x rows rest in (mine, (here, there))
    | inr sooner ↦
        let same : insert_row less x (y ∷ rows) ≡ x ∷ y ∷ rows = ground (arith, sooner) in
        subst (All Q) same all
  ]

  pub All-of_sort_rows :
      (less : Text → Text → Bool) (rows : List ObjectRow) → All Q (sort_rows less rows) → All Q rows
  unfolding sort_rows
  All-of_sort_rows less [] all = tt
  All-of_sort_rows less (x ∷ rows) all =
      let (here, rest) = All-of_insert_row less x (sort_rows less rows) all in
      (here, All-of_sort_rows less rows rest)

  pub All-of_keep :
      (p : ObjectRow → Bool) (rows : List ObjectRow)
      → All Q (keep p rows)
      → All (λ (r : ObjectRow). p r ≡ true → Q r) rows
  All-of_keep p [] all = tt
  All-of_keep p (r ∷ rows) all = elim (Bool-cases (p r)) [
    | inl passes ↦
        let same : keep p (r ∷ rows) ≡ r ∷ keep p rows = ground (arith, passes) in
        let (here, rest) = subst (All Q) same all in ((λ h. here), All-of_keep p rows rest)
    | inr drops ↦
        let same : keep p (r ∷ rows) ≡ keep p rows = ground (arith, drops) in
        ((λ h. ground (arith, drops, h)), All-of_keep p rows (subst (All Q) same all))
  ]

-- a row of a list has its id and its key
abbrev pub is_row : ObjectRow → ObjectRow → Bool
is_row x r = x.id == r.id && x.key_id == r.key_id

abbrev pub last_id : Text → List ObjectRow → Text
last_id last [] = last
last_id last (r ∷ rows) = last_id r.id rows

is_row_refl : (x : ObjectRow) → is_row x x ≡ true
is_row_refl x = ground (arith, eq_refl x.id, eq_refl x.key_id)

-- each row of a sorted list is in a prefix, or not before the prefix's last row
pub take-reaches :
    (c : Collation) (n : ℕ) (r : ObjectRow) (rows : List ObjectRow)
    → IsSorted c (r ∷ rows)
    → All
        (λ (x : ObjectRow).
          (any (is_row x) (r ∷ take n rows) ≡ true)
          ⊎ (c.less x.id (last_id r.id (take n rows)) ≡ false))
        (r ∷ rows)
take-reaches c zero r rows (all, sorted) = (
  inl (ground (arith, is_row_refl r)),
  All-mono (λ (x : ObjectRow). c.less x.id r.id ≡ false)
      (λ (x : ObjectRow). (any (is_row x) (r ∷ []) ≡ true) ⊎ (c.less x.id r.id ≡ false))
      (λ x h. inr h) rows all,
)
take-reaches c (suc n) r [] (all, sorted) = (inl (ground (arith, is_row_refl r)), tt)
take-reaches c (suc n) r (r2 ∷ rows) (all, sorted) = (
  inl (ground (arith, is_row_refl r)),
  All-mono
      (λ (x : ObjectRow).
        (any (is_row x) (r2 ∷ take n rows) ≡ true)
        ⊎ (c.less x.id (last_id r2.id (take n rows)) ≡ false))
      (λ (x : ObjectRow).
        (any (is_row x) (r ∷ r2 ∷ take n rows) ≡ true)
        ⊎ (c.less x.id (last_id r2.id (take n rows)) ≡ false))
      (λ x h. elim h [ inl listed ↦ inl (ground (arith, listed)) | inr after ↦ inr after ])
      (r2 ∷ rows) (take-reaches c n r2 rows sorted),
)

-- the last id of a list is that of one of its rows
pub last_id-any :
    (Q : ObjectRow → Type 0) (r : ObjectRow) (rows : List ObjectRow)
    → All Q (r ∷ rows)
    → (x : ObjectRow) × Q x × (any (is_row x) (r ∷ rows) ≡ true) × (last_id r.id rows ≡ x.id)
last_id-any Q r [] (here, all) = (r, here, ground (arith, is_row_refl r), refl)
last_id-any Q r (r2 ∷ rows) (here, all) =
    let (x, holds, listed, same) = last_id-any Q r2 rows all in
    (x, holds, ground (arith, listed), same)
