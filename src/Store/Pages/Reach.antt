-- ===== src/Store/Pages/Reach.antt =====
-- The page of `Rotate` after an id: each row is done, in the page or after it.
use mathlib.Core.Path.{subst}
use sealbox.Base.{
  ◌≡◌, refl, ap, sym, ◌∙◌, Bool, true, false, ◌&&◌, some, List, [], ◌∷◌, Text, ◌==◌, eq_iff,
  eq_refl, keep, take, any, All, All-both, All-mono, arith, Bool-cases, inl, inr, ◌⊎◌,
}
use sealbox.Store.Tables.{ObjectRow, Db, Store, Collation}
use sealbox.Store.Tx.{has_id}
use sealbox.Store.View.{find, find-none_of_any, HasDistinctIds}
use sealbox.Store.Read.{is_after, one_of}
use sealbox.Store.Pages.{page_size, sort_rows, page_of, needs_rotation}
use sealbox.Store.Pages.Order.{IsOrder, All-keep, All-sort_rows, All-take, ids_of}
use sealbox.Store.Pages.Sorted.{
  IsSorted, sort_rows-IsSorted, All-of_sort_rows, All-of_keep, is_row, last_id, take-reaches,
  last_id-any,
}
use sealbox.Store.Pages.Covered.{IsCovered, is_done}

pub List-cases :
    (rows : List ObjectRow)
    → (rows ≡ []) ⊎ ((r : ObjectRow) × (rest : List ObjectRow) × (rows ≡ r ∷ rest))
List-cases [] = inl refl
List-cases (r ∷ rest) = inr (r, rest, refl)

-- Distinct ids are a matter of the ids alone.
unfoldable AreDistinct : List Text → Type 0
AreDistinct [] = Unit {0}
AreDistinct (i ∷ ids) = (one_of ids i ≡ false) × AreDistinct ids

any-has_id : (i : Text) (rows : List ObjectRow) → any (has_id i) rows ≡ one_of (ids_of rows) i
any-has_id i [] = refl
any-has_id i (r ∷ rows) = ground (arith, any-has_id i rows)

distinct_ids : (rows : List ObjectRow) → HasDistinctIds rows → AreDistinct (ids_of rows)
unfolding AreDistinct
distinct_ids [] d = tt
distinct_ids (r ∷ rows) (new, d) = (sym (any-has_id r.id rows) ∙ new, distinct_ids rows d)

ids_distinct : (rows : List ObjectRow) → AreDistinct (ids_of rows) → HasDistinctIds rows
unfolding AreDistinct
ids_distinct [] d = tt
ids_distinct (r ∷ rows) (new, d) = (any-has_id r.id rows ∙ new, ids_distinct rows d)

pub same_distinct :
    (rows rows' : List ObjectRow)
    → ids_of rows' ≡ ids_of rows
    → HasDistinctIds rows
    → HasDistinctIds rows'
same_distinct rows rows' same d =
    ids_distinct rows' (subst AreDistinct (sym same) (distinct_ids rows d))

-- The only row of its id.
abbrev pub IsOnly : List ObjectRow → ObjectRow → Type 0
IsOnly rows x = find (has_id x.id) rows ≡ some x

pub All-IsOnly : (rows : List ObjectRow) → HasDistinctIds rows → All (IsOnly rows) rows
All-IsOnly [] d = tt
All-IsOnly (r ∷ rows) (new, d) = (
  ground (arith, eq_refl r.id),
  All-mono (IsOnly rows) (IsOnly (r ∷ rows))
      (λ x only. elim (Bool-cases (r.id == x.id)) [
        | inl same ↦
            let at : r.id ≡ x.id = (eq_iff r.id x.id).0 same in
            let absent = find-none_of_any (has_id r.id) (has_id r.id) rows (λ y h. h) new in
            let there : find (has_id r.id) rows ≡ some x = rw at only in
            ground (arith, absent, there)
        | inr other ↦ ground (arith, other, only)
      ])
      rows (All-IsOnly rows d),
)

after_nonempty :
    (c : Collation) → IsOrder c → (last id : Text) → is_after c last id ≡ true → (id == []) ≡ false
unfolding ◌==◌
after_nonempty c order [] [] h = ground arith
after_nonempty c order [] (x ∷ id) h = refl
after_nonempty c order (y ∷ last) [] h = ground (arith, order.empty_first (y ∷ last))
after_nonempty c order (y ∷ last) (x ∷ id) h = refl

module _ (s : Store) (order : IsOrder s.collation) where
  -- in a page, or not before its last row
  abbrev Reached : Text → List ObjectRow → ObjectRow → Type 0
  Reached last page x =
      (any (is_row x) page ≡ true) ⊎ (s.collation.less x.id (last_id last page) ≡ false)

  abbrev is_left : Text → ObjectRow → Bool
  is_left last x = needs_rotation s x && is_after s.collation last x.id

  page_of-Reached :
      (last : Text) (db : Db) (r : ObjectRow) (rows : List ObjectRow)
      → page_of s (needs_rotation s) last db.objects ≡ r ∷ rows
      → All (λ (x : ObjectRow). is_left last x ≡ true → Reached last (r ∷ rows) x) db.objects
  unfolding page_of
  page_of-Reached last db r rows h =
      let all = keep (is_left last) db.objects in
      let sorted = sort_rows-IsSorted s.collation order all in
      elim (List-cases (sort_rows s.collation.less all)) [
        | inl empty ↦ ground (arith, empty, h)
        | inr (x, rest, full) ↦
            let cut : x ∷ take 499 rest ≡ r ∷ rows = ap (take page_size) (sym full) ∙ h in
            let reach =
              take-reaches s.collation 499 x rest (subst (IsSorted s.collation) full sorted) in
            let reached = subst (λ page. All (Reached last page) (x ∷ rest)) cut reach in
            All-of_keep (Reached last (r ∷ rows)) (is_left last) db.objects (
              All-of_sort_rows (Reached last (r ∷ rows)) s.collation.less all
                (subst (All (Reached last (r ∷ rows))) (sym full) reached))
      ]

  IsIn : Db → Text → ObjectRow → Type 0
  IsIn db last x = IsOnly db.objects x × (is_after s.collation last x.id ≡ true)

  page_of-IsIn :
      (last : Text) (db : Db)
      → HasDistinctIds db.objects
      → All (IsIn db last) (page_of s (needs_rotation s) last db.objects)
  unfolding page_of IsIn
  page_of-IsIn last db d =
      All-take (IsIn db last) page_size
        (sort_rows s.collation.less (keep (is_left last) db.objects))
        (All-sort_rows (IsIn db last) s.collation.less (keep (is_left last) db.objects) (
          All-keep (IsIn db last) (is_left last) (IsOnly db.objects)
            (λ x h only. (only, ground (arith, h))) db.objects (All-IsOnly db.objects d)))

  covers :
      (last : Text) (db : Db) (r : ObjectRow) (rows : List ObjectRow) (e x : ObjectRow)
      → IsIn db last e
      → any (is_row e) (r ∷ rows) ≡ true
      → last_id r.id rows ≡ e.id
      → IsCovered s [] last x
      → IsOnly db.objects x
      → (is_left last x ≡ true → Reached last (r ∷ rows) x)
      → IsCovered s (r ∷ rows) (last_id r.id rows) x
  unfolding IsIn
  covers last db r rows e x (sole, later) listed at covered only reach =
      elim (Bool-cases (is_done s x)) [
        | inl done ↦ ground (arith, done)
        | inr undone ↦ elim (reach (ground (arith, undone, covered))) [
          | inl found ↦ ground (arith, found)
          | inr not_before ↦ elim (Bool-cases (s.collation.less (last_id r.id rows) x.id)) [
            | inl beyond ↦
                let some_id : (last_id r.id rows == []) ≡ false =
                  rw at (after_nonempty s.collation order last e.id later) in
                ground (arith, beyond, some_id)
            | inr level ↦
                let same_id : x.id ≡ e.id =
                  order.total x.id (last_id r.id rows) not_before level ∙ at in
                let both : find (has_id x.id) db.objects ≡ some e = rw same_id sole in
                let same : e ≡ x = ground (arith, both, only) in
                let found : any (is_row x) (r ∷ rows) ≡ true =
                  subst (λ y. any (is_row y) (r ∷ rows) ≡ true) same listed in
                ground (arith, found)
          ]
        ]
      ]

  -- Once a page is read, each row is done, in the page or after it.
  pub page_of-IsCovered :
      (last : Text) (db : Db) (r : ObjectRow) (rows : List ObjectRow)
      → HasDistinctIds db.objects
      → All (IsCovered s [] last) db.objects
      → page_of s (needs_rotation s) last db.objects ≡ r ∷ rows
      → All (IsCovered s (r ∷ rows) (last_id r.id rows)) db.objects
  page_of-IsCovered last db r rows d all h =
      let within = subst (All (IsIn db last)) h (page_of-IsIn last db d) in
      let (e, isin, listed, at) = last_id-any (IsIn db last) r rows within in
      All-both (λ x. IsCovered s [] last x × IsOnly db.objects x)
        (λ x. is_left last x ≡ true → Reached last (r ∷ rows) x)
        (IsCovered s (r ∷ rows) (last_id r.id rows))
        (λ x (covered, only) reach. covers last db r rows e x isin listed at covered only reach)
        db.objects
        (All-both (IsCovered s [] last) (IsOnly db.objects)
          (λ x. IsCovered s [] last x × IsOnly db.objects x) (λ x p q. (p, q)) db.objects all
          (All-IsOnly db.objects d))
        (page_of-Reached last db r rows h)

  pub page_of_empty :
      (last : Text) (db : Db)
      → All (IsCovered s [] last) db.objects
      → page_of s (needs_rotation s) last db.objects ≡ []
      → All (λ (x : ObjectRow). is_done s x ≡ true) db.objects
  unfolding page_of
  page_of_empty last db all h =
      let left = keep (is_left last) db.objects in
      elim (List-cases (sort_rows s.collation.less left)) [
        | inr (x, rest, full) ↦
            let cut : x ∷ take 499 rest ≡ [] = ap (take page_size) (sym full) ∙ h in cc
        | inl empty ↦
            let none_left =
              All-of_keep (λ x. ⊥) (is_left last) db.objects
                (All-of_sort_rows (λ x. ⊥) s.collation.less left
                  (subst (All (λ (x : ObjectRow). ⊥)) (sym empty) tt)) in
            All-both (IsCovered s [] last) (λ x. is_left last x ≡ true → ⊥)
              (λ x. is_done s x ≡ true)
              (λ x covered not_left. elim (Bool-cases (is_done s x)) [
                | inl done ↦ done
                | inr undone ↦ absurd (not_left (ground (arith, undone, covered)))
              ])
              db.objects all none_left
      ]
