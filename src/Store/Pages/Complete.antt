-- ===== src/Store/Pages/Complete.antt =====
-- A rotation that ends without an error reads every row.
use mathlib.Core.Path.{subst}
use sealbox.Base.{
  ℕ, zero, suc, ◌≡◌, ◌≢◌, sym, ◌≤◌, Bool, true, false, ◌||◌, List, [], ◌∷◌, Text, ◌==◌, Result, All,
  arith, Bool-cases, Result-cases, inl, inr,
}
use sealbox.Envelope.{Bytes, current_key_id}
use sealbox.Store.Tables.{ObjectRow, Db, StoreError, Store, select_page}
use sealbox.Store.View.{HasDistinctIds}
use sealbox.Store.Maintain.{Outcome, skipped, unchanged, changed, rotate_row}
use sealbox.Store.Pages.{
  Tally, add_outcome, went, finished, delete_meanwhile, row_loop, page_loop, page_of, page_in,
  needs_rotation, as_state, rotate_pages, rotate_index_key, rotate,
}
use sealbox.Store.Pages.Order.{IsOrder, ids_of}
use sealbox.Store.Pages.Ids.{as_state-ids, shred_where-ids, rotate_index_key-objects}
use sealbox.Store.Pages.Ending.{Rows-cases, row_loop-keeps}
use sealbox.Store.Pages.Sorted.{last_id}
use sealbox.Store.Pages.Covered.{IsCovered, is_done, shred_where-IsCovered, rotate_row-IsCovered}
use sealbox.Store.Pages.Reach.{List-cases, same_distinct, page_of-IsCovered, page_of_empty}

All-units : (rows : List ObjectRow) → All (λ (r : ObjectRow). Unit {0}) rows
All-units [] = tt
All-units (r ∷ rows) = (tt, All-units rows)

add_outcome_skips : (o : Outcome) (t : Tally) → t.skipped ≤ (add_outcome o t).skipped
add_outcome_skips skipped t = omega arith
add_outcome_skips unchanged t = omega arith
add_outcome_skips (changed k) t = omega arith

add_outcome_quiet :
    (o : Outcome) (t : Tally) → (add_outcome o t).skipped ≡ 0 → (t.skipped ≡ 0) × (o ≢ skipped)
add_outcome_quiet skipped t h = omega arith
add_outcome_quiet unchanged t h = (h, λ e. ground arith)
add_outcome_quiet (changed k) t h = (h, λ e. ground arith)

module _ (s : Store) (order : IsOrder s.collation) (tape : ℕ → Bytes)
    (deletes : ℕ → ObjectRow → Bool) where
  abbrev body : ℕ → ObjectRow → Db → Result StoreError Outcome × Db
  body n r db = as_state (rotate_row s (tape n) r db) db

  abbrev others : ℕ → Db → Db
  others n db = delete_meanwhile (deletes n) db

  row_loop_skips :
      (rows : List ObjectRow) (n n' : ℕ) (last last' : Text) (t t' : Tally) (db db' : Db)
      → row_loop body others n last rows t db ≡ went n' last' t' db'
      → t.skipped ≤ t'.skipped
  unfolding row_loop
  row_loop_skips [] n n' last last' t t' db db' h = ground (arith, h)
  row_loop_skips (r ∷ rows) n n' last last' t t' db db' h =
      elim (Result-cases (rotate_row s (tape n) r (others n db))) [
        | inr (e, fault) ↦ ground (arith, fault, h)
        | inl ((o, next), ran) ↦
            let rest : row_loop body others (suc n) r.id rows (add_outcome o t) next
                ≡ went n' last' t' db' =
              ground (arith, ran, h) in
            let more =
              row_loop_skips rows (suc n) n' r.id last' (add_outcome o t) t' next db' rest in
            let grows = add_outcome_skips o t in omega arith
      ]

  row_loop-IsCovered :
      (rows : List ObjectRow) (n n' : ℕ) (last last' end : Text) (t t' : Tally) (db db' : Db)
      → t'.skipped ≡ 0
      → row_loop body others n last rows t db ≡ went n' last' t' db'
      → All (IsCovered s rows end) db.objects
      → All (IsCovered s [] end) db'.objects × (last' ≡ last_id last rows) × (t.skipped ≡ 0)
  unfolding row_loop
  row_loop-IsCovered [] n n' last last' end t t' db db' none_left h all =
      let same : db.objects ≡ db'.objects = ground arith in
      (subst (All (IsCovered s [] end)) same all, ground arith, ground arith)
  row_loop-IsCovered (r ∷ rows) n n' last last' end t t' db db' none_left h all =
      let still = shred_where-IsCovered s (r ∷ rows) end (deletes n) db.objects all in
      elim (Result-cases (rotate_row s (tape n) r (others n db))) [
        | inr (e, fault) ↦ ground (arith, fault, h)
        | inl ((o, next), ran) ↦
            let rest : row_loop body others (suc n) r.id rows (add_outcome o t) next
                ≡ went n' last' t' db' =
              ground (arith, ran, h) in
            let more =
              row_loop_skips rows (suc n) n' r.id last' (add_outcome o t) t' next db' rest in
            let (quiet, kept) = add_outcome_quiet o t (omega arith) in
            let covered =
              rotate_row-IsCovered s (tape n) r rows end (others n db) next o kept ran still in
            let (all', at, _) =
              row_loop-IsCovered rows (suc n) n' r.id last' end (add_outcome o t) t' next db'
                none_left rest covered in
            (all', at, quiet)
      ]

  abbrev page : Text → Db → Result StoreError (List ObjectRow)
  page last db = page_in s (needs_rotation s) last db

  page_loop_skips :
      (fuel n : ℕ) (last : Text) (t t' : Tally) (db db' : Db)
      → page_loop body others page fuel n last t db ≡ finished t' db'
      → t.skipped ≤ t'.skipped
  unfolding page_loop
  page_loop_skips zero n last t t' db db' h = ground arith
  page_loop_skips (suc fuel) n last t t' db db' h = elim (Result-cases (page last db)) [
    | inr (e, fault) ↦ ground (arith, fault, h)
    | inl ([], done) ↦ ground (arith, done, h)
    | inl (r ∷ rows, got) ↦ elim (Rows-cases (row_loop body others n last (r ∷ rows) t db)) [
      | inr (e, t1, db1, ran) ↦ ground (arith, got, ran, h)
      | inl (n1, last1, t1, db1, ran) ↦
          let first = row_loop_skips (r ∷ rows) n n1 last last1 t t1 db db1 ran in
          let rest = page_loop_skips fuel n1 last1 t1 t' db1 db' (ground (arith, got, ran, h)) in
          omega arith
    ]
  ]

  row_loop-HasDistinctIds :
      (rows : List ObjectRow) (n n' : ℕ) (last last' : Text) (t t' : Tally) (db db' : Db)
      → HasDistinctIds db.objects
      → row_loop body others n last rows t db ≡ went n' last' t' db'
      → HasDistinctIds db'.objects
  row_loop-HasDistinctIds rows n n' last last' t t' db db' d h =
      let (_, same) =
        row_loop-keeps body others (λ db. ids_of db.objects)
          (λ n r db. as_state-ids s (tape n) r db) (λ n db. shred_where-ids (deletes n) db.objects)
          (λ x. Unit {0}) rows n n' last last' t t' db db' tt (All-units rows) h in
      same_distinct db.objects db'.objects same d

  page_loop-done :
      (fuel n : ℕ) (last : Text) (t t' : Tally) (db db' : Db)
      → HasDistinctIds db.objects
      → All (IsCovered s [] last) db.objects
      → page_loop body others page fuel n last t db ≡ finished t' db'
      → t'.skipped ≡ 0
      → All (λ (x : ObjectRow). is_done s x ≡ true) db'.objects
  unfolding page_loop
  page_loop-done zero n last t t' db db' d all h quiet = ground arith
  page_loop-done (suc fuel) n last t t' db db' d all h quiet =
      elim (Bool-cases (s.fails (select_page last))) [
        | inl refused ↦ ground (arith, refused, h)
        | inr served ↦ elim (List-cases (page_of s (needs_rotation s) last db.objects)) [
          | inl empty ↦
              let same : db.objects ≡ db'.objects = ground (arith, served, empty, h) in
              subst (All (λ (x : ObjectRow). is_done s x ≡ true)) same
                (page_of_empty s order last db all empty)
          | inr (r, rows, full) ↦ elim (Rows-cases (row_loop body others n last (r ∷ rows) t db)) [
            | inr (e, t1, db1, ran) ↦ ground (arith, served, full, ran, h)
            | inl (n1, last1, t1, db1, ran) ↦
                let rest : page_loop body others page fuel n1 last1 t1 db1 ≡ finished t' db' =
                  ground (arith, served, full, ran, h) in
                let more = page_loop_skips fuel n1 last1 t1 t' db1 db' rest in
                let covered = page_of-IsCovered s order last db r rows d all full in
                let (all1, at, _) =
                  row_loop-IsCovered (r ∷ rows) n n1 last last1 (last_id r.id rows) t t1 db db1
                    (omega arith) ran covered in
                page_loop-done fuel n1 last1 t1 t' db1 db'
                  (row_loop-HasDistinctIds (r ∷ rows) n n1 last last1 t t1 db db1 d ran)
                  (subst (λ x. All (IsCovered s [] x) db1.objects) (sym at) all1) rest quiet
          ]
        ]
      ]

module _ (s : Store) where
  all_to_come :
      (rows : List ObjectRow)
      → All (λ (x : ObjectRow). (x.id == []) ≡ false) rows
      → All (IsCovered s [] []) rows
  unfolding ◌==◌
  all_to_come [] all = tt
  all_to_come (x ∷ rows) (here, all) = (ground (arith, here), all_to_come rows all)

  -- Rotation is complete: when it ends without an error and without having skipped a row, each row is
  -- deleted or under the current wrapping key, whatever other clients deleted between any two rows. Ids are
  -- distinct and not empty.
  pub rotate_done :
      (drawn : Bytes) (tape : ℕ → Bytes) (deletes : ℕ → ObjectRow → Bool) (fuel : ℕ) (t : Tally)
      (db db' : Db)
      → IsOrder s.collation
      → HasDistinctIds db.objects
      → All (λ (x : ObjectRow). (x.id == []) ≡ false) db.objects
      → rotate s drawn tape deletes fuel db ≡ finished t db'
      → t.skipped ≡ 0
      → All (λ (x : ObjectRow). (x.deleted || x.key_id == current_key_id s.env) ≡ true) db'.objects
  unfolding rotate rotate_pages
  rotate_done drawn tape deletes fuel t db db' order d named h quiet =
      elim (Result-cases (rotate_index_key s drawn db)) [
        | inr (e, fault) ↦ ground (arith, fault, h)
        | inl ((n, mid), keyed) ↦
            let same = rotate_index_key-objects s drawn db mid n keyed in
            page_loop-done s order tape deletes fuel 0 [] (record { done = n; skipped = 0 }) t mid
              db' (subst HasDistinctIds (sym same) d)
              (all_to_come mid.objects
                (subst (All (λ (x : ObjectRow). (x.id == []) ≡ false)) (sym same) named))
              (ground (arith, keyed, h)) quiet
      ]
