-- ===== src/Store/Pages/Ending.antt =====
-- The loops over pages end: an id is not read twice, and ids do not change.
use mathlib.Core.Path.{subst}
use sealbox.Base.{
  ℕ, zero, suc, ◌≡◌, ◌≢◌, refl, ◌∙◌, ◌≤◌, ◌<◌, Bool, true, ◌&&◌, Option, List, [], ◌∷◌, Text, Dict,
  Result, ok, keep, length, All, arith, Bool-cases, Result-cases, inl, inr, ◌⊎◌,
}
use sealbox.Envelope.{Bytes}
use sealbox.Store.Tables.{ObjectRow, Db, World, StoreError, Store, Collation, select_page}
use sealbox.Store.Read.{is_after, one_of}
use sealbox.Store.Maintain.{Outcome, rotate_row, reindex_row}
use sealbox.Store.Pages.{
  page_size, sort_rows, Tally, add_outcome, Rows, went, stopped, exhausted, delete_meanwhile,
  row_loop, page_loop, page_of, page_in, needs_rotation, needs_index, as_state, rotate_pages,
  rotate_index_key, rotate, reindex,
}
use sealbox.Store.Pages.Order.{
  IsOrder, after_trans, after_irrefl, keep-fewer, All-sort_rows, All-take, All-keep, All-listed,
  ids_of,
}
use sealbox.Store.Pages.Ids.{
  shred_where-ids, as_state-ids, reindex_row-ids, rotate_index_key-objects,
}

pub Rows-cases :
    {S : Type 0} (x : Rows S)
    → ((n : ℕ) × (last : Text) × (t : Tally) × (s : S) × (x ≡ went n last t s))
      ⊎ ((e : StoreError) × (t : Tally) × (s : S) × (x ≡ stopped e t s))
Rows-cases (went n last t s) = inl (n, last, t, s, refl)
Rows-cases (stopped e t s) = inr (e, t, s, refl)

-- A loop whose body and whose other clients leave a list of ids as it was.
module _ {S : Type 0} (body : ℕ → ObjectRow → S → Result StoreError Outcome × S)
    (others : ℕ → S → S) (ids : S → List Text)
    (body-ids : (n : ℕ) (r : ObjectRow) (s : S) → ids (body n r s).1 ≡ ids s)
    (others-ids : (n : ℕ) (s : S) → ids (others n s) ≡ ids s) where
  row_loop-step :
      (r : ObjectRow) (rows : List ObjectRow) (n n' : ℕ) (last last' : Text) (t t' : Tally)
      (s s' : S)
      → row_loop body others n last (r ∷ rows) t s ≡ went n' last' t' s'
      → (o : Outcome) × (row_loop body others
            (suc n)
            r.id
            rows
            (add_outcome o t)
            (body n r (others n s)).1
          ≡ went n' last' t' s')
        × (ids (body n r (others n s)).1 ≡ ids s)
  unfolding row_loop
  row_loop-step r rows n n' last last' t t' s s' h = elim (Result-cases (body n r (others n s)).0) [
    | inl (o, ran) ↦ (o, ground (arith, ran), body-ids n r (others n s) ∙ others-ids n s)
    | inr (e, fault) ↦ ground (arith, fault)
  ]

  pub row_loop-keeps :
      (P : Text → Type 0) (rows : List ObjectRow) (n n' : ℕ) (last last' : Text) (t t' : Tally)
      (s s' : S)
      → P last
      → All (λ (r : ObjectRow). P r.id) rows
      → row_loop body others n last rows t s ≡ went n' last' t' s'
      → P last' × (ids s' ≡ ids s)
  unfolding row_loop
  row_loop-keeps P [] n n' last last' t t' s s' at all h =
      let same : last ≡ last' = ground arith in (subst P same at, ground arith)
  row_loop-keeps P (r ∷ rows) n n' last last' t t' s s' at (here, all) h =
      let (o, rest, kept) = row_loop-step r rows n n' last last' t t' s s' h in
      let (found, same) =
        row_loop-keeps P rows (suc n) n' r.id last' (add_outcome o t) t' (body n r (others n s)).1
          s' here all rest in
      (found, same ∙ kept)

  module _ (c : Collation) (order : IsOrder c)
      (page : Text → S → Result StoreError (List ObjectRow))
      (read : (last : Text) (s : S) (rows : List ObjectRow)
        → page last s ≡ ok rows
        → All
            (λ (r : ObjectRow). (is_after c last r.id ≡ true) × (one_of (ids s) r.id ≡ true))
            rows) where
    pub page_loop-ends :
        (fuel n : ℕ) (last : Text) (t : Tally) (s : S)
        → length (keep (is_after c last) (ids s)) < fuel
        → page_loop body others page fuel n last t s ≢ exhausted
    unfolding page_loop
    page_loop-ends zero n last t s few h = omega arith
    page_loop-ends (suc fuel) n last t s few h = elim (Result-cases (page last s)) [
      | inr (e, fault) ↦ ground (arith, fault)
      | inl ([], done) ↦ ground (arith, done)
      | inl (r ∷ rows, got) ↦ elim (Rows-cases (row_loop body others n last (r ∷ rows) t s)) [
        | inl (n', last', t', s', ran) ↦
            let (here, all) = read last s (r ∷ rows) got in
            let (o, rest, kept) = row_loop-step r rows n n' last last' t t' s s' ran in
            let ((later, listed), same) =
              row_loop-keeps (λ x. (is_after c last x ≡ true) × (one_of (ids s) x ≡ true)) rows
                (suc n) n' r.id last' (add_outcome o t) t' (body n r (others n s)).1 s' here all
                rest in
            let fewer =
              keep-fewer (is_after c last) (is_after c last') last'
                (λ x h'. after_trans c order last last' x later h') later
                (after_irrefl c order last') (ids s) listed in
            let ids_same : ids s' ≡ ids s = same ∙ kept in
            let left : length (keep (is_after c last') (ids s')) < fuel =
              rw ids_same (omega arith) in
            page_loop-ends fuel n' last' t' s' left (ground (arith, got, ran))
        | inr (e, t', s', ran) ↦ ground (arith, got, ran)
      ]
    ]

length-keep : (p : Text → Bool) (xs : List Text) → length (keep p xs) ≤ length xs
length-keep p [] = omega arith
length-keep p (x ∷ xs) = elim (Bool-cases (p x)) [
  | inl passes ↦ ground (arith, passes, length-keep p xs)
  | inr drops ↦ ground (arith, drops, length-keep p xs)
]

length-ids_of : (rows : List ObjectRow) → length (ids_of rows) ≡ length rows
length-ids_of [] = refl
length-ids_of (r ∷ rows) = ground (arith, length-ids_of rows)

module _ (s : Store) where
  abbrev IsListed : List ObjectRow → Text → ObjectRow → Type 0
  IsListed rows last r =
      (is_after s.collation last r.id ≡ true) × (one_of (ids_of rows) r.id ≡ true)

  page_of-IsListed :
      (p : ObjectRow → Bool) (last : Text) (rows : List ObjectRow)
      → All (IsListed rows last) (page_of s p last rows)
  unfolding page_of
  page_of-IsListed p last rows =
      let test = λ (r : ObjectRow). p r && is_after s.collation last r.id in
      let kept =
        All-keep (IsListed rows last) test (λ r. one_of (ids_of rows) r.id ≡ true)
          (λ r h listed. (ground (arith, h), listed)) rows (All-listed rows) in
      All-take (IsListed rows last) page_size (sort_rows s.collation.less (keep test rows))
        (All-sort_rows (IsListed rows last) s.collation.less (keep test rows) kept)

  page_in-IsListed :
      (p : ObjectRow → Bool) (last : Text) (db : Db) (rows : List ObjectRow)
      → page_in s p last db ≡ ok rows
      → All (IsListed db.objects last) rows
  page_in-IsListed p last db rows h = elim (Bool-cases (s.fails (select_page last))) [
    | inl refused ↦ ground (arith, refused)
    | inr served ↦
        let same : page_of s p last db.objects ≡ rows = ground (arith, served) in
        subst (All (IsListed db.objects last)) same (page_of-IsListed p last db.objects)
  ]

  -- few ids are after one
  few_after :
      (last : Text) (rows : List ObjectRow) (fuel : ℕ)
      → length rows < fuel
      → length (keep (is_after s.collation last) (ids_of rows)) < fuel
  few_after last rows fuel few =
      let a = length-keep (is_after s.collation last) (ids_of rows) in
      let b = length-ids_of rows in omega arith

  -- Rotation ends: with one page more than there are rows, the loop over pages comes to an empty
  -- page or to an error, whatever the key services answer and whatever other clients delete.
  pub rotate_ends :
      (drawn : Bytes) (tape : ℕ → Bytes) (deletes : ℕ → ObjectRow → Bool) (fuel : ℕ) (db : Db)
      → IsOrder s.collation
      → length db.objects < fuel
      → rotate s drawn tape deletes fuel db ≢ exhausted
  unfolding rotate rotate_pages
  rotate_ends drawn tape deletes fuel db order few h =
      elim (Result-cases (rotate_index_key s drawn db)) [
        | inr (e, fault) ↦ ground (arith, fault)
        | inl ((n, db'), keyed) ↦
            let same = rotate_index_key-objects s drawn db db' n keyed in
            let few' : length db'.objects < fuel = rw same few in
            page_loop-ends (λ n r db. as_state (rotate_row s (tape n) r db) db)
              (λ n db. delete_meanwhile (deletes n) db) (λ db. ids_of db.objects)
              (λ n r db. as_state-ids s (tape n) r db)
              (λ n db. shred_where-ids (deletes n) db.objects) s.collation order
              (page_in s (needs_rotation s))
              (λ last db rows got. page_in-IsListed (needs_rotation s) last db rows got) fuel 0 []
              (record { done = n; skipped = 0 }) db' (few_after [] db'.objects fuel few')
              (ground (arith, keyed))
      ]

  -- Reindexing ends: with one page more than there are rows, the loop over pages comes to an empty
  -- page or to an error, whatever the objects open to and whatever other clients delete.
  pub reindex_ends :
      (actor collection : Text) (indexed : Text → Bytes → Option (Dict Text))
      (deletes : ℕ → ObjectRow → Bool) (fuel : ℕ) (w : World)
      → IsOrder s.collation
      → length w.db.objects < fuel
      → reindex s actor collection indexed deletes fuel w ≢ exhausted
  unfolding reindex
  reindex_ends actor collection indexed deletes fuel w order few =
      page_loop-ends (λ n r w. reindex_row s actor indexed r w)
        (λ n w. record w { db = delete_meanwhile (deletes n) w.db }) (λ w. ids_of w.db.objects)
        (λ n r w. reindex_row-ids s actor indexed r w)
        (λ n w. shred_where-ids (deletes n) w.db.objects) s.collation order
        (λ last w. page_in s (needs_index s collection) last w.db)
        (λ last w rows got. page_in-IsListed (needs_index s collection) last w.db rows got) fuel 0
        [] (record { done = 0; skipped = 0 }) w (few_after [] w.db.objects fuel few)
