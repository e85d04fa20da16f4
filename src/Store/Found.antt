-- ===== src/Store/Found.antt =====
-- What `Search` finds.
use mathlib.Core.Path.{subst}
use sealbox.Base.{
  ℕ, zero, suc, ◌≡◌, refl, ap, ◌∙◌, sym, ◌≤◌, ◌<◌, Bool, true, ◌&&◌, ok, List, [], ◌∷◌, map, Text,
  ◌==◌, eq_refl, keep, take, any, length, All, All-mono, arith, Bool-cases, inl, inr,
}
use sealbox.Store.Tables.{IndexRow, Db, Store, select_index}
use sealbox.Store.Read.{insert_sorted, sort, search, search_page, is_match, one_of}

-- What all of a list of texts has, its sorted copy has; and the other way round.
module _ (Q : Text → Type 0) where
  All-insert_sorted :
      (less : Text → Text → Bool) (x : Text) (xs : List Text)
      → Q x
      → All Q xs
      → All Q (insert_sorted less x xs)
  unfolding insert_sorted
  All-insert_sorted less x [] q all = (q, tt)
  All-insert_sorted less x (y ∷ xs) q (here, all) = elim (Bool-cases (less y x)) [
    | inl later ↦ rw later (here, All-insert_sorted less x xs q all)
    | inr sooner ↦ rw sooner (q, (here, all))
  ]

  All-sort : (less : Text → Text → Bool) (xs : List Text) → All Q xs → All Q (sort less xs)
  unfolding sort
  All-sort less [] all = tt
  All-sort less (x ∷ xs) (here, all) =
      All-insert_sorted less x (sort less xs) here (All-sort less xs all)

  All-of_insert_sorted :
      (less : Text → Text → Bool) (x : Text) (xs : List Text)
      → All Q (insert_sorted less x xs)
      → Q x × All Q xs
  unfolding insert_sorted
  All-of_insert_sorted less x [] all = all
  All-of_insert_sorted less x (y ∷ xs) all = elim (Bool-cases (less y x)) [
    | inl later ↦
        let same : insert_sorted less x (y ∷ xs) ≡ y ∷ insert_sorted less x xs =
          ground (arith, later) in
        let (here, rest) = subst (All Q) same all in
        let (mine, there) = All-of_insert_sorted less x xs rest in (mine, (here, there))
    | inr sooner ↦
        let same : insert_sorted less x (y ∷ xs) ≡ x ∷ y ∷ xs = ground (arith, sooner) in
        subst (All Q) same all
  ]

  All-of_sort : (less : Text → Text → Bool) (xs : List Text) → All Q (sort less xs) → All Q xs
  unfolding sort
  All-of_sort less [] all = tt
  All-of_sort less (x ∷ xs) all =
      let (here, rest) = All-of_insert_sorted less x (sort less xs) all in
      (here, All-of_sort less xs rest)

  All-take_texts : (n : ℕ) (xs : List Text) → All Q xs → All Q (take n xs)
  All-take_texts zero xs all = tt
  All-take_texts (suc n) [] all = tt
  All-take_texts (suc n) (x ∷ xs) (here, all) = (here, All-take_texts n xs all)

take_all : (n : ℕ) (xs : List Text) → length (take n xs) < n → take n xs ≡ xs
take_all zero xs h = absurd (omega arith)
take_all (suc n) [] h = refl
take_all (suc n) (x ∷ xs) h = ap (λ ys. x ∷ ys) (take_all n xs (omega arith))

length-take : (n : ℕ) (xs : List Text) → length (take n xs) ≤ n
length-take zero xs = omega arith
length-take (suc n) [] = omega arith
length-take (suc n) (x ∷ xs) = let h = length-take n xs in omega arith

abbrev names_row : (IndexRow → Bool) → List IndexRow → Text → Bool
names_row p rows id = any (λ r. p r && r.object_id == id) rows

-- the ids of the rows that a test keeps
All-named :
    (p : IndexRow → Bool) (rows : List IndexRow)
    → All (λ id. names_row p rows id ≡ true) (map (λ (r : IndexRow). r.object_id) (keep p rows))
All-named p [] = tt
All-named p (r ∷ rows) =
    let more =
      All-mono (λ id. names_row p rows id ≡ true) (λ id. names_row p (r ∷ rows) id ≡ true)
        (λ id h. ground (arith, h)) (map (λ (x : IndexRow). x.object_id) (keep p rows))
        (All-named p rows) in
    elim (Bool-cases (p r)) [
      | inl passes ↦
          let same : r.object_id ∷ map (λ (x : IndexRow). x.object_id) (keep p rows)
              ≡ map (λ (x : IndexRow). x.object_id) (keep p (r ∷ rows)) =
            ground (arith, passes) in
          subst (All (λ id. names_row p (r ∷ rows) id ≡ true)) same
            (ground (arith, passes, eq_refl r.object_id), more)
      | inr drops ↦
          let same : map (λ (x : IndexRow). x.object_id) (keep p rows)
              ≡ map (λ (x : IndexRow). x.object_id) (keep p (r ∷ rows)) =
            ground (arith, drops) in
          subst (All (λ id. names_row p (r ∷ rows) id ≡ true)) same more
    ]

-- each kept row has a listed id
All-kept :
    (p : IndexRow → Bool) (ids : List Text) (rows : List IndexRow)
    → All (λ id. one_of ids id ≡ true) (map (λ (r : IndexRow). r.object_id) (keep p rows))
    → All (λ (r : IndexRow). p r ≡ true → one_of ids r.object_id ≡ true) rows
All-kept p ids [] all = tt
All-kept p ids (r ∷ rows) all = elim (Bool-cases (p r)) [
  | inl passes ↦
      let same : map (λ (x : IndexRow). x.object_id) (keep p (r ∷ rows))
          ≡ r.object_id ∷ map (λ (x : IndexRow). x.object_id) (keep p rows) =
        ground (arith, passes) in
      let (here, rest) = subst (All (λ id. one_of ids id ≡ true)) same all in
      ((λ h. here), All-kept p ids rows rest)
  | inr drops ↦
      let same : map (λ (x : IndexRow). x.object_id) (keep p (r ∷ rows))
          ≡ map (λ (x : IndexRow). x.object_id) (keep p rows) =
        ground (arith, drops) in
      (
        (λ h. ground (arith, drops, h)),
        All-kept p ids rows (subst (All (λ id. one_of ids id ≡ true)) same all),
      )
]

All-one_of : (ids : List Text) → All (λ id. one_of ids id ≡ true) ids
All-one_of [] = tt
All-one_of (id ∷ ids) = (
  ground (arith, eq_refl id),
  All-mono (λ x. one_of ids x ≡ true) (λ x. one_of (id ∷ ids) x ≡ true) (λ x h. ground (arith, h))
      ids (All-one_of ids),
)

module _ (s : Store) where
  -- A page of a search has at most 100 ids, each that of a matching index row after the given id;
  -- and if it is not full, it has the id of every such row.
  pub search-eq-ok :
      (collection field normalized after : Text) (db : Db) (ids : List Text)
      → search s collection field normalized after db ≡ ok ids
      → (length ids ≤ search_page)
        × All
            (λ id.
              any
                (λ r. is_match s collection field normalized after r && r.object_id == id)
                db.blind_index
              ≡ true)
            ids
        × (length ids < search_page
            → All
                (λ (r : IndexRow).
                  is_match s collection field normalized after r ≡ true
                  → one_of ids r.object_id ≡ true)
                db.blind_index)
  unfolding search
  search-eq-ok collection field normalized after db ids h =
      let test = is_match s collection field normalized after in
      let hits = map (λ (r : IndexRow). r.object_id) (keep test db.blind_index) in
      let sorted = sort s.collation.less hits in
      elim (Bool-cases (s.fails select_index)) [
        | inl refused ↦ ground (arith, refused, h)
        | inr served ↦
            let same : take search_page sorted ≡ ids = ground (arith, served, h) in
            (
              subst (λ (xs : List Text). length xs ≤ search_page) same
                  (length-take search_page sorted),
              subst (All (λ id. names_row test db.blind_index id ≡ true)) same (
                  All-take_texts (λ id. names_row test db.blind_index id ≡ true) search_page sorted
                    (All-sort (λ id. names_row test db.blind_index id ≡ true) s.collation.less hits
                      (All-named test db.blind_index))),
              λ short.
                  let whole : sorted ≡ ids =
                    sym (
                      take_all search_page sorted
                        (subst (λ (xs : List Text). length xs < search_page) (sym same) short))
                    ∙ same in
                  All-kept test ids db.blind_index (
                    All-of_sort (λ id. one_of ids id ≡ true) s.collation.less hits
                      (subst (All (λ id. one_of ids id ≡ true)) (sym whole) (All-one_of ids))),
            )
      ]
