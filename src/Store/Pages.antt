-- ===== src/Store/Pages.antt =====
-- `Rotate` and `Reindex`: pages of at most 500 rows, by id. Other clients may delete objects between
-- any two rows; `deletes` says which rows are gone before which step.
pub mod Order
mod Ids
pub mod Ending
mod Sorted
mod Covered
pub mod Reach
pub mod Complete
use sealbox.Base.{
  ℕ, zero, suc, ◌+◌, Option, none, some, List, [], ◌∷◌, map, Text, ◌==◌, Dict, Result, ok, err,
  Bool, true, false, ◌&&◌, ◌||◌, not, any, keep, take, if◌then◌else◌,
}
use sealbox.Envelope.{Bytes, Error, Sealed, rewrap, current_key_id, rewraps_in_place}
use sealbox.Store.Tables.{
  ObjectRow, KeyRow, Db, World, StoreError, database, read_index_key, update_index_key, select_page,
  Store, index_key_name, index_key_aad,
}
use sealbox.Store.Read.{is_after}
use sealbox.Store.Shred.{shred_where}
use sealbox.Store.Maintain.{Outcome, skipped, unchanged, changed, rotate_row, reindex_row}

abbrev pub page_size : ℕ
page_size = 500

-- `ORDER BY id`
unfoldable pub insert_row : (Text → Text → Bool) → ObjectRow → List ObjectRow → List ObjectRow
insert_row less x [] = x ∷ []
insert_row less x (y ∷ ys) =
    let later = y ∷ insert_row less x ys in if less y.id x.id then later else x ∷ y ∷ ys

unfoldable pub sort_rows : (Text → Text → Bool) → List ObjectRow → List ObjectRow
sort_rows less [] = []
sort_rows less (x ∷ xs) = insert_row less x (sort_rows less xs)

-- the counts that both return
pub record Tally : Type 0 where
  pub done : ℕ
  pub skipped : ℕ

abbrev pub add_outcome : Outcome → Tally → Tally
add_outcome skipped t = record t { skipped = suc t.skipped }
add_outcome unchanged t = t
add_outcome (changed n) t = record t { done = t.done + n }

-- A loop over the rows of a page went through, to a step and a last id, or stopped at an error.
pub data Rows (S : Type 0) : Type 0 where
  went : ℕ → Text → Tally → S → Rows S
  stopped : StoreError → Tally → S → Rows S

-- A run came to its end or to an error; `exhausted` is the model's own, when the fuel was not enough.
pub data Run (S : Type 0) : Type 0 where
  finished : Tally → S → Run S
  failed : StoreError → Tally → S → Run S
  exhausted : Run S

-- other clients delete the rows that pass a test
abbrev pub delete_meanwhile : (ObjectRow → Bool) → Db → Db
delete_meanwhile p db = record db { objects = shred_where p db.objects }

-- The loops, over a state `S`: the body for one row, the rows of the page after an id, and what
-- other clients do before a step.
module _ {S : Type 0} (body : ℕ → ObjectRow → S → Result StoreError Outcome × S)
    (others : ℕ → S → S) where
  -- `for _, r := range page`
  unfoldable pub row_loop : ℕ → Text → List ObjectRow → Tally → S → Rows S
  row_loop n last [] t s = went n last t s
  row_loop n last (r ∷ rows) t s =
      let (out, s') = body n r (others n s) in
      elim out [ err e ↦ stopped e t s' | ok o ↦ row_loop (suc n) r.id rows (add_outcome o t) s' ]

  -- `for { ... }`, until a page is empty
  unfoldable pub page_loop :
      (Text → S → Result StoreError (List ObjectRow)) → ℕ → ℕ → Text → Tally → S → Run S
  page_loop page zero n last t s = exhausted
  page_loop page (suc fuel) n last t s = elim (page last s) [
    | err e ↦ failed e t s
    | ok [] ↦ finished t s
    | ok (r ∷ rows) ↦ elim (row_loop n last (r ∷ rows) t s) [
      | stopped e t' s' ↦ failed e t' s'
      | went n' last' t' s' ↦ page_loop page fuel n' last' t' s'
    ]
  ]

abbrev pub as_state :
    {S : Type 0} → Result StoreError (Outcome × S) → S → Result StoreError Outcome × S
as_state (ok (o, s')) s = (ok o, s')
as_state (err e) s = (err e, s)

module _ (s : Store) where
  -- the page after an id of the rows that pass a test
  unfoldable pub page_of : (ObjectRow → Bool) → Text → List ObjectRow → List ObjectRow
  page_of p last rows =
      take page_size
        (sort_rows s.collation.less (keep (λ r. p r && is_after s.collation last r.id) rows))

  abbrev pub page_in : (ObjectRow → Bool) → Text → Db → Result StoreError (List ObjectRow)
  page_in p last db =
      if s.fails (select_page last) then err database else ok (page_of p last db.objects)

  -- `deleted_at IS NULL AND (key_id <> $1 OR $3)`
  abbrev pub needs_rotation : ObjectRow → Bool
  needs_rotation r =
      not r.deleted && (not (r.key_id == current_key_id s.env) || rewraps_in_place s.env)

  -- `deleted_at IS NULL AND (collection = $1 OR $1 = '')`
  abbrev pub needs_index : Text → ObjectRow → Bool
  needs_index collection r = not r.deleted && (r.collection == collection || collection == [])

  -- the pages of `Rotate`; the tape is the randomness of each row
  unfoldable pub rotate_pages : (ℕ → Bytes) → (ℕ → ObjectRow → Bool) → ℕ → Tally → Db → Run Db
  rotate_pages tape deletes fuel t db =
      page_loop (λ n r db. as_state (rotate_row s (tape n) r db) db)
        (λ n db. delete_meanwhile (deletes n) db) (page_in needs_rotation) fuel 0 [] t db

  abbrev pub is_index_key : KeyRow → Bool
  is_index_key k = k.name == index_key_name

  abbrev pub find_key : List KeyRow → Option KeyRow
  find_key [] = none
  find_key (k ∷ keys) = let rest = find_key keys in if is_index_key k then some k else rest

  -- `UPDATE keys ... WHERE name = $3 AND key_id = $4`
  unfoldable pub rekey_key : Text → Sealed → List KeyRow → List KeyRow
  rekey_key key_id re [] = []
  rekey_key key_id re (k ∷ keys) =
      (if is_index_key k && k.key_id == key_id
        then record k { key_id = re.key_id; wrapped_dek = re.wrapped_dek }
        else k)
      ∷ rekey_key key_id re keys

  unfoldable pub count_key : Text → List KeyRow → ℕ
  count_key key_id [] = 0
  count_key key_id (k ∷ keys) =
      let rest = count_key key_id keys in
      if is_index_key k && k.key_id == key_id then suc rest else rest

  -- the blind-index key, before the rows; how many rows it changed
  unfoldable pub rotate_index_key : Bytes → Db → Result StoreError (ℕ × Db)
  rotate_index_key drawn db =
      if s.fails read_index_key then err database else (elim (find_key db.keys) [
        | none ↦ err database
        | some k ↦
            elim (rewrap s.env drawn
              (record { key_id = k.key_id; wrapped_dek = k.wrapped_dek; ciphertext = k.ciphertext })
              index_key_aad) [
                | err e ↦ err (StoreError.envelope e)
                | ok (re, false) ↦ ok (0, db)
                | ok (re, true) ↦
                    if s.fails update_index_key
                    then err database
                    else ok (
                      count_key k.key_id db.keys,
                      record db { keys = rekey_key k.key_id re db.keys },
                    )
              ]
      ])

  -- `Rotate`
  unfoldable pub rotate : Bytes → (ℕ → Bytes) → (ℕ → ObjectRow → Bool) → ℕ → Db → Run Db
  rotate drawn tape deletes fuel db = elim (rotate_index_key drawn db) [
    | err e ↦ failed e (record { done = 0; skipped = 0 }) db
    | ok (n, db') ↦ rotate_pages tape deletes fuel (record { done = n; skipped = 0 }) db'
  ]

  -- `Reindex`
  unfoldable pub reindex :
      Text
      → Text
      → (Text → Bytes → Option (Dict Text))
      → (ℕ → ObjectRow → Bool)
      → ℕ
      → World
      → Run World
  reindex actor collection indexed deletes fuel w =
      page_loop (λ n r w. reindex_row s actor indexed r w)
        (λ n w. record w { db = delete_meanwhile (deletes n) w.db })
        (λ last w. page_in (needs_index collection) last w.db) fuel 0 []
        (record { done = 0; skipped = 0 }) w
