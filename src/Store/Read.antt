-- ===== src/Store/Read.antt =====
-- `GetMany`, `Search` and `Subject`.
use sealbox.Base.{
  ℕ, Option, none, some, List, [], ◌∷◌, map, Text, ◌==◌, Dict, insert, Result, ok, err, ◌>>=◌, Bool,
  false, ◌&&◌, ◌||◌, not, any, keep, take, if◌then◌else◌,
}
use sealbox.Envelope.{Bytes, Error, Sealed, open_many}
use sealbox.Store.Tables.{
  ObjectRow, IndexRow, Db, Ref, StoreError, database, select_objects, select_index, select_subject,
  Store, Collation, aad, hash,
}

-- `id > $1`: every text but the empty one is after the empty one
abbrev pub is_after : Collation → Text → Text → Bool
is_after c last id = if last == [] then not (id == []) else c.less last id

abbrev pub search_page : ℕ
search_page = 100

-- a NULL key is read as a nil slice
abbrev pub or_nil : Option Bytes → Bytes
or_nil none = []
or_nil (some k) = k

abbrev pub sealed_of : ObjectRow → Sealed
sealed_of r = record {
  key_id = r.key_id;
  wrapped_dek = or_nil r.wrapped_dek;
  ciphertext = r.ciphertext;
}

abbrev pub one_of : List Text → Text → Bool
one_of ids id = any (λ i. i == id) ids

-- `WHERE collection = $1 AND id = ANY($2) AND deleted_at IS NULL`
abbrev pub is_wanted : Text → List Text → ObjectRow → Bool
is_wanted collection ids r = r.collection == collection && one_of ids r.id && not r.deleted

-- `ORDER BY` an order on texts
unfoldable pub insert_sorted : (Text → Text → Bool) → Text → List Text → List Text
insert_sorted less x [] = x ∷ []
insert_sorted less x (y ∷ ys) =
    let later = y ∷ insert_sorted less x ys in if less y x then later else x ∷ y ∷ ys

unfoldable pub sort : (Text → Text → Bool) → List Text → List Text
sort less [] = []
sort less (x ∷ xs) = insert_sorted less x (sort less xs)

-- `ORDER BY collection, id`
abbrev pub ref_less : (Text → Text → Bool) → Ref → Ref → Bool
ref_less less a b =
    less a.collection b.collection || (a.collection == b.collection && less a.id b.id)

unfoldable pub insert_ref : (Text → Text → Bool) → Ref → List Ref → List Ref
insert_ref less x [] = x ∷ []
insert_ref less x (y ∷ ys) =
    let later = y ∷ insert_ref less x ys in if ref_less less y x then later else x ∷ y ∷ ys

unfoldable pub sort_refs : (Text → Text → Bool) → List Ref → List Ref
sort_refs less [] = []
sort_refs less (x ∷ xs) = insert_ref less x (sort_refs less xs)

-- the loop over the opened rows: one that does not open is an error
unfoldable pub collect :
    List ObjectRow → List (Result Error Bytes) → Dict Bytes → Result StoreError (Dict Bytes)
collect [] results found = ok found
collect (r ∷ rows) [] found = err (StoreError.envelope Error.index_panic)
collect (r ∷ rows) (ok p ∷ results) found = collect rows results (insert r.id p found)
collect (r ∷ rows) (err e ∷ results) found = err (StoreError.envelope e)

abbrev pub of_envelope : {A : Type 0} → Result Error A → Result StoreError A
of_envelope (ok a) = ok a
of_envelope (err e) = err (StoreError.envelope e)

-- `WHERE subject_id = $1 AND deleted_at IS NULL`
abbrev pub is_about : Text → ObjectRow → Bool
is_about subject r = elim r.subject_id [ none ↦ false | some x ↦ x == subject ] && not r.deleted

abbrev pub ref_of : ObjectRow → Ref
ref_of r = record { collection = r.collection; id = r.id }

module _ (s : Store) where
  -- `GetMany`; it reads one snapshot of the tables
  unfoldable pub get_many : Text → List Text → Db → Result StoreError (Dict Bytes)
  get_many collection ids db =
      if s.fails select_objects
      then err database
      else (let rows = keep (is_wanted collection ids) db.objects in
          of_envelope (
            open_many s.aead s.env
              (map (λ (r : ObjectRow). (sealed_of r, aad collection r.id)) rows))
          >>= λ results. collect rows results [])

  -- `WHERE collection = $1 AND field = $2 AND hash = $3 AND object_id > $4`
  abbrev pub is_match : Text → Text → Text → Text → IndexRow → Bool
  is_match collection field normalized after r =
      r.collection == collection
      && r.field == field
      && r.hash == hash s collection field normalized
      && is_after s.collation after r.object_id

  -- `Search`
  unfoldable pub search : Text → Text → Text → Text → Db → Result StoreError (List Text)
  search collection field normalized after db =
      if s.fails select_index
      then err database
      else ok (
          take search_page (
            sort s.collation.less (
              map (λ (r : IndexRow). r.object_id)
                (keep (is_match collection field normalized after) db.blind_index))))

  -- `Subject`
  unfoldable pub subject : Text → Db → Result StoreError (List Ref)
  subject subject_id db =
      if s.fails (select_subject subject_id)
      then err database
      else ok (sort_refs s.collation.less (map ref_of (keep (is_about subject_id) db.objects)))
