-- ===== src/Store/Reads.antt =====
-- `GetMany` and `PutMany` against the abstract store.
use sealbox.Base.{
  ◌≡◌, refl, ◌∙◌, Option, none, some, List, [], ◌∷◌, map, Text, ◌==◌, eq_iff, Dict, lookup, insert,
  lookup-insert, Result, ok, Bool, true, false, ◌&&◌, keep, if◌then◌else◌, arith, Bool-cases,
  Option-cases, Result-cases, inl, inr,
}
use sealbox.Envelope.{Bytes, Error, Wrapper, Sealed, open_value, open_many}
use sealbox.Envelope.Local.{IsHonest}
use sealbox.Envelope.Batch.{open_many-open_value}
use sealbox.Store.Tables.{ObjectRow, Db, Store, select_objects, aad}
use sealbox.Store.Tx.{has_id}
use sealbox.Store.Read.{sealed_of, one_of, is_wanted, collect, get_many}
use sealbox.Store.Shred.{is_target}
use sealbox.Store.View.{
  find, view, HasDistinctIds, find-keep, find_congr, find-none_of_any, find-eq-some,
  HasDistinctIds-keep,
}

abbrev pub as_opened : Option Bytes → Option (Result Error Bytes)
as_opened none = none
as_opened (some p) = some (ok p)

-- What a found row contributes: its answer must be a plaintext.
abbrev entry_of :
    (ObjectRow → Result Error Bytes) → Option ObjectRow → Option Bytes → Option (Result Error Bytes)
entry_of f none old = as_opened old
entry_of f (some r) old = some (f r)

module _ (f : ObjectRow → Result Error Bytes) where
  lookup-collect :
      (rows : List ObjectRow) (found found' : Dict Bytes) (id : Text)
      → HasDistinctIds rows
      → collect rows (map f rows) found ≡ ok found'
      → entry_of f none (lookup id found') ≡ entry_of f (find (has_id id) rows) (lookup id found)
  unfolding collect
  lookup-collect [] found found' id d h = cc
  lookup-collect (r ∷ rows) found found' id d h = elim (Result-cases (f r)) [
    | inl (p, opened) ↦
        let ih = lookup-collect rows (insert r.id p found) found' id d.1 (ground (arith, opened)) in
        elim (Bool-cases (r.id == id)) [
          | inl same ↦
              let key : r.id ≡ id = (eq_iff r.id id).0 same in
              let gone : find (has_id id) rows ≡ none =
                find-none_of_any (has_id id) (has_id r.id) rows (λ q h. rw key h) d.0 in
              ground (arith, ih, gone, same, opened, lookup-insert r.id id p found)
          | inr other ↦ ground (arith, ih, other, lookup-insert r.id id p found)
        ]
    | inr (e, failed) ↦ ground (arith, failed)
  ]

one_of_same :
    (collection id : Text) (ids : List Text) (r : ObjectRow)
    → one_of ids id ≡ true
    → (has_id id r && is_wanted collection ids r) ≡ is_target collection id r
one_of_same collection id ids r h = elim (Bool-cases (r.id == id)) [
  | inl same ↦
      let listed : one_of ids r.id ≡ true = rw ((eq_iff r.id id).0 same) h in ground (arith, listed)
  | inr other ↦ rw other
]

one_of_other :
    (collection id : Text) (ids : List Text) (r : ObjectRow)
    → one_of ids id ≡ false
    → (has_id id r && is_wanted collection ids r) ≡ false
one_of_other collection id ids r h = elim (Bool-cases (r.id == id)) [
  | inl same ↦
      let unlisted : one_of ids r.id ≡ false = rw ((eq_iff r.id id).0 same) h in
      ground (arith, unlisted)
  | inr other ↦ rw other
]

find-none_of_all :
    (p : ObjectRow → Bool) (rows : List ObjectRow)
    → ((r : ObjectRow) → p r ≡ false)
    → find p rows ≡ none
find-none_of_all p [] h = refl
find-none_of_all p (r ∷ rows) h = ground (arith, h r, find-none_of_all p rows h)

module _ (s : Store) where
  abbrev opens : Text → ObjectRow → Result Error Bytes
  opens collection r = open_value s.aead s.env (sealed_of r) (aad collection r.id)

  find_wanted :
      (collection id : Text) (ids : List Text) (rows : List ObjectRow)
      → find (has_id id) (keep (is_wanted collection ids) rows)
        ≡ (if one_of ids id then find (is_target collection id) rows else none)
  find_wanted collection id ids rows = elim (Bool-cases (one_of ids id)) [
    | inl listed ↦ rw listed (
        find-keep (has_id id) (is_wanted collection ids) rows
        ∙ find_congr (λ r. has_id id r && is_wanted collection ids r) (is_target collection id) rows
            (λ r. one_of_same collection id ids r listed))
    | inr unlisted ↦ rw unlisted (
        find-keep (has_id id) (is_wanted collection ids) rows
        ∙ find-none_of_all (λ r. has_id id r && is_wanted collection ids r) rows
            (λ r. one_of_other collection id ids r unlisted))
  ]

  opens-map :
      (collection : Text) (rows : List ObjectRow)
      → map
          (λ (row : Sealed × Bytes). open_value s.aead s.env row.0 row.1)
          (map (λ (r : ObjectRow). (sealed_of r, aad collection r.id)) rows)
        ≡ map (opens collection) rows
  opens-map collection [] = refl
  opens-map collection (r ∷ rows) = cc (opens-map collection rows)

  found_view :
      (collection : Text) (ids : List Text) (db : Db) (id : Text)
      → entry_of
          (opens collection)
          (find (has_id id) (keep (is_wanted collection ids) db.objects))
          (lookup id [])
        ≡ (if one_of ids id then view s db collection id else none)
  unfolding view lookup
  found_view collection ids db id =
      let wanted = find_wanted collection id ids db.objects in
      elim (Bool-cases (one_of ids id)) [
        | inl listed ↦ elim (Option-cases (find (is_target collection id) db.objects)) [
          | inl missing ↦ ground (arith, wanted, listed, missing)
          | inr (r, there) ↦
              let target = find-eq-some (is_target collection id) db.objects r there in
              let named : r.id ≡ id = ground (arith, eq_iff r.id id) in
              ground (arith, wanted, listed, there, named)
        ]
        | inr unlisted ↦ ground (arith, wanted, unlisted)
      ]

  -- A successful `GetMany` returns, for each id that was asked for, what the abstract store has
  -- under the collection and the id, and nothing for any other id. So no live row that was asked
  -- for is left out, and none of them failed to open. Ids are distinct and the wrappers honest.
  pub get_many-view :
      (collection : Text) (ids : List Text) (db : Db) (found : Dict Bytes)
      → ((k : Text) (w : Wrapper) → lookup k s.env.all ≡ some w → IsHonest w)
      → HasDistinctIds db.objects
      → get_many s collection ids db ≡ ok found
      → (id : Text)
      → as_opened (lookup id found) ≡ (if one_of ids id then view s db collection id else none)
  unfolding get_many
  get_many-view collection ids db found honest distinct h id =
      let rows = keep (is_wanted collection ids) db.objects in
      let asked : List (Sealed × Bytes) =
        map (λ (r : ObjectRow). (sealed_of r, aad collection r.id)) rows in
      elim (Bool-cases (s.fails select_objects)) [
        | inl refused ↦ cc (h, refused)
        | inr served ↦ elim (Result-cases (open_many s.aead s.env asked)) [
          | inl (results, ran) ↦
              let answers : results ≡ map (opens collection) rows =
                open_many-open_value s.aead s.env asked results honest ran
                ∙ opens-map collection rows in
              let gathered : collect rows (map (opens collection) rows) [] ≡ ok found =
                rw (← answers) (ground (arith, served, ran)) in
              lookup-collect (opens collection) rows [] found id
                (HasDistinctIds-keep (is_wanted collection ids) db.objects distinct) gathered
              ∙ found_view collection ids db id
          | inr (e, failed) ↦ ground (arith, served, failed)
        ]
      ]
