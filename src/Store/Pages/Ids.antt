-- ===== src/Store/Pages/Ids.antt =====
-- The steps of `Rotate` and `Reindex`, and the deletes of other clients, leave the ids as they were.
use sealbox.Base.{
  ℕ, ◌≡◌, refl, ap, Bool, true, false, Option, List, [], ◌∷◌, Text, Dict, ok, arith, Bool-cases,
  Option-cases, Result-cases, inl, inr,
}
use sealbox.Envelope.{Bytes, Sealed, rewrap, open_value}
use sealbox.Store.Tables.{
  ObjectRow, Db, World, Store, aad, update_key, read_index_key, update_index_key, index_key_aad,
}
use sealbox.Store.Read.{or_nil, sealed_of}
use sealbox.Store.Shred.{shred_where}
use sealbox.Store.Maintain.{
  Outcome, is_bad_row, is_unmoved, rekey_where, rotate_row, rewrite_index, reindex_row,
}
use sealbox.Store.Upkeep.{rewrite_index-objects}
use sealbox.Store.Pages.{as_state, rotate_index_key, find_key}
use sealbox.Store.Pages.Order.{ids_of}

pub shred_where-ids :
    (p : ObjectRow → Bool) (rows : List ObjectRow) → ids_of (shred_where p rows) ≡ ids_of rows
unfolding shred_where
shred_where-ids p [] = refl
shred_where-ids p (r ∷ rows) = ground (arith, shred_where-ids p rows)

rekey_where-ids :
    (p : ObjectRow → Bool) (re : Sealed) (rows : List ObjectRow)
    → ids_of (rekey_where p re rows) ≡ ids_of rows
unfolding rekey_where
rekey_where-ids p re [] = refl
rekey_where-ids p re (r ∷ rows) = ground (arith, rekey_where-ids p re rows)

module _ (s : Store) where
  rotate_row-ids :
      (drawn : Bytes) (r : ObjectRow) (db last : Db) (o : Outcome)
      → rotate_row s drawn r db ≡ ok (o, last)
      → ids_of last.objects ≡ ids_of db.objects
  unfolding rotate_row
  rotate_row-ids drawn r db last o h =
      let row : Sealed = record {
        key_id = r.key_id;
        wrapped_dek = or_nil r.wrapped_dek;
        ciphertext = [];
      } in
      elim (Result-cases (rewrap s.env drawn row (aad r.collection r.id))) [
        | inl ((re, true), done) ↦ elim (Bool-cases (s.fails (update_key r.id))) [
          | inl refused ↦ ground (arith, done, refused)
          | inr served ↦
              ground (arith, done, served, rekey_where-ids (is_unmoved r.id r.key_id) re db.objects)
        ]
        | inl ((re, false), done) ↦ ground (arith, done)
        | inr (e, fault) ↦ elim (Bool-cases (is_bad_row e)) [
          | inl bad ↦ ground (arith, fault, bad)
          | inr stop ↦ ground (arith, fault, stop)
        ]
      ]

  pub as_state-ids :
      (drawn : Bytes) (r : ObjectRow) (db : Db)
      → ids_of (as_state (rotate_row s drawn r db) db).1.objects ≡ ids_of db.objects
  as_state-ids drawn r db = elim (Result-cases (rotate_row s drawn r db)) [
    | inl ((o, last), ran) ↦ ground (arith, ran, rotate_row-ids drawn r db last o ran)
    | inr (e, fault) ↦ ground (arith, fault)
  ]

  pub reindex_row-ids :
      (actor : Text) (indexed : Text → Bytes → Option (Dict Text)) (r : ObjectRow) (w : World)
      → ids_of (reindex_row s actor indexed r w).1.db.objects ≡ ids_of w.db.objects
  unfolding reindex_row
  reindex_row-ids actor indexed r w =
      elim (Result-cases (open_value s.aead s.env (sealed_of r) (aad r.collection r.id))) [
        | inr (e, fault) ↦ elim (Bool-cases (is_bad_row e)) [
          | inl bad ↦ ground (arith, fault, bad)
          | inr stop ↦ ground (arith, fault, stop)
        ]
        | inl (p, opened) ↦ elim (Option-cases (indexed r.collection p)) [
          | inl unread ↦ ground (arith, opened, unread)
          | inr (values, known) ↦
              let same = ap ids_of (rewrite_index-objects s actor r.collection r.id values w) in
              elim (Result-cases (rewrite_index s actor r.collection r.id values w).0) [
                | inl (u, done) ↦ ground (arith, opened, known, done, same)
                | inr (e, fault) ↦ ground (arith, opened, known, fault, same)
              ]
        ]
      ]

  pub rotate_index_key-objects :
      (drawn : Bytes) (db db' : Db) (n : ℕ)
      → rotate_index_key s drawn db ≡ ok (n, db')
      → db'.objects ≡ db.objects
  unfolding rotate_index_key
  rotate_index_key-objects drawn db db' n h = elim (Bool-cases (s.fails read_index_key)) [
    | inl refused ↦ ground (arith, refused)
    | inr served ↦ elim (Option-cases (find_key s db.keys)) [
      | inl lacks ↦ ground (arith, served, lacks)
      | inr (k, found) ↦
          elim (Result-cases (
            rewrap s.env drawn
              (record { key_id = k.key_id; wrapped_dek = k.wrapped_dek; ciphertext = k.ciphertext })
              index_key_aad)) [
                | inr (e, fault) ↦ ground (arith, served, found, fault)
                | inl ((re, false), done) ↦ ground (arith, served, found, done)
                | inl ((re, true), done) ↦ elim (Bool-cases (s.fails update_index_key)) [
                  | inl refused ↦ ground (arith, served, found, done, refused)
                  | inr written ↦ ground (arith, served, found, done, written)
                ]
              ]
    ]
  ]
