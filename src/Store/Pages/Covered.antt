-- ===== src/Store/Pages/Covered.antt =====
-- What is left to do for a row while a page of `Rotate` is worked on, and one step of it.
use mathlib.Core.Path.{subst}
use sealbox.Base.{
  ◌≡◌, ◌≢◌, refl, ◌∙◌, Bool, true, false, ◌||◌, List, [], ◌∷◌, Text, ◌==◌, eq_iff, eq_refl, ok, any,
  All, All-mono, arith, Bool-cases, Option-cases, Result-cases, inl, inr,
}
use sealbox.Envelope.{Bytes, Envelope, Sealed, rewrap, rewrap_in_place, unwrap, current_key_id}
use sealbox.Store.Tables.{ObjectRow, Db, Store, aad, update_key}
use sealbox.Store.Read.{is_after, or_nil}
use sealbox.Store.Shred.{shred_where}
use sealbox.Store.Maintain.{Outcome, skipped, is_bad_row, is_unmoved, rekey_where, rotate_row}
use sealbox.Store.Pages.Sorted.{is_row}

rewrap_in_place-key :
    (e : Envelope) (s re : Sealed) (aad : Bytes) (b : Bool)
    → rewrap_in_place e s aad ≡ ok (re, b)
    → re.key_id ≡ s.key_id
unfolding rewrap_in_place
rewrap_in_place-key e s re aad b h = elim (Option-cases e.current.rewrap) [
  | inl absent ↦ ground (arith, absent)
  | inr (r, there) ↦ elim (Result-cases (r s.wrapped_dek aad)) [
    | inl ((wrapped, true), did) ↦ ground (arith, there, did)
    | inl ((wrapped, false), did) ↦ ground (arith, there, did)
    | inr (e', fault) ↦ ground (arith, there, fault)
  ]
]

-- A key that was re-wrapped, or need not be, is under the current wrapping key.
rewrap-key :
    (e : Envelope) (drawn : Bytes) (s re : Sealed) (aad : Bytes) (b : Bool)
    → rewrap e drawn s aad ≡ ok (re, b)
    → (re.key_id ≡ current_key_id e) × ((b ≡ false) → s.key_id ≡ current_key_id e)
unfolding rewrap
rewrap-key e drawn s re aad b h = elim (Bool-cases (s.key_id == e.current.id)) [
  | inl same ↦
      let at : s.key_id ≡ e.current.id = (eq_iff s.key_id e.current.id).0 same in
      let kept = rewrap_in_place-key e s re aad b (ground (arith, same)) in (kept ∙ at, λ stays. at)
  | inr other ↦ elim (Result-cases (unwrap e s aad)) [
    | inr (e', fault) ↦ ground (arith, other, fault)
    | inl (dek, opened) ↦ elim (Result-cases (e.current.wrap drawn dek aad)) [
      | inr (e', fault) ↦ ground (arith, other, opened, fault)
      | inl (wrapped, did) ↦
          (ground (arith, other, opened, did), λ stays. ground (arith, other, opened, did))
    ]
  ]
]

module _ (s : Store) where
  -- A row is done: deleted, or under the current wrapping key.
  abbrev pub is_done : ObjectRow → Bool
  is_done x = x.deleted || x.key_id == current_key_id s.env

  -- Or it is to come: one of those to come in the page, or after the last id of the page.
  abbrev pub IsCovered : List ObjectRow → Text → ObjectRow → Type 0
  IsCovered pending last x =
      (is_done x || any (is_row x) pending || is_after s.collation last x.id) ≡ true

  pub shred_where-IsCovered :
      (pending : List ObjectRow) (last : Text) (p : ObjectRow → Bool) (rows : List ObjectRow)
      → All (IsCovered pending last) rows
      → All (IsCovered pending last) (shred_where p rows)
  unfolding shred_where
  shred_where-IsCovered pending last p [] all = tt
  shred_where-IsCovered pending last p (r ∷ rows) (here, all) = elim (Bool-cases (p r)) [
    | inl hit ↦ rw hit (refl, shred_where-IsCovered pending last p rows all)
    | inr miss ↦ rw miss (here, shred_where-IsCovered pending last p rows all)
  ]

  rekey_where-IsCovered :
      (r : ObjectRow) (pending : List ObjectRow) (last : Text) (re : Sealed) (rows : List ObjectRow)
      → re.key_id ≡ current_key_id s.env
      → All (IsCovered (r ∷ pending) last) rows
      → All (IsCovered pending last) (rekey_where (is_unmoved r.id r.key_id) re rows)
  unfolding rekey_where
  rekey_where-IsCovered r pending last re [] now all = tt
  rekey_where-IsCovered r pending last re (x ∷ rows) now (here, all) =
      elim (Bool-cases (is_unmoved r.id r.key_id x)) [
        | inl hit ↦ rw hit (
          ground (arith, now, eq_refl (current_key_id s.env)),
          rekey_where-IsCovered r pending last re rows now all,
        )
        | inr miss ↦
            rw miss
              (ground (arith, here, miss), rekey_where-IsCovered r pending last re rows now all)
      ]

  by_key :
      (x r : ObjectRow) (pending : List ObjectRow) (last : Text)
      → r.key_id ≡ current_key_id s.env
      → IsCovered (r ∷ pending) last x
      → IsCovered pending last x
  by_key x r pending last now h = elim (Bool-cases (x.key_id == r.key_id)) [
    | inl same ↦
        let at : (x.key_id == current_key_id s.env) ≡ true = rw (← now) same in ground (arith, at)
    | inr other ↦ ground (arith, h, other)
  ]

  pub rotate_row-IsCovered :
      (drawn : Bytes) (r : ObjectRow) (pending : List ObjectRow) (last : Text) (db db' : Db)
      (o : Outcome)
      → o ≢ skipped
      → rotate_row s drawn r db ≡ ok (o, db')
      → All (IsCovered (r ∷ pending) last) db.objects
      → All (IsCovered pending last) db'.objects
  unfolding rotate_row
  rotate_row-IsCovered drawn r pending last db db' o went_on h all =
      let row : Sealed = record {
        key_id = r.key_id;
        wrapped_dek = or_nil r.wrapped_dek;
        ciphertext = [];
      } in
      elim (Result-cases (rewrap s.env drawn row (aad r.collection r.id))) [
        | inl ((re, true), done) ↦ elim (Bool-cases (s.fails (update_key r.id))) [
          | inl refused ↦ ground (arith, done, refused)
          | inr served ↦
              let (now, _) = rewrap-key s.env drawn row re (aad r.collection r.id) true done in
              let same : rekey_where (is_unmoved r.id r.key_id) re db.objects ≡ db'.objects =
                ground (arith, done, served) in
              subst (All (IsCovered pending last)) same
                (rekey_where-IsCovered r pending last re db.objects now all)
        ]
        | inl ((re, false), done) ↦
            let (_, stays) = rewrap-key s.env drawn row re (aad r.collection r.id) false done in
            let now : r.key_id ≡ current_key_id s.env = stays refl in
            let same : db.objects ≡ db'.objects = ground (arith, done) in
            subst (All (IsCovered pending last)) same (
              All-mono (IsCovered (r ∷ pending) last) (IsCovered pending last)
                (λ x h'. by_key x r pending last now h') db.objects all)
        | inr (e, fault) ↦ elim (Bool-cases (is_bad_row e)) [
          | inl bad ↦ ground (arith, fault, bad, went_on)
          | inr stop ↦ ground (arith, fault, stop)
        ]
      ]
