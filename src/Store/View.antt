-- ===== src/Store/View.antt =====
-- The abstract store: what the live row of a collection and an id opens to, and how lists of rows
-- are searched.
use mathlib.Core.Path.{subst}
use sealbox.Base.{
  ◌≡◌, refl, sym, Option, none, some, List, [], ◌∷◌, ◌++◌, Text, eq_iff, Result, Bool, true, false,
  ◌&&◌, ◌||◌, any, keep, if◌then◌else◌, arith, Bool-cases, inl, inr,
}
use sealbox.Envelope.{Bytes, Error, open_value}
use sealbox.Store.Tables.{ObjectRow, Db, Store, aad}
use sealbox.Store.Tx.{has_id}
use sealbox.Store.Read.{sealed_of}
use sealbox.Store.Shred.{is_target, shred_where}

-- The first row that passes a test.
abbrev pub find : (ObjectRow → Bool) → List ObjectRow → Option ObjectRow
find p [] = none
find p (r ∷ rows) = let rest = find p rows in elim (p r) [ true ↦ some r | false ↦ rest ]

-- The content of the live row that a collection and an id name: its plaintext, or the error that
-- opening it gives. No such row is `none`.
unfoldable pub view : Store → Db → Text → Text → Option (Result Error Bytes)
view s db collection id = elim (find (is_target collection id) db.objects) [
  | none ↦ none
  | some r ↦ some (open_value s.aead s.env (sealed_of r) (aad collection id))
]

-- No two rows share an id.
abbrev pub HasDistinctIds : List ObjectRow → Type 0
HasDistinctIds [] = Unit
HasDistinctIds (r ∷ rows) = (any (has_id r.id) rows ≡ false) × HasDistinctIds rows

pub find-none_of_any :
    (p q : ObjectRow → Bool) (rows : List ObjectRow)
    → ((r : ObjectRow) → p r ≡ true → q r ≡ true)
    → any q rows ≡ false
    → find p rows ≡ none
find-none_of_any p q [] h a = refl
find-none_of_any p q (r ∷ rows) h a = ground (arith, h r, find-none_of_any p q rows h)

pub find-eq-some :
    (p : ObjectRow → Bool) (rows : List ObjectRow) (x : ObjectRow)
    → find p rows ≡ some x
    → p x ≡ true
find-eq-some p [] x h = cc
find-eq-some p (r ∷ rows) x h = elim (Bool-cases (p r)) [
  | inl hit ↦ let same : r ≡ x = ground arith in rw (← same) hit
  | inr miss ↦ find-eq-some p rows x (ground arith)
]

pub find-keep :
    (p q : ObjectRow → Bool) (rows : List ObjectRow)
    → find p (keep q rows) ≡ find (λ r. p r && q r) rows
find-keep p q [] = refl
find-keep p q (r ∷ rows) = ground (arith, find-keep p q rows)

pub find_congr :
    (p q : ObjectRow → Bool) (rows : List ObjectRow)
    → ((r : ObjectRow) → p r ≡ q r)
    → find p rows ≡ find q rows
find_congr p q [] h = refl
find_congr p q (r ∷ rows) h = ground (arith, h r, find_congr p q rows h)

pub find-append_one :
    (p : ObjectRow → Bool) (rows : List ObjectRow) (x : ObjectRow)
    → find p rows ≡ none
    → find p (rows ++ x ∷ []) ≡ (if p x then some x else none)
find-append_one p [] x h = ground arith
find-append_one p (r ∷ rows) x h = ground (arith, find-append_one p rows x)

pub find-append_other :
    (p : ObjectRow → Bool) (rows : List ObjectRow) (x : ObjectRow)
    → p x ≡ false
    → find p (rows ++ x ∷ []) ≡ find p rows
find-append_other p [] x h = ground arith
find-append_other p (r ∷ rows) x h = ground (arith, find-append_other p rows x h)

pub any-append_one :
    (p : ObjectRow → Bool) (rows : List ObjectRow) (x : ObjectRow)
    → any p (rows ++ x ∷ []) ≡ (any p rows || p x)
any-append_one p [] x = ground arith
any-append_one p (r ∷ rows) x = ground (arith, any-append_one p rows x)

pub any-keep_of_none :
    (p q : ObjectRow → Bool) (rows : List ObjectRow)
    → any p rows ≡ false
    → any p (keep q rows) ≡ false
any-keep_of_none p q [] h = refl
any-keep_of_none p q (r ∷ rows) h = ground (arith, any-keep_of_none p q rows)

pub HasDistinctIds-keep :
    (q : ObjectRow → Bool) (rows : List ObjectRow)
    → HasDistinctIds rows
    → HasDistinctIds (keep q rows)
HasDistinctIds-keep q [] h = tt
HasDistinctIds-keep q (r ∷ rows) h = elim (Bool-cases (q r)) [
  | inl kept ↦
      let same : keep q (r ∷ rows) ≡ r ∷ keep q rows = ground arith in
      subst HasDistinctIds (sym same)
        (any-keep_of_none (has_id r.id) q rows h.0, HasDistinctIds-keep q rows h.1)
  | inr dropped ↦
      let same : keep q (r ∷ rows) ≡ keep q rows = ground arith in
      subst HasDistinctIds (sym same) (HasDistinctIds-keep q rows h.1)
]

pub HasDistinctIds-append_one :
    (rows : List ObjectRow) (x : ObjectRow)
    → HasDistinctIds rows
    → any (has_id x.id) rows ≡ false
    → HasDistinctIds (rows ++ x ∷ [])
HasDistinctIds-append_one [] x h a = (refl, tt)
HasDistinctIds-append_one (r ∷ rows) x h a = (
  ground (arith, any-append_one (has_id r.id) rows x, eq_iff x.id r.id, eq_iff r.id x.id),
  HasDistinctIds-append_one rows x h.1 (ground arith),
)

module _ (p : ObjectRow → Bool) where
  pub find-shred_where_other :
      (collection id : Text) (rows : List ObjectRow)
      → ((r : ObjectRow) → is_target collection id r ≡ true → p r ≡ false)
      → find (is_target collection id) (shred_where p rows) ≡ find (is_target collection id) rows
  unfolding shred_where
  find-shred_where_other collection id [] h = refl
  find-shred_where_other collection id (r ∷ rows) h =
      ground (arith, h r, find-shred_where_other collection id rows h)

  pub find-shred_where_hit :
      (collection id : Text) (rows : List ObjectRow)
      → ((r : ObjectRow) → is_target collection id r ≡ true → p r ≡ true)
      → find (is_target collection id) (shred_where p rows) ≡ none
  unfolding shred_where
  find-shred_where_hit collection id [] h = refl
  find-shred_where_hit collection id (r ∷ rows) h =
      ground (arith, h r, find-shred_where_hit collection id rows h)

  pub any_id-shred_where :
      (id : Text) (rows : List ObjectRow)
      → any (has_id id) (shred_where p rows) ≡ any (has_id id) rows
  unfolding shred_where
  any_id-shred_where id [] = refl
  any_id-shred_where id (r ∷ rows) = ground (arith, any_id-shred_where id rows)

  pub HasDistinctIds-shred_where :
      (rows : List ObjectRow) → HasDistinctIds rows → HasDistinctIds (shred_where p rows)
  unfolding shred_where
  HasDistinctIds-shred_where [] h = tt
  HasDistinctIds-shred_where (r ∷ rows) h =
      (ground (arith, any_id-shred_where r.id rows), HasDistinctIds-shred_where rows h.1)

pub view-find :
    (s : Store) (db : Db) (collection id : Text) (o : Option ObjectRow)
    → find (is_target collection id) db.objects ≡ o
    → view s db collection id ≡ elim o [
      | none ↦ none
      | some r ↦ some (open_value s.aead s.env (sealed_of r) (aad collection id))
    ]
unfolding view
view-find s db collection id o e = rw (← e)
