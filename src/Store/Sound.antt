-- ===== src/Store/Sound.antt =====
-- The invariant of the tables, and that a stored object, an erasure and the index rows of a live
-- object keep it.
use mathlib.Core.Path.{subst}
use sealbox.Base.{
  ◌≡◌, refl, ap, ◌∙◌, sym, List, [], ◌∷◌, ◌++◌, map, Text, eq_iff, none, some, Dict, Bool, true,
  false, ◌&&◌, ◌||◌, not, any, keep, arith, Bool-cases, inl, inr, All, All-append, All-mono,
}
use sealbox.Store.Tables.{ObjectRow, IndexRow, Db, Ref, Item, Store}
use sealbox.Store.Tx.{of_object}
use sealbox.Store.Write.{PutDraw}
use sealbox.Store.Read.{is_about, ref_of}
use sealbox.Store.Shred.{shred_where, is_target}
use sealbox.Store.Effect.{Put, object_row, index_rows}
use sealbox.Store.View.{
  HasDistinctIds, HasDistinctIds-append_one, HasDistinctIds-shred_where, any-append_one,
}
use sealbox.Store.Deletes.{kept_index, erased}

abbrev pub has_key : ObjectRow → Bool
has_key r = elim r.wrapped_dek [ none ↦ false | some k ↦ true ]

-- A row has lost its key exactly when it is marked as deleted.
abbrev pub IsKeyed : ObjectRow → Type 0
IsKeyed r = r.deleted ≡ not (has_key r)

-- An index row names a live row of its collection.
abbrev pub IsLinked : List ObjectRow → IndexRow → Type 0
IsLinked rows x = any (is_target x.collection x.object_id) rows ≡ true

-- Ids are distinct, the key of a row is gone exactly when the row is deleted, and every
-- index row names a live row.
pub record IsSound (db : Db) : Type 0 where
  pub distinct : HasDistinctIds db.objects
  pub keyed : All IsKeyed db.objects
  pub linked : All (IsLinked db.objects) db.blind_index

shred_where-IsKeyed :
    (p : ObjectRow → Bool) (rows : List ObjectRow)
    → All IsKeyed rows
    → All IsKeyed (shred_where p rows)
unfolding shred_where
shred_where-IsKeyed p [] h = tt
shred_where-IsKeyed p (r ∷ rows) (first, rest) =
    (ground (arith, first), shred_where-IsKeyed p rows rest)

any-shred_where :
    (p q : ObjectRow → Bool) (rows : List ObjectRow)
    → ((r : ObjectRow) → q r ≡ true → p r ≡ false)
    → any q rows ≡ true
    → any q (shred_where p rows) ≡ true
unfolding shred_where
any-shred_where p q [] apart h = cc
any-shred_where p q (r ∷ rows) apart h = ground (arith, apart r, any-shred_where p q rows apart)

-- Index rows keep their link under a change of the objects that keeps the live rows they name.
pub index_rows-IsLinked :
    (s : Store) (collection id : Text) (indexed : Dict Text) (rows : List ObjectRow)
    → any (is_target collection id) rows ≡ true
    → All (IsLinked rows) (index_rows s collection id indexed)
index_rows-IsLinked s collection id [] rows h = tt
index_rows-IsLinked s collection id ((field, value) ∷ rest) rows h =
    (h, index_rows-IsLinked s collection id rest rows h)

pub Put-IsSound :
    (s : Store) (actor c : Text) (d : PutDraw) (it : Item) (db last : Db) (i : Text)
    → Put s actor c d it db last i
    → IsSound db
    → IsSound last
Put-IsSound s actor c d it db last i put sound =
    let row = object_row c i put.sealed it.subject in
    let rows = db.objects ++ row ∷ [] in
    let index = db.blind_index ++ index_rows s c i it.indexed in
    let there : any (is_target c i) rows ≡ true =
      ground (arith, any-append_one (is_target c i) db.objects row, eq_iff i i, eq_iff c c) in
    let old =
      All-mono (IsLinked db.objects) (IsLinked rows)
        (λ x h.
          ground (arith, any-append_one (is_target x.collection x.object_id) db.objects row, h))
        db.blind_index sound.linked in
    let linked : All (IsLinked rows) index =
      All-append (IsLinked rows) db.blind_index (index_rows s c i it.indexed) old
        (index_rows-IsLinked s c i it.indexed rows there) in
    subst IsSound (sym put.after) (record {
      distinct = HasDistinctIds-append_one db.objects row sound.distinct put.fresh;
      keyed = All-append IsKeyed db.objects (row ∷ []) sound.keyed (refl, tt);
      linked = linked;
    })

-- the references that a list of erased objects covers
abbrev pub is_covered : List Ref → IndexRow → Bool
is_covered refs x = any (λ (r : Ref). of_object r.collection r.id x) refs

pub keep_missed :
    (Q : IndexRow → Type 0) (p : IndexRow → Bool) (rows : List IndexRow)
    → All Q rows
    → All (λ x. Q x × (p x ≡ false)) (keep (λ x. not (p x)) rows)
keep_missed Q p [] h = tt
keep_missed Q p (x ∷ rows) (first, rest) = elim (Bool-cases (p x)) [
  | inl dropped ↦
      let same : keep (λ x. not (p x)) (x ∷ rows) ≡ keep (λ x. not (p x)) rows =
        ground (arith, dropped) in
      subst (All (λ x. Q x × (p x ≡ false))) (sym same) (keep_missed Q p rows rest)
  | inr stays ↦
      let same : keep (λ x. not (p x)) (x ∷ rows) ≡ x ∷ keep (λ x. not (p x)) rows =
        ground (arith, stays) in
      subst (All (λ x. Q x × (p x ≡ false))) (sym same) ((first, stays), keep_missed Q p rows rest)
]

kept_index-All :
    (refs : List Ref) (Q : IndexRow → Type 0) (rows : List IndexRow)
    → All Q rows
    → All (λ x. Q x × (is_covered refs x ≡ false)) (kept_index refs rows)
kept_index-All [] Q rows h = All-mono Q (λ x. Q x × (false ≡ false)) (λ x q. (q, refl)) rows h
kept_index-All (r ∷ refs) Q rows h =
    let hit : IndexRow → Bool = of_object r.collection r.id in
    let left = keep (λ x. not (hit x)) rows in
    All-mono (λ x. (Q x × (hit x ≡ false)) × (is_covered refs x ≡ false))
      (λ x. Q x × ((hit x || is_covered refs x) ≡ false))
      (λ x ((q, missed), rest). (q, ground (arith, missed, rest))) (kept_index refs left)
      (kept_index-All refs (λ x. Q x × (hit x ≡ false)) left (keep_missed Q hit rows h))

any-shred_where_missed :
    (p q : ObjectRow → Bool) (rows : List ObjectRow)
    → any (λ r. p r && q r) rows ≡ false
    → any q rows ≡ true
    → any q (shred_where p rows) ≡ true
unfolding shred_where
any-shred_where_missed p q [] apart h = cc
any-shred_where_missed p q (r ∷ rows) apart h =
    let rest = any-shred_where_missed p q rows in ground (arith, apart, rest)

-- Destroying keys keeps the invariant when the references cover every row that lost its key.
pub erased-IsSound :
    (p : ObjectRow → Bool) (actor : Text) (refs : List Ref) (db : Db)
    → ((x : IndexRow)
        → is_covered refs x ≡ false
        → any (λ r. p r && is_target x.collection x.object_id r) db.objects ≡ false)
    → IsSound db
    → IsSound (erased p actor refs db)
erased-IsSound p actor refs db covers sound = record {
  distinct = HasDistinctIds-shred_where p db.objects sound.distinct;
  keyed = shred_where-IsKeyed p db.objects sound.keyed;
  linked =
      All-mono (λ x. IsLinked db.objects x × (is_covered refs x ≡ false))
        (IsLinked (shred_where p db.objects))
        (λ x (old, missed).
          any-shred_where_missed p (is_target x.collection x.object_id) db.objects (covers x missed)
            old)
        (kept_index refs db.blind_index)
        (kept_index-All refs (IsLinked db.objects) db.blind_index sound.linked);
}

pub delete_covers :
    (collection id : Text) (rows : List ObjectRow) (x : IndexRow)
    → is_covered (record { collection = collection; id = id } ∷ []) x ≡ false
    → any (λ r. is_target collection id r && is_target x.collection x.object_id r) rows ≡ false
delete_covers collection id [] x missed = refl
delete_covers collection id (r ∷ rows) x missed = ground (
  arith,
  missed,
  delete_covers collection id rows x missed,
  eq_iff r.id id,
  eq_iff r.collection collection,
  eq_iff r.id x.object_id,
  eq_iff r.collection x.collection,
  eq_iff x.collection collection,
  eq_iff x.object_id id,
)

pub delete_subject_covers :
    (subject : Text) (rows : List ObjectRow) (x : IndexRow)
    → is_covered (map ref_of (keep (is_about subject) rows)) x ≡ false
    → any (λ r. is_about subject r && is_target x.collection x.object_id r) rows ≡ false
delete_subject_covers subject [] x missed = refl
delete_subject_covers subject (r ∷ rows) x missed = elim (Bool-cases (is_about subject r)) [
  | inl about ↦
      let listed : keep (is_about subject) (r ∷ rows) ≡ r ∷ keep (is_about subject) rows =
        ground (arith, about) in
      let missed' : is_covered (map ref_of (r ∷ keep (is_about subject) rows)) x ≡ false =
        ap (λ (l : List ObjectRow). is_covered (map ref_of l) x) (sym listed) ∙ missed in
      let rest = delete_subject_covers subject rows x in
      ground (
        arith,
        missed',
        rest,
        eq_iff r.id x.object_id,
        eq_iff r.collection x.collection,
        eq_iff x.collection r.collection,
        eq_iff x.object_id r.id,
      )
  | inr other ↦
      let listed : keep (is_about subject) (r ∷ rows) ≡ keep (is_about subject) rows =
        ground (arith, other) in
      let missed' : is_covered (map ref_of (keep (is_about subject) rows)) x ≡ false =
        ap (λ (l : List ObjectRow). is_covered (map ref_of l) x) (sym listed) ∙ missed in
      let rest = delete_subject_covers subject rows x missed' in ground (arith, rest, other)
]
