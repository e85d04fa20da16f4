-- ===== src/Envelope/Groups.antt =====
-- How `OpenMany` groups values by wrapper, and what one wrapper answers for a group.
use mathlib.Core.Path.{subst}
use sealbox.Base.{
  ◌≡◌, refl, ◌∙◌, sym, false, List, [], ◌∷◌, ◌++◌, map, Text, ◌==◌, eq_iff, Dict, Result, ok, err,
  arith, Bool-cases, Option-cases, Result-cases, inl, inr, All, All-append, All-parts,
}
use sealbox.Envelope.{Bytes, Error, Wrapper, Entry, add_to_group, group, unwrap_each, unwrap_group}
use sealbox.Envelope.Local.{IsHonest}

-- `T k x` for every entry `x` of the group `k`.
abbrev pub AllGroups : (Text → Entry → Type 0) → Dict (List Entry) → Type 0
AllGroups T groups = All (λ (g : Text × List Entry). All (T g.0) g.1) groups

module _ (k j : Text) (x : Entry) (xs : List Entry) (groups : Dict (List Entry)) where
  joins : j ≡ k → add_to_group k x ((j, xs) ∷ groups) ≡ (j, xs ++ x ∷ []) ∷ groups
  unfolding add_to_group
  joins e = ground (arith, eq_iff j k)

  passes :
      (j == k) ≡ false → add_to_group k x ((j, xs) ∷ groups) ≡ (j, xs) ∷ add_to_group k x groups
  unfolding add_to_group
  passes e = rw e

module _ (T : Text → Entry → Type 0) where
  add_to_group-All :
      (k : Text) (x : Entry) (groups : Dict (List Entry))
      → T k x
      → AllGroups T groups
      → AllGroups T (add_to_group k x groups)
  unfolding add_to_group
  add_to_group-All k x [] t h = ((t, tt), tt)
  add_to_group-All k x ((j, xs) ∷ groups) t h = elim (Bool-cases (j == k)) [
    | inl same ↦
        let e = (eq_iff j k).0 same in
        subst (AllGroups T) (sym (joins k j x xs groups e))
          (All-append (T j) xs (x ∷ []) h.0 (subst (λ l. T l x) (sym e) t, tt), h.1)
    | inr other ↦
        subst (AllGroups T) (sym (passes k j x xs groups other))
          (h.0, add_to_group-All k x groups t h.1)
  ]

  All-add_to_group :
      (k : Text) (x : Entry) (groups : Dict (List Entry))
      → AllGroups T (add_to_group k x groups)
      → T k x × AllGroups T groups
  unfolding add_to_group
  All-add_to_group k x [] h = (h.0.0, tt)
  All-add_to_group k x ((j, xs) ∷ groups) h = elim (Bool-cases (j == k)) [
    | inl same ↦
        let e = (eq_iff j k).0 same in
        let (here, later) = subst (AllGroups T) (joins k j x xs groups e) h in
        let (old, added) = All-parts (T j) xs (x ∷ []) here in
        (subst (λ l. T l x) e added.0, (old, later))
    | inr other ↦
        let (here, later) = subst (AllGroups T) (passes k j x xs groups other) h in
        let (t, rest) = All-add_to_group k x groups later in (t, (here, rest))
  ]

  abbrev pub AllKeyed : List Entry → Type 0
  AllKeyed xs = All (λ (x : Entry). T x.sealed.key_id x) xs

  pub group-All :
      (xs : List Entry) (groups : Dict (List Entry))
      → AllKeyed xs
      → AllGroups T groups
      → AllGroups T (group xs groups)
  unfolding group
  group-All [] groups t h = h
  group-All (x ∷ xs) groups t h =
      group-All xs (add_to_group x.sealed.key_id x groups) t.1
        (add_to_group-All x.sealed.key_id x groups t.0 h)

  pub All-group :
      (xs : List Entry) (groups : Dict (List Entry))
      → AllGroups T (group xs groups)
      → AllKeyed xs × AllGroups T groups
  unfolding group
  All-group [] groups h = (tt, h)
  All-group (x ∷ xs) groups h =
      let (later, mid) = All-group xs (add_to_group x.sealed.key_id x groups) h in
      let (here, first) = All-add_to_group x.sealed.key_id x groups mid in ((here, later), first)

-- What the wrapper says of each entry's key, one call for each.
abbrev pub answers : Wrapper → List Entry → List (Result Error Bytes)
answers w xs = map (λ (x : Entry). w.unwrap x.sealed.wrapped_dek x.aad) xs

pub unwrap_each-answers :
    (w : Wrapper) (xs : List Entry) (deks : List (Result Error Bytes))
    → unwrap_each w xs ≡ ok deks
    → deks ≡ answers w xs
unfolding unwrap_each
unwrap_each-answers w [] deks h = cc
unwrap_each-answers w (x ∷ xs) deks h = elim (Result-cases (unwrap_each w xs)) [
  | inl (rest, ran) ↦ elim (Result-cases (w.unwrap x.sealed.wrapped_dek x.aad)) [
    | inl (dek, opened) ↦
        let all : deks ≡ ok dek ∷ rest = ground (arith, opened, ran) in
        cc (all, opened, unwrap_each-answers w xs rest ran)
    | inr (f, failed) ↦
        let all : deks ≡ err f ∷ rest = ground (arith, failed, ran) in
        cc (all, failed, unwrap_each-answers w xs rest ran)
  ]
  | inr (f, failed) ↦ ground (arith, failed)
]

pub answers-map :
    (w : Wrapper) (xs : List Entry)
    → map
        (λ (y : Bytes × Bytes). w.unwrap y.0 y.1)
        (map (λ (x : Entry). (x.sealed.wrapped_dek, x.aad)) xs)
      ≡ answers w xs
answers-map w [] = refl
answers-map w (x ∷ xs) = cc (answers-map w xs)

pub unwrap_group-answers :
    (w : Wrapper) (xs : List Entry) (deks : List (Result Error Bytes))
    → IsHonest w
    → unwrap_group w xs ≡ ok deks
    → deks ≡ answers w xs
unfolding unwrap_group
unwrap_group-answers w xs deks honest h = elim (Option-cases w.unwrap_many) [
  | inl alone ↦ unwrap_each-answers w xs deks (ground (arith, alone))
  | inr (u, able) ↦
      honest.batch_agrees u (map (λ (x : Entry). (x.sealed.wrapped_dek, x.aad)) xs) deks able
        (ground (arith, able))
      ∙ answers-map w xs
]
