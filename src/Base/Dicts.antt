-- ===== src/Base/Dicts.antt =====
-- Go's `map[string]V` as an association list with one entry for each key.
use mathlib.Core.Path.{◌≡◌, refl, subst}
use mathlib.Core.Logic.{◌≢◌, inl, inr}
use mathlib.Core.Option.{Option, none, some}
use mathlib.Core.List.{List, [], ◌∷◌}
use native.Mathlib.Omega.{arith}
use sealbox.Base.Tests.{if◌then◌else◌, Bool-cases}
use sealbox.Base.Lists.{All}
use sealbox.Base.Texts.{Text, ◌==◌, eq_iff, ne_of_eq_false}

abbrev pub Dict {ℓ} : Type ℓ → Type ℓ
Dict V = List (Text × V)

module _ {ℓ} {V : Type ℓ} where
  unfoldable pub lookup : Text → Dict V → Option V
  lookup key [] = none
  lookup key ((name, x) ∷ rest) = if name == key then some x else lookup key rest

  -- `m[key] = new`
  unfoldable pub insert : Text → V → Dict V → Dict V
  insert key new [] = (key, new) ∷ []
  insert key new ((name, x) ∷ rest) =
      if name == key then (key, new) ∷ rest else (name, x) ∷ insert key new rest

  -- `delete(m, key)`
  unfoldable pub without : Text → Dict V → Dict V
  without key [] = []
  without key ((name, x) ∷ more) =
      let rest = without key more in if name == key then rest else (name, x) ∷ rest

  pub lookup-insert :
      (key at : Text) (new : V) (m : Dict V)
      → lookup at (insert key new m) ≡ (if key == at then some new else lookup at m)
  unfolding lookup insert
  lookup-insert key at new [] = refl
  lookup-insert key at new ((name, x) ∷ rest) =
      let later = lookup-insert key at new rest in
      ground (arith, later, eq_iff name key, eq_iff name at, eq_iff key at)

  pub lookup-without :
      (k j : Text) (m : Dict V) → lookup j (without k m) ≡ (if k == j then none else lookup j m)
  unfolding lookup without
  lookup-without k j [] = ground arith
  lookup-without k j ((i, w) ∷ m) =
      ground (arith, eq_iff k j, eq_iff i k, eq_iff i j, lookup-without k j m)

module _ {ℓ} {V : Type ℓ} (P : V → Type 0) where
  -- What holds of every value holds of the one that is found.
  pub All-lookup :
      (m : Dict V) (k : Text) (v : V) → All (λ (e : Text × V). P e.1) m → lookup k m ≡ some v → P v
  unfolding lookup
  All-lookup [] k v h found = cc
  All-lookup ((j, w) ∷ m) k v h found = elim (Bool-cases (j == k)) [
    | inl same ↦ let e : w ≡ v = ground arith in subst P e h.0
    | inr other ↦ All-lookup m k v h.1 (ground arith)
  ]

module _ {V : Type 0} where
  -- The list has one entry for each key, as a Go map has.
  abbrev pub IsDistinct : Dict V → Type 0
  IsDistinct [] = Unit
  IsDistinct ((k, v) ∷ m) = (lookup {V = V} k m ≡ none) × IsDistinct m

  pub All-ne_of_absent :
      (k : Text) (m : Dict V) → lookup {V = V} k m ≡ none → All (λ (e : Text × V). e.0 ≢ k) m
  unfolding lookup
  All-ne_of_absent k [] h = tt
  All-ne_of_absent k ((j, v) ∷ m) h = elim (Bool-cases (j == k)) [
    | inl same ↦ cc (h, same)
    | inr other ↦ (ne_of_eq_false j k other, All-ne_of_absent k m (ground arith))
  ]

  pub absent_tail :
      (k j : Text) (v : V) (m : Dict V)
      → lookup {V = V} k ((j, v) ∷ m) ≡ none
      → (j ≢ k) × (lookup {V = V} k m ≡ none)
  unfolding lookup
  absent_tail k j v m h = ground (arith, eq_iff j k)
