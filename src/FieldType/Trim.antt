-- ===== src/FieldType/Trim.antt =====
-- What trimming does: `strings.Trim` leaves nothing exactly when every character is in the set.
use sealbox.Base.{
  ℕ, ◌≡◌, ◌↔◌, refl, Bool, true, false, [], ◌∷◌, map, Text, arith, all, if◌then◌else◌,
}
use sealbox.FieldType.{trim_left, trim_right, trim}

module _ (p : ℕ → Bool) where
  pub trim_right-eq-nil_iff : (s : Text) → (trim_right p s ≡ []) ↔ (all p s ≡ true)
  unfolding trim_right
  trim_right-eq-nil_iff [] = ground arith
  trim_right-eq-nil_iff (c ∷ s) = ground (arith, trim_right-eq-nil_iff s)

  -- What `trim_right` leaves is empty or has a last character outside the set.
  abbrev pub EndsOutside : Text → Type 0
  EndsOutside [] = Unit
  EndsOutside (c ∷ []) = p c ≡ false
  EndsOutside (c ∷ d ∷ t) = EndsOutside (d ∷ t)

  trim_right-EndsOutside : (s : Text) → EndsOutside (trim_right p s)
  unfolding trim_right
  trim_right-EndsOutside [] = tt
  trim_right-EndsOutside (c ∷ s) = go (trim_right p s) (trim_right-EndsOutside s)
    where
      go :
          (t : Text)
          → EndsOutside t
          → EndsOutside (elim t [ [] ↦ if p c then [] else c ∷ [] | d ∷ t ↦ c ∷ d ∷ t ])
      go [] h = ground arith
      go (d ∷ t) h = h

  trim_right_of_EndsOutside : (s : Text) → EndsOutside s → trim_right p s ≡ s
  unfolding trim_right
  trim_right_of_EndsOutside [] h = refl
  trim_right_of_EndsOutside (c ∷ []) h = rw h
  trim_right_of_EndsOutside (c ∷ d ∷ t) h = rw (trim_right_of_EndsOutside (d ∷ t) h, trim_right)

  trim_left-EndsOutside : (s : Text) → EndsOutside s → EndsOutside (trim_left p s)
  unfolding trim_left
  trim_left-EndsOutside [] h = tt
  trim_left-EndsOutside (c ∷ []) h = rw h h
  trim_left-EndsOutside (c ∷ d ∷ t) h = ground (arith, trim_left-EndsOutside (d ∷ t) h)

  trim_left_idem : (s : Text) → trim_left p (trim_left p s) ≡ trim_left p s
  unfolding trim_left
  trim_left_idem [] = refl
  trim_left_idem (c ∷ s) = ground (arith, trim_left_idem s)

  pub trim_idem : (s : Text) → trim p (trim p s) ≡ trim p s
  unfolding trim
  trim_idem s = rw (
    trim_right_of_EndsOutside (trim_left p (trim_right p s))
        (trim_left-EndsOutside (trim_right p s) (trim_right-EndsOutside s)),
    trim_left_idem (trim_right p s),
  )

  trim_left-nil_of_EndsOutside : (s : Text) → EndsOutside s → trim_left p s ≡ [] → s ≡ []
  unfolding trim_left
  trim_left-nil_of_EndsOutside [] h e = refl
  trim_left-nil_of_EndsOutside (c ∷ []) h e = ground arith
  trim_left-nil_of_EndsOutside (c ∷ d ∷ t) h e =
      ground (arith, trim_left-nil_of_EndsOutside (d ∷ t) h)

  pub trim-eq-nil_iff : (s : Text) → (trim p s ≡ []) ↔ (all p s ≡ true)
  unfolding trim trim_left
  trim-eq-nil_iff s = (
    λ e.
        (trim_right-eq-nil_iff s).0
          (trim_left-nil_of_EndsOutside (trim_right p s) (trim_right-EndsOutside s) e),
    λ h. rw ((trim_right-eq-nil_iff s).1 h),
  )

  -- A map that keeps the set commutes with trimming.
  module _ (f : ℕ → ℕ) (keeps : (c : ℕ) → p (f c) ≡ p c) where
    trim_left-map : (s : Text) → trim_left p (map f s) ≡ map f (trim_left p s)
    unfolding trim_left
    trim_left-map [] = refl
    trim_left-map (c ∷ s) = ground (arith, trim_left-map s, keeps c)

    trim_right-map : (s : Text) → trim_right p (map f s) ≡ map f (trim_right p s)
    unfolding trim_right
    trim_right-map [] = refl
    trim_right-map (c ∷ s) = ground (arith, trim_right-map s, keeps c)

    pub trim-map : (s : Text) → trim p (map f s) ≡ map f (trim p s)
    unfolding trim
    trim-map s = rw (trim_right-map s, trim_left-map (trim_right p s))
