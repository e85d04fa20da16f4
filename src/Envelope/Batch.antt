-- ===== src/Envelope/Batch.antt =====
-- `OpenMany`, which groups by wrapper and asks in batches, against `Open` on each value.
use mathlib.Core.Path.{subst}
use sealbox.Base.{
  ℕ, ◌≡◌, refl, ap, ◌∙◌, sym, none, some, List, [], ◌∷◌, map, Text, Dict, lookup, Result, ok, err,
  ◌>>=◌, >>=-eq-ok, arith, eqb, Bool-cases, Option-cases, Result-cases, inl, inr, All, eqb_iff,
  All-mono, zero, suc, ◌+◌,
}
use sealbox.Envelope.{
  Bytes, Error, unknown_key, Aead, Wrapper, Sealed, Envelope, Entry, Slots, set_slot, group,
  unwrap_group, fail_group, fill_group, open_group, open_groups, open_many, number, read_slots,
  open_value, open_with_dek, unwrap,
}
use sealbox.Envelope.Local.{IsHonest}
use sealbox.Envelope.Groups.{
  AllKeyed, AllGroups, group-All, All-group, answers, unwrap_group-answers,
}

module _ (aead : Aead) (e : Envelope) (spec : Slots) where
  -- An entry whose place in `spec` holds what `Open` answers for it.
  abbrev Meets : Text → Entry → Type 0
  Meets k x = (x.sealed.key_id ≡ k) × (open_value aead e x.sealed x.aad ≡ spec x.position)

  abbrev Settled : Slots → Entry → Type 0
  Settled r x = r x.position ≡ spec x.position

  -- Slots that agree with `spec` stay so.
  abbrev Extends : Slots → Slots → Type 0
  Extends r r' = (i : ℕ) → r i ≡ spec i → r' i ≡ spec i

  set_slot-Extends :
      (r : Slots) (p : ℕ) (v : Result Error Bytes) → v ≡ spec p → Extends r (set_slot r p v)
  unfolding set_slot
  set_slot-Extends r p v same i h = elim (Bool-cases (eqb p i)) [
    | inl here ↦ let at : p ≡ i = (eqb_iff p i).0 here in rw here (subst (λ j. v ≡ spec j) at same)
    | inr there ↦ rw there h
  ]

  set_slot_self : (r : Slots) (p : ℕ) (v : Result Error Bytes) → set_slot r p v p ≡ v
  unfolding set_slot
  set_slot_self r p v = ground arith

  open_by_wrapper :
      (w : Wrapper) (s : Sealed) (aad : Bytes)
      → lookup s.key_id e.all ≡ some w
      → open_value aead e s aad
        ≡ (w.unwrap s.wrapped_dek aad >>= λ dek. open_with_dek aead dek s.ciphertext aad)
  unfolding open_value unwrap open_with_dek
  open_by_wrapper w s aad found = elim (Result-cases (w.unwrap s.wrapped_dek aad)) [
    | inl (dek, opened) ↦ ground (arith, found, opened)
    | inr (x, failed) ↦ ground (arith, found, failed)
  ]

  abbrev Filled : Slots → Slots → List Entry → Type 0
  Filled r r' xs = Extends r r' × All (Settled r') xs

  Filled-cons :
      (x : Entry) (xs : List Entry) (v : Result Error Bytes) (r r' : Slots)
      → v ≡ spec x.position
      → Filled (set_slot r x.position v) r' xs
      → Filled r r' (x ∷ xs)
  Filled-cons x xs v r r' same (keeps, settled) = (
    λ i h. keeps i (set_slot-Extends r x.position v same i h),
    (keeps x.position (set_slot_self r x.position v ∙ same), settled),
  )

  fill_group-Filled :
      (k : Text) (w : Wrapper) (xs : List Entry) (r r' : Slots)
      → lookup k e.all ≡ some w
      → All (Meets k) xs
      → fill_group aead xs (answers w xs) r ≡ ok r'
      → Filled r r' xs
  unfolding fill_group
  fill_group-Filled k w [] r r' found meets h = (λ i s. cc (h, s), tt)
  fill_group-Filled k w (x ∷ xs) r r' found ((named, meet), meets) h =
      let by_w = open_by_wrapper w x.sealed x.aad (cc (named, found)) in
      elim (Result-cases (w.unwrap x.sealed.wrapped_dek x.aad)) [
        | inl (dek, opened) ↦
            let v = open_with_dek aead dek x.sealed.ciphertext x.aad in
            Filled-cons x xs v r r' (ground (arith, opened, by_w, meet)) (
              fill_group-Filled k w xs (set_slot r x.position v) r' found meets
                (ground (arith, opened, h)))
        | inr (f, failed) ↦ Filled-cons x xs (err f) r r' (ground (arith, failed, by_w, meet)) (
            fill_group-Filled k w xs (set_slot r x.position (err f)) r' found meets
              (ground (arith, failed, h)))
      ]

  open_missing :
      (s : Sealed) (aad : Bytes)
      → lookup s.key_id e.all ≡ none
      → open_value aead e s aad ≡ err unknown_key
  unfolding open_value unwrap
  open_missing s aad missing = ground (arith, missing)

  fail_group-Filled :
      (k : Text) (xs : List Entry) (r : Slots)
      → lookup k e.all ≡ none
      → All (Meets k) xs
      → Filled r (fail_group xs r) xs
  unfolding fail_group
  fail_group-Filled k [] r missing meets = (λ i s. s, tt)
  fail_group-Filled k (x ∷ xs) r missing ((named, meet), meets) =
      let unknown = open_missing x.sealed x.aad (cc (named, missing)) in
      Filled-cons x xs (err unknown_key) r (fail_group xs (set_slot r x.position (err unknown_key)))
        (sym unknown ∙ meet)
        (fail_group-Filled k xs (set_slot r x.position (err unknown_key)) missing meets)

  module _ (honest : (k : Text) (w : Wrapper) → lookup k e.all ≡ some w → IsHonest w) where
    open_group-Filled :
        (k : Text) (xs : List Entry) (r r' : Slots)
        → All (Meets k) xs
        → open_group aead e k xs r ≡ ok r'
        → Filled r r' xs
    unfolding open_group
    open_group-Filled k xs r r' meets h = elim (Option-cases (lookup k e.all)) [
      | inl missing ↦
          let same : fail_group xs r ≡ r' = ground (arith, missing) in
          subst (λ r'. Filled r r' xs) same (fail_group-Filled k xs r missing meets)
      | inr (w, found) ↦ elim (Result-cases (unwrap_group w xs)) [
        | inl (deks, ran) ↦
            let agree = unwrap_group-answers w xs deks (honest k w found) ran in
            fill_group-Filled k w xs r r' found meets (ground (arith, found, ran, agree))
        | inr (f, failed) ↦ ground (arith, found, failed)
      ]
    ]

    open_groups-Filled :
        (groups : Dict (List Entry)) (r r' : Slots)
        → AllGroups Meets groups
        → open_groups aead e groups r ≡ ok r'
        → Extends r r' × AllGroups (λ k x. Settled r' x) groups
    unfolding open_groups
    open_groups-Filled [] r r' meets h = (λ i s. cc (h, s), tt)
    open_groups-Filled ((k, xs) ∷ groups) r r' (meet, meets) h =
        let (mid, first, later) =
          >>=-eq-ok (open_group aead e k xs r) (open_groups aead e groups) h in
        let (keeps, settled) = open_group-Filled k xs r mid meet first in
        let (keeps', settled') = open_groups-Filled groups mid r' meets later in
        (
          λ i s. keeps' i (keeps i s),
          (All-mono (Settled mid) (Settled r') (λ x s. keeps' x.position s) xs settled, settled'),
        )

-- The answers of `Open`, by index.
answer_at : Aead → Envelope → List (Sealed × Bytes) → Slots
answer_at aead e [] i = ok []
answer_at aead e ((s, aad) ∷ rows) zero = open_value aead e s aad
answer_at aead e (row ∷ rows) (suc i) = answer_at aead e rows i

module _ (aead : Aead) (e : Envelope) where
  number-Meets :
      (spec : Slots) (k : ℕ) (rows : List (Sealed × Bytes))
      → ((j : ℕ) → spec (k + j) ≡ answer_at aead e rows j)
      → AllKeyed (Meets aead e spec) (number k rows)
  unfolding number answer_at
  number-Meets spec k [] h = tt
  number-Meets spec k ((s, aad) ∷ rows) h =
      let first : k + 0 ≡ k = omega arith in
      let next : (j : ℕ) → suc k + j ≡ k + suc j = λ j. omega arith in
      (
        (refl, sym (rw (← first) (h 0))),
        number-Meets spec (suc k) rows (λ j. ap spec (next j) ∙ h (suc j)),
      )

  read_slots-answers :
      (spec r : Slots) (k : ℕ) (rows : List (Sealed × Bytes))
      → ((j : ℕ) → spec (k + j) ≡ answer_at aead e rows j)
      → All (Settled aead e spec r) (number k rows)
      → read_slots r k rows ≡ map (λ (row : Sealed × Bytes). open_value aead e row.0 row.1) rows
  unfolding number read_slots answer_at
  read_slots-answers spec r k [] h settled = refl
  read_slots-answers spec r k ((s, aad) ∷ rows) h (here, later) =
      let first : k + 0 ≡ k = omega arith in
      let next : (j : ℕ) → suc k + j ≡ k + suc j = λ j. omega arith in
      let same : r k ≡ open_value aead e s aad = here ∙ (rw (← first) (h 0)) in
      let rest = read_slots-answers spec r (suc k) rows (λ j. ap spec (next j) ∙ h (suc j)) later in
      cc (same, rest)

  -- `OpenMany` is `Open` on each value, in order: when no key service fails, the results of the
  -- grouped, batched call are those of one call for each value, errors included. Every loaded
  -- wrapper is honest.
  pub open_many-open_value :
      (rows : List (Sealed × Bytes)) (results : List (Result Error Bytes))
      → ((k : Text) (w : Wrapper) → lookup k e.all ≡ some w → IsHonest w)
      → open_many aead e rows ≡ ok results
      → results ≡ map (λ (row : Sealed × Bytes). open_value aead e row.0 row.1) rows
  unfolding open_many
  open_many-open_value rows results honest h =
      let spec = answer_at aead e rows in
      let from_zero : (j : ℕ) → 0 + j ≡ j = λ j. omega arith in
      let agrees : (j : ℕ) → spec (0 + j) ≡ answer_at aead e rows j = λ j. ap spec (from_zero j) in
      let entries = number 0 rows in
      let (r, ran, read) =
        >>=-eq-ok (open_groups aead e (group entries []) (λ _. ok []))
          (λ r. ok (read_slots r 0 rows)) h in
      let meets = group-All (Meets aead e spec) entries [] (number-Meets spec 0 rows agrees) tt in
      let (_, settled) =
        open_groups-Filled aead e spec honest (group entries []) (λ _. ok []) r meets ran in
      let (all, _) = All-group (λ k x. Settled aead e spec r x) entries [] settled in
      cc (read, read_slots-answers spec r 0 rows agrees all)
