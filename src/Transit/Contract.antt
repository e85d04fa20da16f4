-- ===== src/Transit/Contract.antt =====
-- A transit engine meets the contract of a wrapper.
use sealbox.Base.{
  ℕ, zero, suc, ◌≡◌, ◌≢◌, refl, ap, ◌∙◌, sym, ◌≤◌, Bool, true, false, none, some, List, [], ◌∷◌,
  ◌++◌, map, Text, ◌==◌, Result, ok, err, ◌>>=◌, eqb, eqb_iff, length, take, drop, length-drop,
  arith, Bool-cases, Option-cases, Result-cases, inl, inr,
}
use sealbox.Envelope.{Bytes, Error}
use sealbox.Envelope.Local.{IsHonest}
use sealbox.Transit.{
  Engine, Base64, BatchResult, Reply, unreachable, unreadable, refused, answered, call, decoded,
  wrap, unwrap, rewrap, slot, item, unwrap_batch, batch_size, unwrap_loop, unwrap_many,
  transit_wrapper,
}

-- Each result of a batch is what one call would have answered: its plaintext, or, with an error, a 400.
abbrev pub AreResults : (Text → Text → Reply Text) → List (Text × Text) → List BatchResult → Type 0
AreResults decrypt (x ∷ xs) (r ∷ results) =
    ((r.error == []) ≡ true → decrypt x.0 x.1 ≡ answered r.plaintext)
    × ((r.error == []) ≡ false → (m : Text) × (decrypt x.0 x.1 ≡ refused 400 m))
    × AreResults decrypt xs results
AreResults decrypt _ _ = Unit {0}

-- What the engine's documentation says: it decrypts what it encrypted and what it re-encrypted, under
-- the same context, and a batch is its elements one by one.
pub record IsEngine (e : Engine) : Type 0 where
  pub decrypt-encrypt :
      (drawn : Bytes) (plaintext context ciphertext : Text)
      → e.encrypt drawn plaintext context ≡ answered ciphertext
      → e.decrypt ciphertext context ≡ answered plaintext
  pub decrypt-rewrap :
      (ciphertext context moved : Text)
      → e.rewrap ciphertext context ≡ answered moved
      → e.decrypt moved context ≡ e.decrypt ciphertext context
  pub decrypt_batch-AreResults :
      (xs : List (Text × Text)) (results : List BatchResult)
      → e.decrypt_batch xs ≡ answered results
      → AreResults e.decrypt xs results

pub record IsBase64 (b : Base64) : Type 0 where
  pub decode-encode : (bytes : Bytes) → b.decode (b.encode bytes) ≡ some bytes

some_same : {A : Type 0} (a x : A) → some a ≡ some x → a ≡ x
some_same a x h = cc

call-eq-ok : {A : Type 0} (r : Reply A) (a : A) → call r ≡ ok a → r ≡ answered a
unfolding call
call-eq-ok (unreachable m) a h = ground arith
call-eq-ok (unreadable m) a h = ground arith
call-eq-ok (refused status m) a h = ground arith
call-eq-ok (answered x) a h = ground arith

module _ (e : Engine) (b : Base64) (engine : IsEngine e) where
  one_by_one : List (Bytes × Bytes) → List (Result Error Bytes)
  one_by_one xs = map (λ (x : Bytes × Bytes). unwrap e b x.0 x.1) xs

  slots-unwrap :
      (xs : List (Bytes × Bytes)) (results : List BatchResult)
      → length results ≡ length xs
      → AreResults e.decrypt (map (item e b) xs) results
      → map (slot e b) results ≡ one_by_one xs
  unfolding one_by_one unwrap call
  slots-unwrap [] [] l agree = refl
  slots-unwrap [] (r ∷ results) l agree = ground arith
  slots-unwrap (x ∷ xs) [] l agree = ground arith
  slots-unwrap ((w, aad) ∷ xs) (r ∷ results) l (good, bad, rest) =
      elim (Bool-cases (r.error == [])) [
        | inl fine ↦ ground (arith, fine, good fine, slots-unwrap xs results (omega arith) rest)
        | inr wrong ↦
            let (m, rejected) = bad wrong in
            ground (arith, wrong, rejected, slots-unwrap xs results (omega arith) rest)
      ]

  unwrap_batch-unwrap :
      (xs : List (Bytes × Bytes)) (out : List (Result Error Bytes))
      → unwrap_batch e b xs ≡ ok out
      → out ≡ one_by_one xs
  unfolding unwrap_batch
  unwrap_batch-unwrap xs out h = elim (Result-cases (call (e.decrypt_batch (map (item e b) xs)))) [
    | inr (f, fault) ↦ ground (arith, fault, h)
    | inl (results, did) ↦ elim (Bool-cases (eqb (length results) (length xs))) [
      | inr odd ↦ ground (arith, did, odd, h)
      | inl even ↦
          let sizes = (eqb_iff (length results) (length xs)).0 even in
          let same : map (slot e b) results ≡ out = ground (arith, did, even, h) in
          sym same
          ∙ slots-unwrap xs results sizes (
              engine.decrypt_batch-AreResults (map (item e b) xs) results
                (call-eq-ok (e.decrypt_batch (map (item e b) xs)) results did))
    ]
  ]

  one_by_one-take-drop :
      (n : ℕ) (xs : List (Bytes × Bytes))
      → one_by_one (take n xs) ++ one_by_one (drop n xs) ≡ one_by_one xs
  unfolding one_by_one
  one_by_one-take-drop zero xs = refl
  one_by_one-take-drop (suc n) [] = refl
  one_by_one-take-drop (suc n) (x ∷ xs) = ground (arith, one_by_one-take-drop n xs)

  unwrap_loop-unwrap :
      (fuel : ℕ) (xs : List (Bytes × Bytes)) (out : List (Result Error Bytes))
      → unwrap_loop e b fuel xs ≡ some (ok out)
      → out ≡ one_by_one xs
  unfolding unwrap_loop one_by_one
  unwrap_loop-unwrap fuel [] out h = ground arith
  unwrap_loop-unwrap zero (x ∷ xs) out h = ground arith
  unwrap_loop-unwrap (suc fuel) (x ∷ xs) out h =
      let now = take batch_size (x ∷ xs) in
      let later = drop batch_size (x ∷ xs) in
      elim (Result-cases (unwrap_batch e b now)) [
        | inr (f, fault) ↦ ground (arith, fault, h)
        | inl (first, did) ↦ elim (Option-cases (unwrap_loop e b fuel later)) [
          | inl stuck ↦ ground (arith, did, stuck, h)
          | inr (err f, ran) ↦ ground (arith, did, ran, h)
          | inr (ok rest, ran) ↦
              let same : first ++ rest ≡ out = ground (arith, did, ran, h) in
              let here = unwrap_batch-unwrap now first did in
              let there = unwrap_loop-unwrap fuel later rest ran in
              sym same ∙ cc (here, there) ∙ one_by_one-take-drop batch_size (x ∷ xs)
        ]
      ]

  -- With a round for each key, the loop over batches of 500 comes to its end.
  unwrap_loop_ends :
      (fuel : ℕ) (xs : List (Bytes × Bytes)) → length xs ≤ fuel → unwrap_loop e b fuel xs ≢ none
  unfolding unwrap_loop
  unwrap_loop_ends fuel [] few h = ground arith
  unwrap_loop_ends zero (x ∷ xs) few h = omega arith
  unwrap_loop_ends (suc fuel) (x ∷ xs) few h =
      let now = take batch_size (x ∷ xs) in
      let later = drop batch_size (x ∷ xs) in
      let fewer = length-drop batch_size (x ∷ xs) in
      elim (Result-cases (unwrap_batch e b now)) [
        | inr (f, fault) ↦ ground (arith, fault, h)
        | inl (first, did) ↦ elim (Option-cases (unwrap_loop e b fuel later)) [
          | inl stuck ↦ unwrap_loop_ends fuel later (omega arith) stuck
          | inr (r, ran) ↦ ground (arith, did, ran, h)
        ]
      ]

  unwrap-wrap :
      (drawn dek aad wrapped : Bytes)
      → IsBase64 b
      → wrap e b drawn dek aad ≡ ok wrapped
      → unwrap e b wrapped aad ≡ ok dek
  unfolding wrap unwrap call
  unwrap-wrap drawn dek aad wrapped base h =
      let sent = call-eq-ok (e.encrypt drawn (b.encode dek) (b.encode aad)) wrapped h in
      let back = engine.decrypt-encrypt drawn (b.encode dek) (b.encode aad) wrapped sent in
      ground (arith, back, base.decode-encode dek)

  unwrap-rewrap :
      (wrapped wrapped' aad : Bytes) (changed : Bool)
      → rewrap e b wrapped aad ≡ ok (wrapped', changed)
      → unwrap e b wrapped' aad ≡ unwrap e b wrapped aad
  unfolding rewrap unwrap
  unwrap-rewrap wrapped wrapped' aad changed h =
      elim (Result-cases (call (e.rewrap wrapped (b.encode aad)))) [
        | inr (f, fault) ↦ ground (arith, fault, h)
        | inl (moved, did) ↦
            let same : moved ≡ wrapped' = ground (arith, did, h) in
            let sent = call-eq-ok (e.rewrap wrapped (b.encode aad)) moved did in
            let back = engine.decrypt-rewrap wrapped (b.encode aad) moved sent in
            ap (λ m. call (e.decrypt m (b.encode aad)) >>= decoded e b) (sym same)
            ∙ ap (λ r. call r >>= decoded e b) back
      ]

  unwrap_many-unwrap :
      (xs : List (Bytes × Bytes)) (deks : List (Result Error Bytes))
      → unwrap_many e b xs ≡ ok deks
      → deks ≡ one_by_one xs
  unfolding unwrap_many
  unwrap_many-unwrap xs deks h = elim (Option-cases (unwrap_loop e b (length xs) xs)) [
    | inl stuck ↦ ground (arith, stuck, h)
    | inr (r, ran) ↦ unwrap_loop-unwrap (length xs) xs deks (ground (arith, ran, h))
  ]

  -- A transit engine is a wrapper that the envelope can rely on: what `Wrap` made unwraps to the key
  -- under the same row identity, a re-wrapped key still does, and `UnwrapMany`, in its rounds of 500 keys,
  -- answers each key as `Unwrap` would. It never runs out of rounds. The engine keeps its documented
  -- behaviour and base64 decodes what it encoded.
  pub transit_wrapper-IsHonest :
      (mount key : Text)
      → IsBase64 b
      → IsHonest (transit_wrapper e b mount key)
        × ((xs : List (Bytes × Bytes)) → unwrap_loop e b (length xs) xs ≢ none)
  unfolding transit_wrapper one_by_one
  transit_wrapper-IsHonest mount key base = (
    record {
      unwrap-wrap = λ drawn dek aad wrapped sizes h. unwrap-wrap drawn dek aad wrapped base h;
      rewrap_keeps = λ r wrapped wrapped' aad changed same h.
          unwrap-rewrap wrapped wrapped' aad changed
            (ap (λ f. f wrapped aad) (some_same (rewrap e b) r same) ∙ h);
      batch_agrees = λ u xs deks same h.
          unwrap_many-unwrap xs deks (ap (λ f. f xs) (some_same (unwrap_many e b) u same) ∙ h);
    },
    λ xs. unwrap_loop_ends (length xs) xs (omega arith),
  )
