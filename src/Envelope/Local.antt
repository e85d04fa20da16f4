-- ===== src/Envelope/Local.antt =====
-- The contract of a wrapper, and that the local one meets it.
use mathlib.Core.Path.{subst}
use sealbox.Base.{
  ℕ, zero, suc, ◌≡◌, refl, ap, Bool, false, some, List, [], ◌∷◌, ◌++◌, map, Text, Result, ok, arith,
  length, take, drop, ltb, Bool-cases, inl, inr, length-append,
}
use sealbox.Envelope.{
  Bytes, Error, Aead, Wrapper, nonce_bytes, is_key, seal_blob, open_blob, local_wrapper, new_local,
}

-- What the envelope relies on: a wrapped key unwraps to itself under the same row identity,
-- re-wrapping in place keeps the key, and a batch answers as one call for each key would.
pub record IsHonest (w : Wrapper) : Type 0 where
  pub unwrap-wrap :
      (drawn dek aad wrapped : Bytes)
      → length drawn ≡ nonce_bytes
      → w.wrap drawn dek aad ≡ ok wrapped
      → w.unwrap wrapped aad ≡ ok dek
  pub rewrap_keeps :
      (r : Bytes → Bytes → Result Error (Bytes × Bool)) (wrapped wrapped' aad : Bytes)
      (changed : Bool)
      → w.rewrap ≡ some r
      → r wrapped aad ≡ ok (wrapped', changed)
      → w.unwrap wrapped' aad ≡ w.unwrap wrapped aad
  pub batch_agrees :
      (u : List (Bytes × Bytes) → Result Error (List (Result Error Bytes)))
      (xs : List (Bytes × Bytes)) (deks : List (Result Error Bytes))
      → w.unwrap_many ≡ some u
      → u xs ≡ ok deks
      → deks ≡ map (λ (x : Bytes × Bytes). w.unwrap x.0 x.1) xs

pub take-append_left : (n : ℕ) (xs ys : Bytes) → length xs ≡ n → take n (xs ++ ys) ≡ xs
take-append_left zero [] ys h = refl
take-append_left zero (x ∷ xs) ys h = absurd (omega arith)
take-append_left (suc n) [] ys h = absurd (omega arith)
take-append_left (suc n) (x ∷ xs) ys h =
    ap (λ (t : Bytes). x ∷ t) (take-append_left n xs ys (omega arith))

pub drop-append_left : (n : ℕ) (xs ys : Bytes) → length xs ≡ n → drop n (xs ++ ys) ≡ ys
drop-append_left zero [] ys h = refl
drop-append_left zero (x ∷ xs) ys h = absurd (omega arith)
drop-append_left (suc n) [] ys h = absurd (omega arith)
drop-append_left (suc n) (x ∷ xs) ys h = drop-append_left n xs ys (omega arith)

pub long_enough :
    (nonce rest : Bytes)
    → length nonce ≡ nonce_bytes
    → ltb (length (nonce ++ rest)) nonce_bytes ≡ false
long_enough nonce rest h = ground (arith, length-append {0} nonce rest)

module _ (aead : Aead) where
  -- What `seal` wrote, `open` reads back, under the same key and row identity.
  pub open_blob-seal_blob :
      (key nonce plaintext aad : Bytes)
      → length nonce ≡ nonce_bytes
      → open_blob aead key (seal_blob aead key nonce plaintext aad) aad ≡ ok plaintext
  unfolding open_blob seal_blob
  open_blob-seal_blob key nonce plaintext aad h =
      let body = aead.seal key nonce plaintext aad in
      rw (
        long_enough nonce body h,
        take-append_left nonce_bytes nonce body h,
        drop-append_left nonce_bytes nonce body h,
        aead.open-seal key nonce plaintext aad,
      )

  local_wrapper-IsHonest :
      (fingerprint : Bytes → Text) (key : Bytes) → IsHonest (local_wrapper aead fingerprint key)
  local_wrapper-IsHonest fingerprint key = record {
    unwrap-wrap = λ drawn dek aad wrapped size made.
        let same : seal_blob aead key drawn dek aad ≡ wrapped = cc in
        rw (← same) (open_blob-seal_blob key drawn dek aad size);
    rewrap_keeps = λ r wrapped wrapped' aad changed has. cc has;
    batch_agrees = λ u xs deks has. cc has;
  }

  -- Every wrapper that `NewLocal` returns meets the contract.
  pub new_local-IsHonest :
      (fingerprint : Bytes → Text) (key : Bytes) (w : Wrapper)
      → new_local aead fingerprint key ≡ ok w
      → IsHonest w
  unfolding new_local
  new_local-IsHonest fingerprint key w h = elim (Bool-cases (is_key key)) [
    | inl right ↦
        let same : local_wrapper aead fingerprint key ≡ w = ground arith in
        subst IsHonest same (local_wrapper-IsHonest fingerprint key)
    | inr wrong ↦ cc (h, wrong)
  ]
