-- ===== src/Envelope/RoundTrip.antt =====
-- Sealing and opening: the round trip, and a row that was moved or shredded.
use mathlib.Core.Logic.{◌≢◌}
use sealbox.Base.{
  ◌≡◌, refl, true, none, some, List, [], ◌∷◌, Text, eq_iff, Dict, lookup, insert, lookup-insert,
  Result, ok, err, arith, length, Bool-cases, Option-cases, Result-cases, ◌⊎◌, inl, inr,
}
use sealbox.Envelope.{
  Bytes, Error, open_failed, Aead, Draw, Wrapper, Sealed, Envelope, new, add_wrappers, nonce_bytes,
  key_bytes, is_key, unwrap, seal_blob, open_blob, local_wrapper, seal, open_with_dek, open_value,
}
use sealbox.Envelope.Local.{
  IsHonest, open_blob-seal_blob, take-append_left, drop-append_left, long_enough,
}

lookup-add_wrappers :
    (all : Dict Wrapper) (previous : List Wrapper) (k : Text) (w : Wrapper)
    → lookup k all ≡ some w
    → lookup k (add_wrappers all previous) ≡ some w
unfolding add_wrappers
lookup-add_wrappers all [] k w h = h
lookup-add_wrappers all (v ∷ previous) k w h = elim (Option-cases (lookup v.id all)) [
  | inl fresh ↦ rw fresh (
      lookup-add_wrappers (insert v.id v all) previous k w
        (ground (arith, h, fresh, eq_iff v.id k, lookup-insert v.id k v all)))
  | inr (u, dup) ↦ rw dup (lookup-add_wrappers all previous k w h)
]

-- The current wrapper is always loaded under its own id, whatever the previous ones are.
pub new-lookup :
    (current : Wrapper) (previous : List Wrapper)
    → lookup current.id (new current previous).all ≡ some current
unfolding new lookup
new-lookup current previous =
    lookup-add_wrappers ((current.id, current) ∷ []) previous current.id current
      (ground (arith, eq_iff current.id current.id))

-- The sizes that `rand.Read` was asked for.
pub record IsDraw (d : Draw) : Type 0 where
  pub dek : length d.dek ≡ key_bytes
  pub wrap_nonce : length d.wrap_nonce ≡ nonce_bytes
  pub nonce : length d.nonce ≡ nonce_bytes

is_key_of_length : (k : Bytes) → length k ≡ key_bytes → is_key k ≡ true
is_key_of_length k h = ground arith

pub unwrap_of :
    (e : Envelope) (s : Sealed) (aad dek : Bytes) (w : Wrapper)
    → lookup s.key_id e.all ≡ some w
    → w.unwrap s.wrapped_dek aad ≡ ok dek
    → is_key dek ≡ true
    → unwrap e s aad ≡ ok dek
unfolding unwrap
unwrap_of e s aad dek w loaded unwrapped right = ground arith

unwrap_refused :
    (e : Envelope) (s : Sealed) (aad : Bytes) (w : Wrapper) (x : Error)
    → lookup s.key_id e.all ≡ some w
    → w.unwrap s.wrapped_dek aad ≡ err x
    → unwrap e s aad ≡ err x
unfolding unwrap
unwrap_refused e s aad w x loaded failed = ground arith

module _ (aead : Aead) where
  sealed_parts :
      (e : Envelope) (d : Draw) (plaintext aad : Bytes) (s : Sealed)
      → seal aead e d plaintext aad ≡ ok s
      → (is_key d.dek ≡ true)
        × (s.key_id ≡ e.current.id)
        × (e.current.wrap d.wrap_nonce d.dek aad ≡ ok s.wrapped_dek)
        × (s.ciphertext ≡ seal_blob aead d.dek d.nonce plaintext aad)
  unfolding seal
  sealed_parts e d plaintext aad s h = elim (Bool-cases (is_key d.dek)) [
    | inl right ↦ elim (Result-cases (e.current.wrap d.wrap_nonce d.dek aad)) [
      | inl (wrapped, made) ↦ (
        right,
        ground (arith, right, made),
        ground (arith, right, made),
        ground (arith, right, made),
      )
      | inr (failure, failed) ↦ cc (h, right, failed)
    ]
    | inr wrong ↦ cc (h, wrong)
  ]

  -- A value sealed under one envelope opens, under the same row identity, in every envelope that
  -- has the wrapper it was sealed with, current or previous, if that wrapper is honest and the
  -- randomness has the sizes that were asked for.
  pub open_value-seal :
      (sealer opener : Envelope) (d : Draw) (plaintext aad : Bytes) (s : Sealed)
      → IsHonest sealer.current
      → IsDraw d
      → lookup sealer.current.id opener.all ≡ some sealer.current
      → seal aead sealer d plaintext aad ≡ ok s
      → open_value aead opener s aad ≡ ok plaintext
  open_value-seal sealer opener d plaintext aad s honest sizes loaded sealed =
      let (right, named, wrapped, body) = sealed_parts sealer d plaintext aad s sealed in
      let unwrapped =
        honest.unwrap-wrap d.wrap_nonce d.dek aad s.wrapped_dek sizes.wrap_nonce wrapped in
      let found : lookup s.key_id opener.all ≡ some sealer.current = cc (named, loaded) in
      let key = unwrap_of opener s aad d.dek sealer.current found unwrapped right in
      let read = open_blob-seal_blob aead d.dek d.nonce plaintext aad sizes.nonce in
      unfold open_value open_with_dek in rw (key, right, body, read)

  -- No text sealed under one row identity is also sealed, with the same key and nonce, under
  -- another: the cipher authenticates its associated data.
  abbrev pub IsBinding : Type 0
  IsBinding =
      (key nonce p q a b : Bytes) → aead.seal key nonce p a ≡ aead.seal key nonce q b → a ≡ b

  open_blob_moved :
      (key nonce plaintext a b : Bytes)
      → IsBinding
      → length nonce ≡ nonce_bytes
      → a ≢ b
      → open_blob aead key (seal_blob aead key nonce plaintext a) b ≡ err open_failed
  unfolding open_blob seal_blob
  open_blob_moved key nonce plaintext a b binding size apart =
      let body = aead.seal key nonce plaintext a in
      rw
        (
          long_enough nonce body size,
          take-append_left nonce_bytes nonce body size,
          drop-append_left nonce_bytes nonce body size,
        )
        (refused (Option-cases (aead.open_sealed key nonce body b)))
    where
      refused :
          (aead.open_sealed key nonce (aead.seal key nonce plaintext a) b ≡ none)
            ⊎ ((q : Bytes) × (aead.open_sealed key nonce (aead.seal key nonce plaintext a) b
                  ≡ some q))
          → ◌≡◌ {A = Result Error Bytes}
              (elim (aead.open_sealed key nonce (aead.seal key nonce plaintext a) b) [
                | none ↦ err open_failed
                | some plaintext ↦ ok plaintext
              ])
              (err open_failed)
      refused (inl no_match) = ground (arith, no_match)
      refused (inr (q, opened)) = absurd (
          apart (
            binding key nonce plaintext q a b
              (aead.open_only key nonce (aead.seal key nonce plaintext a) b q opened)))

  -- A row sealed under a local master key does not open under another row's identity: it answers
  -- `ErrOpen`, if the cipher binds its associated data.
  pub open_value_moved :
      (fingerprint : Bytes → Text) (key : Bytes) (previous : List Wrapper) (d : Draw)
      (plaintext aad other : Bytes) (s : Sealed)
      → IsBinding
      → IsDraw d
      → aad ≢ other
      → seal aead (new (local_wrapper aead fingerprint key) previous) d plaintext aad ≡ ok s
      → open_value aead (new (local_wrapper aead fingerprint key) previous) s other
        ≡ err open_failed
  unfolding new
  open_value_moved fingerprint key previous d plaintext aad other s binding sizes apart sealed =
      let w = local_wrapper aead fingerprint key in
      let e = new w previous in
      let (right, named, wrapped, body) = sealed_parts e d plaintext aad s sealed in
      let stored : seal_blob aead key d.wrap_nonce d.dek aad ≡ s.wrapped_dek =
        ground (arith, wrapped) in
      let found : lookup s.key_id e.all ≡ some w = cc (named, new-lookup w previous) in
      let refused : open_blob aead key s.wrapped_dek other ≡ err open_failed =
        rw (← stored)
          (open_blob_moved key d.wrap_nonce d.dek aad other binding sizes.wrap_nonce apart) in
      unfold open_value in rw (unwrap_refused e s other w open_failed found refused)

  -- Under a local master key a value whose wrapped key was destroyed does not open, whatever its
  -- ciphertext and its row identity.
  pub open_value_shredded :
      (fingerprint : Bytes → Text) (key : Bytes) (previous : List Wrapper) (aad : Bytes)
      (s : Sealed)
      → s.key_id ≡ fingerprint key
      → s.wrapped_dek ≡ []
      → open_value aead (new (local_wrapper aead fingerprint key) previous) s aad ≡ err open_failed
  open_value_shredded fingerprint key previous aad s named gone =
      let w = local_wrapper aead fingerprint key in
      let e = new w previous in
      let found : lookup s.key_id e.all ≡ some w = cc (named, new-lookup w previous) in
      let refused : open_blob aead key s.wrapped_dek aad ≡ err open_failed =
        rw gone (unfold open_blob in refl) in
      unfold open_value in rw (unwrap_refused e s aad w open_failed found refused)
