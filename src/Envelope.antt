-- ===== src/Envelope.antt =====
-- internal/envelope/envelope.go: every value under its own key, that key under a wrapping key.
-- The cipher of golang.org/x/crypto and the key services are parameters; what `rand.Read` returns
-- enters as a `Draw`. The local wrapper and the batched opening are defined here in full.
pub mod Local
pub mod RoundTrip
pub mod Groups
pub mod Batch
pub mod Rewrap
use sealbox.Base.{
  ℕ, suc, Bool, true, false, ◌&&◌, not, Option, none, some, List, [], ◌∷◌, ◌++◌, map, Text, ◌==◌,
  Dict, lookup, insert, Result, ok, err, ◌>>=◌, ◌>>◌, stop_if, ltb, eqb, length, take, drop,
  if◌then◌else◌, ◌≡◌,
}

abbrev pub Bytes : Type 0
Bytes = List ℕ

-- `ErrOpen`, `ErrUnknownKey`, a key of the wrong size, the failure of a key service with its own
-- message, and the panic of an index out of range
pub data Error : Type 0 where
  open_failed unknown_key key_size index_panic : Error
  backend : Text → Error

-- `errors.Is(err, ErrOpen)`
unfoldable pub is_open_failed : Error → Bool
is_open_failed open_failed = true
is_open_failed _ = false

-- XChaCha20-Poly1305 of golang.org/x/crypto: opening is the exact inverse of sealing.
pub record Aead : Type 0 where
  pub seal : Bytes → Bytes → Bytes → Bytes → Bytes
  pub open_sealed : Bytes → Bytes → Bytes → Bytes → Option Bytes
  pub open-seal :
      (key nonce plaintext aad : Bytes)
      → open_sealed key nonce (seal key nonce plaintext aad) aad ≡ some plaintext
  pub open_only :
      (key nonce sealed aad plaintext : Bytes)
      → open_sealed key nonce sealed aad ≡ some plaintext
      → sealed ≡ seal key nonce plaintext aad

abbrev pub key_bytes : ℕ
key_bytes = 32

abbrev pub nonce_bytes : ℕ
nonce_bytes = 24

-- what `rand.Read` returns during one `Seal`: the data key and the nonces of its two seals
pub record Draw : Type 0 where
  pub dek : Bytes
  pub wrap_nonce : Bytes
  pub nonce : Bytes

-- The interface `Wrapper`; a `Rewrapper` and a `BatchUnwrapper` have one more method each. The
-- first argument of `wrap` is the randomness that it draws.
pub record Wrapper : Type 0 where
  pub id : Text
  pub wrap : Bytes → Bytes → Bytes → Result Error Bytes
  pub unwrap : Bytes → Bytes → Result Error Bytes
  pub rewrap : Option (Bytes → Bytes → Result Error (Bytes × Bool))
  pub unwrap_many : Option (List (Bytes × Bytes) → Result Error (List (Result Error Bytes)))

-- A NULL or nil wrapped key is the empty one.
pub record Sealed : Type 0 where
  pub key_id : Text
  pub wrapped_dek : Bytes
  pub ciphertext : Bytes

pub record Envelope : Type 0 where
  pub current : Wrapper
  pub all : Dict Wrapper

add_wrappers : Dict Wrapper → List Wrapper → Dict Wrapper
add_wrappers all [] = all
add_wrappers all (w ∷ previous) =
    add_wrappers (elim (lookup w.id all) [ none ↦ insert w.id w all | some _ ↦ all ]) previous

-- `New`
unfoldable pub new : Wrapper → List Wrapper → Envelope
unfolding add_wrappers
new current previous = record {
  current = current;
  all = add_wrappers ((current.id, current) ∷ []) previous;
}

abbrev pub current_key_id : Envelope → Text
current_key_id e = e.current.id

unfoldable pub rewraps_in_place : Envelope → Bool
rewraps_in_place e = elim e.current.rewrap [ none ↦ false | some _ ↦ true ]

-- the check that `NewX` makes, and that `unwrap` and `openWithDEK` repeat
abbrev pub is_key : Bytes → Bool
is_key key = eqb (length key) key_bytes

-- The named wrapper's answer, if it is a key.
unfoldable pub unwrap : Envelope → Sealed → Bytes → Result Error Bytes
unwrap e s aad = elim (lookup s.key_id e.all) [
  | none ↦ err unknown_key
  | some w ↦ w.unwrap s.wrapped_dek aad >>= λ dek. if is_key dek then ok dek else err open_failed
]

-- `Rewrap`: the row under the current wrapper, and whether anything changed
unfoldable pub rewrap_in_place : Envelope → Sealed → Bytes → Result Error (Sealed × Bool)
rewrap_in_place e s aad = elim e.current.rewrap [
  | none ↦ ok (s, false)
  | some r ↦ r s.wrapped_dek aad >>= λ (wrapped, changed).
      if changed then ok (record s { wrapped_dek = wrapped }, true) else ok (s, false)
]

unfoldable pub rewrap : Envelope → Bytes → Sealed → Bytes → Result Error (Sealed × Bool)
rewrap e drawn s aad = if s.key_id == e.current.id then rewrap_in_place e s aad else (do
  dek ← unwrap e s aad
  wrapped ← e.current.wrap drawn dek aad
  ok (record s { key_id = e.current.id; wrapped_dek = wrapped }, true))

-- one value of `OpenMany`: where its result goes, the value, and its row identity
pub record Entry : Type 0 where
  pub position : ℕ
  pub sealed : Sealed
  pub aad : Bytes

-- `plaintexts` and `errs` together, by index
abbrev pub Slots : Type 0
Slots = ℕ → Result Error Bytes

unfoldable pub set_slot : Slots → ℕ → Result Error Bytes → Slots
set_slot r i v j = if eqb i j then v else r j

-- the values of a call, numbered from an index on
unfoldable pub number : ℕ → List (Sealed × Bytes) → List Entry
number i [] = []
number i ((s, aad) ∷ rest) = record { position = i; sealed = s; aad = aad } ∷ number (suc i) rest

-- the slots from an index on, as many as there are values
unfoldable pub read_slots : Slots → ℕ → List (Sealed × Bytes) → List (Result Error Bytes)
read_slots r i [] = []
read_slots r i (_ ∷ rest) = r i ∷ read_slots r (suc i) rest

-- `byKey[s.KeyID] = append(byKey[s.KeyID], i)`
unfoldable pub add_to_group : Text → Entry → Dict (List Entry) → Dict (List Entry)
add_to_group k x [] = (k, x ∷ []) ∷ []
add_to_group k x ((j, xs) ∷ groups) =
    if j == k then (j, xs ++ x ∷ []) ∷ groups else (j, xs) ∷ add_to_group k x groups

unfoldable pub group : List Entry → Dict (List Entry) → Dict (List Entry)
group [] groups = groups
group (x ∷ xs) groups = group xs (add_to_group x.sealed.key_id x groups)

-- the branch for a wrapper that is asked once for each key: a backend failure stops the call
unfoldable pub unwrap_each : Wrapper → List Entry → Result Error (List (Result Error Bytes))
unwrap_each w [] = ok []
unwrap_each w (x ∷ xs) = elim (w.unwrap x.sealed.wrapped_dek x.aad) [
  | ok dek ↦ unwrap_each w xs >>= λ rest. ok (ok dek ∷ rest)
  | err e ↦ if is_open_failed e then unwrap_each w xs >>= (λ rest. ok (err e ∷ rest)) else err e
]

unfoldable pub unwrap_group : Wrapper → List Entry → Result Error (List (Result Error Bytes))
unwrap_group w xs = elim w.unwrap_many [
  | none ↦ unwrap_each w xs
  | some many ↦ many (map (λ (x : Entry). (x.sealed.wrapped_dek, x.aad)) xs)
]

unfoldable pub fail_group : List Entry → Slots → Slots
fail_group [] r = r
fail_group (x ∷ xs) r = fail_group xs (set_slot r x.position (err unknown_key))

module _ (aead : Aead) where
  -- `seal` and `open` of the package: the nonce stands before the ciphertext
  unfoldable pub seal_blob : Bytes → Bytes → Bytes → Bytes → Bytes
  seal_blob key nonce plaintext aad = nonce ++ aead.seal key nonce plaintext aad

  unfoldable pub open_blob : Bytes → Bytes → Bytes → Result Error Bytes
  open_blob key blob aad =
      if ltb (length blob) nonce_bytes
      then err open_failed
      else (elim (aead.open_sealed key (take nonce_bytes blob) (drop nonce_bytes blob) aad) [
        | none ↦ err open_failed
        | some plaintext ↦ ok plaintext
      ])

  -- the methods of `Local`; `fingerprint` is the function `KeyID`, an HMAC of the key
  abbrev pub local_wrapper : (Bytes → Text) → Bytes → Wrapper
  local_wrapper fingerprint key = record {
    id = fingerprint key;
    wrap = λ drawn dek aad. ok (seal_blob key drawn dek aad);
    unwrap = λ wrapped aad. open_blob key wrapped aad;
    rewrap = none;
    unwrap_many = none;
  }

  -- `NewLocal`
  unfoldable pub new_local : (Bytes → Text) → Bytes → Result Error Wrapper
  new_local fingerprint key =
      if is_key key then ok (local_wrapper fingerprint key) else err key_size

  -- `Envelope.Seal`
  unfoldable pub seal : Envelope → Draw → Bytes → Bytes → Result Error Sealed
  seal e d plaintext aad = do
    stop_if (not (is_key d.dek)) key_size
    wrapped ← e.current.wrap d.wrap_nonce d.dek aad
    ok (record {
      key_id = e.current.id;
      wrapped_dek = wrapped;
      ciphertext = seal_blob d.dek d.nonce plaintext aad;
    })

  unfoldable pub open_with_dek : Bytes → Bytes → Bytes → Result Error Bytes
  open_with_dek dek ciphertext aad =
      if is_key dek then open_blob dek ciphertext aad else err open_failed

  -- `Envelope.Open`
  unfoldable pub open_value : Envelope → Sealed → Bytes → Result Error Bytes
  open_value e s aad = unwrap e s aad >>= λ dek. open_with_dek dek s.ciphertext aad

  unfoldable pub fill_group : List Entry → List (Result Error Bytes) → Slots → Result Error Slots
  fill_group [] deks r = ok r
  fill_group (x ∷ xs) [] r = err index_panic
  fill_group (x ∷ xs) (ok dek ∷ deks) r =
      fill_group xs deks (set_slot r x.position (open_with_dek dek x.sealed.ciphertext x.aad))
  fill_group (x ∷ xs) (err e ∷ deks) r = fill_group xs deks (set_slot r x.position (err e))

  unfoldable pub open_group : Envelope → Text → List Entry → Slots → Result Error Slots
  open_group e k xs r = elim (lookup k e.all) [
    | none ↦ ok (fail_group xs r)
    | some w ↦ unwrap_group w xs >>= λ deks. fill_group xs deks r
  ]

  unfoldable pub open_groups : Envelope → Dict (List Entry) → Slots → Result Error Slots
  open_groups e [] r = ok r
  open_groups e ((k, xs) ∷ groups) r = open_group e k xs r >>= open_groups e groups

  -- `Envelope.OpenMany`
  unfoldable pub open_many :
      Envelope → List (Sealed × Bytes) → Result Error (List (Result Error Bytes))
  open_many e rows =
      open_groups e (group (number 0 rows) []) (λ _. ok []) >>= λ r. ok (read_slots r 0 rows)
