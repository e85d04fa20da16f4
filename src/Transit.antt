-- ===== src/Transit.antt =====
-- internal/envelope/transit.go: wrapping keys with a transit secrets engine. Strings are their bytes here.
-- The engine, behind HTTP and JSON, and base64 are parameters.
pub mod Contract
pub mod Version
use sealbox.Base.{
  ℕ, zero, suc, Bool, true, false, not, Option, none, some, List, [], ◌∷◌, ◌++◌, map, Text, codes,
  ◌==◌, Result, ok, err, ◌>>=◌, eqb, length, take, drop, if◌then◌else◌,
}
use sealbox.Envelope.{Bytes, Error, open_failed, backend, Wrapper}

-- What one HTTP call comes to: no answer, an answer of another status than 200 with its error
-- texts, one of status 200 that is not the JSON asked for, or the JSON.
pub data Reply (A : Type 0) : Type 0 where
  unreachable unreadable : Text → Reply A
  refused : ℕ → Text → Reply A
  answered : A → Reply A

-- One element of "batch_results".
pub record BatchResult : Type 0 where
  pub plaintext : Text
  pub error : Text

-- The engine's operations on one key: the fields of the request that are sent, and the field of the
-- answer that is read. The first argument of `encrypt` is the randomness that the engine draws.
pub record Engine : Type 0 where
  pub encrypt : Bytes → Text → Text → Reply Text
  pub decrypt : Text → Text → Reply Text
  pub rewrap : Text → Text → Reply Text
  pub decrypt_batch : List (Text × Text) → Reply (List BatchResult)

-- `base64.StdEncoding`
pub record Base64 : Type 0 where
  pub encode : Bytes → Text
  pub decode : Text → Option Bytes

-- `call`: 400 means that the engine rejected the ciphertext or the context
unfoldable pub call : {A : Type 0} → Reply A → Result Error A
call (unreachable m) = err (backend m)
call (unreadable m) = err (backend m)
call (refused status m) = if eqb status 400 then err open_failed else err (backend m)
call (answered a) = ok a

-- `strings.Trim(mount, "/")`
abbrev trim_left : Text → Text
trim_left [] = []
trim_left (c ∷ s) = let rest = trim_left s in if eqb c b'/' then rest else c ∷ s

abbrev trim_right : Text → Text
trim_right [] = []
trim_right (c ∷ s) =
    let rest = trim_right s in
    if eqb c b'/' then (elim rest [ [] ↦ [] | d ∷ more ↦ c ∷ d ∷ more ]) else c ∷ rest

-- `ID`
unfoldable pub transit_id : Text → Text → Text
transit_id mount key = codes "transit:" ++ (trim_right (trim_left mount) ++ (b'/' ∷ key))

abbrev pub batch_size : ℕ
batch_size = 500

-- the text before the first colon and the one after it
unfoldable pub cut_colon : Text → Option (Text × Text)
cut_colon [] = none
cut_colon (c ∷ s) =
    let rest = cut_colon s in
    if eqb c b':' then some ([], s) else (elim rest [ none ↦ none | some (a, b) ↦ some (c ∷ a, b) ])

-- `version`
unfoldable pub version : Text → Text
version ciphertext = elim (cut_colon ciphertext) [
  | none ↦ ciphertext
  | some (scheme, rest) ↦ elim (cut_colon rest) [
    | none ↦ ciphertext
    | some (number, _) ↦ scheme ++ (b':' ∷ number)
  ]
]

module _ (e : Engine) (b : Base64) where
  -- a base64 text that does not decode does not open
  abbrev pub decoded : Text → Result Error Bytes
  decoded t = elim (b.decode t) [ none ↦ err open_failed | some dek ↦ ok dek ]

  -- `Wrap`
  unfoldable pub wrap : Bytes → Bytes → Bytes → Result Error Bytes
  wrap drawn dek aad = call (e.encrypt drawn (b.encode dek) (b.encode aad))

  -- `Unwrap`
  unfoldable pub unwrap : Bytes → Bytes → Result Error Bytes
  unwrap wrapped aad = call (e.decrypt wrapped (b.encode aad)) >>= decoded

  -- `Rewrap`
  unfoldable pub rewrap : Bytes → Bytes → Result Error (Bytes × Bool)
  rewrap wrapped aad = call (e.rewrap wrapped (b.encode aad)) >>= λ moved.
      ok (moved, not (version moved == version wrapped))

  abbrev pub slot : BatchResult → Result Error Bytes
  slot r = if r.error == [] then decoded r.plaintext else err open_failed

  abbrev pub item : Bytes × Bytes → Text × Text
  item (wrapped, aad) = (wrapped, b.encode aad)

  -- one round trip of `UnwrapMany`
  unfoldable pub unwrap_batch : List (Bytes × Bytes) → Result Error (List (Result Error Bytes))
  unwrap_batch xs = call (e.decrypt_batch (map item xs)) >>= λ results.
      if eqb (length results) (length xs)
      then ok (map slot results)
      else err (backend (codes "results"))

  -- `UnwrapMany`: its loop, with fuel; none is the model's own, when the fuel was not enough
  unfoldable pub unwrap_loop :
      ℕ → List (Bytes × Bytes) → Option (Result Error (List (Result Error Bytes)))
  unwrap_loop fuel [] = some (ok [])
  unwrap_loop zero (x ∷ xs) = none
  unwrap_loop (suc fuel) (x ∷ xs) = elim (unwrap_batch (take batch_size (x ∷ xs))) [
    | err failed ↦ some (err failed)
    | ok out ↦ elim (unwrap_loop fuel (drop batch_size (x ∷ xs))) [
      | none ↦ none
      | some more ↦ some (more >>= λ rest. ok (out ++ rest))
    ]
  ]

  -- one round for each key is more than enough
  unfoldable pub unwrap_many : List (Bytes × Bytes) → Result Error (List (Result Error Bytes))
  unwrap_many xs = elim (unwrap_loop (length xs) xs) [
    | some r ↦ r
    | none ↦ err (backend (codes "fuel"))
  ]

  -- `NewTransit`, as the interface `Wrapper` sees it
  unfoldable pub transit_wrapper : Text → Text → Wrapper
  transit_wrapper mount key = record {
    id = transit_id mount key;
    wrap = wrap;
    unwrap = unwrap;
    rewrap = some rewrap;
    unwrap_many = some unwrap_many;
  }
