-- ===== src/Examples/Engines.antt =====
-- An engine that keeps its contract: a ciphertext is "v:N:", the context with its length, and the plaintext.
use mathlib.Core.Path.{subst}
use sealbox.Base.{
  ◌≡◌, ◌≢◌, ◌⊎◌, refl, ap, not, Option, none, some, List, [], ◌∷◌, ◌++◌, map, Text, codes, ◌==◌, ok,
  length, arith, Option-cases, inl, inr,
}
use sealbox.Envelope.{Bytes}
use sealbox.Envelope.Local.{IsHonest}
use sealbox.Transit.{
  Engine, Base64, BatchResult, Reply, answered, refused, rewrap, unwrap_loop, transit_wrapper,
}
use sealbox.Transit.Contract.{AreResults, IsEngine, IsBase64, transit_wrapper-IsHonest}
use sealbox.Transit.Version.{rewrap-version}
use sealbox.Examples.Fixtures.{strip, strip-append}

abbrev plain64 : Base64
plain64 = record { encode = λ bytes. bytes; decode = λ text. some text }

plain64-IsBase64 : IsBase64 plain64
plain64-IsBase64 = record { decode-encode = λ bytes. refl }

abbrev or_reject : Option Text → Reply Text
or_reject none = refused 400 (codes "bad")
or_reject (some p) = answered p

abbrev decrypt : Text → Text → Reply Text
decrypt (v ∷ a ∷ n ∷ b ∷ rest) context = or_reject (strip (length context ∷ context) rest)
decrypt _ context = refused 400 (codes "bad")

-- re-encryption under the second version of the key
abbrev move : Text → Text → Reply Text
move (v ∷ a ∷ n ∷ b ∷ rest) context = answered (v ∷ a ∷ b'2' ∷ b ∷ rest)
move _ context = refused 400 (codes "bad")

abbrev as_result : Reply Text → BatchResult
as_result (answered p) = record { plaintext = p; error = [] }
as_result _ = record { plaintext = []; error = codes "bad" }

abbrev engine : Engine
engine = record {
  encrypt = λ drawn plaintext context.
      answered (codes "v:1:" ++ ((length context ∷ context) ++ plaintext));
  decrypt = decrypt;
  rewrap = move;
  decrypt_batch = λ xs. answered (map (λ (x : Text × Text). as_result (decrypt x.0 x.1)) xs);
}

answers_or_rejects :
    (ciphertext context : Text)
    → ((p : Text) × (decrypt ciphertext context ≡ answered p))
      ⊎ (decrypt ciphertext context ≡ refused 400 (codes "bad"))
answers_or_rejects (v ∷ a ∷ n ∷ b ∷ rest) context =
    elim (Option-cases (strip (length context ∷ context) rest)) [
      | inl lacks ↦ inr (ground (arith, lacks))
      | inr (p, found) ↦ inl (p, ground (arith, found))
    ]
answers_or_rejects [] context = inr refl
answers_or_rejects (v ∷ []) context = inr refl
answers_or_rejects (v ∷ a ∷ []) context = inr refl
answers_or_rejects (v ∷ a ∷ n ∷ []) context = inr refl

batch :
    (xs : List (Text × Text))
    → AreResults decrypt xs (map (λ (x : Text × Text). as_result (decrypt x.0 x.1)) xs)
unfolding ◌==◌
batch [] = tt
batch ((ciphertext, context) ∷ xs) = elim (answers_or_rejects ciphertext context) [
  | inl (p, yields) ↦
      (λ fine. ground (arith, yields), λ wrong. ground (arith, yields, wrong), batch xs)
  | inr rejects ↦ (λ fine. ground (arith, rejects, fine), λ wrong. (codes "bad", rejects), batch xs)
]

moves :
    (ciphertext context moved : Text)
    → move ciphertext context ≡ answered moved
    → decrypt moved context ≡ decrypt ciphertext context
moves (v ∷ a ∷ n ∷ b ∷ rest) context moved h =
    let same : v ∷ a ∷ b'2' ∷ b ∷ rest ≡ moved = cc in
    subst (λ m. decrypt m context ≡ or_reject (strip (length context ∷ context) rest)) same refl
moves [] context moved h = ground arith
moves (v ∷ []) context moved h = ground arith
moves (v ∷ a ∷ []) context moved h = ground arith
moves (v ∷ a ∷ n ∷ []) context moved h = ground arith

made :
    (drawn : Bytes) (plaintext context ciphertext : Text)
    → engine.encrypt drawn plaintext context ≡ answered ciphertext
    → decrypt ciphertext context ≡ answered plaintext
made drawn plaintext context ciphertext h =
    let same : codes "v:1:" ++ ((length context ∷ context) ++ plaintext) ≡ ciphertext = cc in
    subst (λ m. decrypt m context ≡ answered plaintext) same
      (ap or_reject (strip-append (length context ∷ context) plaintext))

engine-IsEngine : IsEngine engine
engine-IsEngine = record {
  decrypt-encrypt =
      λ drawn plaintext context ciphertext h. made drawn plaintext context ciphertext h;
  decrypt-rewrap = moves;
  decrypt_batch-AreResults = λ xs results h.
      let same : map (λ (x : Text × Text). as_result (decrypt x.0 x.1)) xs ≡ results = cc in
      subst (AreResults decrypt xs) same (batch xs);
}

transit_wrapper-IsHonest_example :
    IsHonest (transit_wrapper engine plain64 (codes "/transit/") (codes "k"))
    × ((xs : List (Bytes × Bytes)) → unwrap_loop engine plain64 (length xs) xs ≢ none)
transit_wrapper-IsHonest_example =
    transit_wrapper-IsHonest engine plain64 engine-IsEngine (codes "/transit/") (codes "k")
      plain64-IsBase64

rewrap-version_example :
    rewrap engine plain64 (codes "v:1:x") (codes "a")
    ≡ ok (codes "v:2:x", not (codes "v:2" == codes "v:1"))
rewrap-version_example =
    rewrap-version engine plain64 (codes "v") (codes "1") (codes "x") (codes "v") (codes "2")
      (codes "x") (codes "a") refl refl refl refl refl
