-- ===== src/Transit/Version.antt =====
-- The version of a transit ciphertext.
use sealbox.Base.{
  ◌≡◌, refl, Bool, true, not, some, [], ◌∷◌, ◌++◌, Text, ◌==◌, ok, eqb, all, arith, Bool-cases, inl,
  inr,
}
use sealbox.Transit.{Engine, Base64, answered, call, cut_colon, version, rewrap}

abbrev pub has_no_colon : Text → Bool
has_no_colon s = all (λ c. not (eqb c b':')) s

cut_colon-append : (a s : Text) → has_no_colon a ≡ true → cut_colon (a ++ (b':' ∷ s)) ≡ some (a, s)
unfolding cut_colon
cut_colon-append [] s h = refl
cut_colon-append (c ∷ a) s h = elim (Bool-cases (eqb c b':')) [
  | inl colon ↦ ground (arith, h, colon)
  | inr other ↦ ground (arith, other, cut_colon-append a s (ground (arith, h, other)))
]

pub version-append :
    (scheme number rest : Text)
    → has_no_colon scheme ≡ true
    → has_no_colon number ≡ true
    → version (scheme ++ (b':' ∷ (number ++ (b':' ∷ rest)))) ≡ scheme ++ (b':' ∷ number)
unfolding version
version-append scheme number rest h k =
    ground
      (arith, cut_colon-append scheme (number ++ (b':' ∷ rest)) h, cut_colon-append number rest k)

module _ (e : Engine) (b : Base64) where
  -- A key counts as re-wrapped exactly when the version moved: for ciphertexts of the form
  -- "scheme:version:...", where neither part has a colon, `Rewrap` returns the engine's new ciphertext,
  -- and says that it changed if and only if the scheme and the version are not the same text.
  pub rewrap-version :
      (scheme number rest scheme' number' rest' aad : Text)
      → has_no_colon scheme ≡ true
      → has_no_colon number ≡ true
      → has_no_colon scheme' ≡ true
      → has_no_colon number' ≡ true
      → e.rewrap (scheme ++ (b':' ∷ (number ++ (b':' ∷ rest)))) (b.encode aad)
        ≡ answered (scheme' ++ (b':' ∷ (number' ++ (b':' ∷ rest'))))
      → rewrap e b (scheme ++ (b':' ∷ (number ++ (b':' ∷ rest)))) aad
        ≡ ok (
          scheme' ++ (b':' ∷ (number' ++ (b':' ∷ rest'))),
          not (scheme' ++ (b':' ∷ number') == scheme ++ (b':' ∷ number)),
        )
  unfolding rewrap call
  rewrap-version scheme number rest scheme' number' rest' aad a c a' c' h =
      ground (
        arith,
        h,
        version-append scheme number rest a c,
        version-append scheme' number' rest' a' c',
      )
