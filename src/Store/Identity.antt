-- ===== src/Store/Identity.antt =====
-- The identity that a row is sealed under, and what a search hash is made of.
use sealbox.Base.{
  ◌≡◌, ◌≢◌, refl, ap, length, length-append, [], ◌∷◌, ◌++◌, Text, codes, All, arith, append_assoc,
  append_cancel_left,
}
use sealbox.Store.Tables.{aad, hash_input}

-- No NUL among the code points.
abbrev pub IsPlain : Text → Type 0
IsPlain = All (λ c. c ≢ 0)

-- Up to the first NUL two texts with the same bytes are the same.
pub split_at_nul :
    (a b x y : Text) → IsPlain a → IsPlain b → a ++ (0 ∷ x) ≡ b ++ (0 ∷ y) → (a ≡ b) × (x ≡ y)
split_at_nul [] [] x y pa pb h = (refl, cc)
split_at_nul [] (c ∷ b) x y pa (nz, pb) h = ground (arith, nz)
split_at_nul (c ∷ a) [] x y (nz, pa) pb h = ground (arith, nz)
split_at_nul (c ∷ a) (d ∷ b) x y (_, pa) (_, pb) h =
    let heads : c ≡ d = cc in
    let tails : a ++ (0 ∷ x) ≡ b ++ (0 ∷ y) = cc in
    let (same, rest) = split_at_nul a b x y pa pb tails in (cc (heads, same), rest)

-- Two rows with one identity are one row, if their collections have no NUL; their ids may.
pub aad_injective :
    (c c' id id' : Text) → IsPlain c → IsPlain c' → aad c id ≡ aad c' id' → (c ≡ c') × (id ≡ id')
unfolding aad
aad_injective c c' id id' pc pc' h =
    split_at_nul c c' id id' pc pc'
      (append_cancel_left (codes "objects" ++ (0 ∷ [])) (c ++ (0 ∷ id)) (c' ++ (0 ∷ id')) h)

-- NUL separators alone do not keep rows apart: for every a, b and c, the pair of a collection "a" and an
-- id "b NUL c" and the pair of a collection "a NUL b" and an id "c" are different, and
-- have one identity.
pub aad_shift :
    (a b c : Text)
    → (a ≢ a ++ (0 ∷ b)) × (b ++ (0 ∷ c) ≢ c) × (aad a (b ++ (0 ∷ c)) ≡ aad (a ++ (0 ∷ b)) c)
unfolding aad
aad_shift a b c = (
  λ same. let sizes = ap length same in omega (arith, length-append a (0 ∷ b)),
  λ same. let sizes = ap length same in omega (arith, length-append b (0 ∷ c)),
  cc (append_assoc a (0 ∷ b) (0 ∷ c)),
)

-- A search hash input stands for one collection, field and value, if the collection and the field
-- have no NUL.
pub hash_input_injective :
    (c c' f f' v v' : Text)
    → IsPlain c
    → IsPlain c'
    → IsPlain f
    → IsPlain f'
    → hash_input c f v ≡ hash_input c' f' v'
    → (c ≡ c') × (f ≡ f') × (v ≡ v')
unfolding hash_input
hash_input_injective c c' f f' v v' pc pc' pf pf' h =
    let (one, rest) = split_at_nul c c' (f ++ (0 ∷ v)) (f' ++ (0 ∷ v')) pc pc' h in
    let (two, three) = split_at_nul f f' v v' pf pf' rest in (one, two, three)
