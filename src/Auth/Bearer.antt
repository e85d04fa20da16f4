-- ===== src/Auth/Bearer.antt =====
-- Whom `authenticate` finds.
use mathlib.Core.Path.{subst}
use sealbox.Base.{
  ℕ, ◌≡◌, ◌≢◌, refl, ap, ◌∙◌, sym, Bool, true, false, Option, none, some, List, [], ◌∷◌, ◌++◌, Text,
  ◌==◌, eq_iff, eq_refl, ok, if◌then◌else◌, arith, All, Any, Bool-cases, Option-cases, inl, inr,
  ◌⊎◌,
}
use sealbox.Auth.{Client, bearer, cut_prefix, match_clients, authenticate, validate_clients}
use sealbox.Auth.Accepted.{IsApart, validate_clients-IsApart}

cut_prefix-append : (p s : Text) → cut_prefix p (p ++ s) ≡ some s
unfolding cut_prefix
cut_prefix-append [] s = refl
cut_prefix-append (a ∷ p) s = ground (arith, cut_prefix-append p s, eq_refl (a ∷ []))

append-cut_prefix : (p t s : Text) → cut_prefix p t ≡ some s → t ≡ p ++ s
unfolding cut_prefix
append-cut_prefix [] t s h = ground arith
append-cut_prefix (a ∷ p) [] s h = cc
append-cut_prefix (a ∷ p) (b ∷ t) s h =
    ground (arith, append-cut_prefix p t s, eq_iff (a ∷ []) (b ∷ []))

module _ {Rate : Type 0} (sha256 : Text → List ℕ) where
  match_none :
      (got : List ℕ) (cs : List (Client Rate)) (found : Option (Client Rate))
      → All (λ (c : Client Rate). (sha256 c.key == got) ≡ false) cs
      → match_clients sha256 got cs found ≡ found
  unfolding match_clients
  match_none got [] found h = refl
  match_none got (c ∷ rest) found (miss, h) = ground (arith, miss, match_none got rest found h)

  match_found :
      (got : List ℕ) (cs : List (Client Rate)) (found : Option (Client Rate)) (c : Client Rate)
      → match_clients sha256 got cs found ≡ some c
      → (found ≡ some c) ⊎ (Any (λ d. d ≡ c) cs × (sha256 c.key ≡ got))
  unfolding match_clients
  match_found got [] found c h = inl h
  match_found got (d ∷ rest) found c h =
      elim (match_found got rest (if sha256 d.key == got then some d else found) c h) [
        | inl here ↦ elim (Bool-cases (sha256 d.key == got)) [
          | inl hit ↦
              let same : d ≡ c = ground (arith, hit) in
              inr (
                inl same,
                ap (λ (x : Client Rate). sha256 x.key) (sym same)
                    ∙ (eq_iff (sha256 d.key) got).0 hit,
              )
          | inr miss ↦ inl (ground (arith, miss))
        ]
        | inr (there, hash) ↦ inr (inr there, hash)
      ]

  -- Whoever `authenticate` finds is one of the clients, and the header is "Bearer " with a key that
  -- has the hash of the client's own key.
  pub authenticate_sound :
      (cs : List (Client Rate)) (header : Text) (c : Client Rate)
      → authenticate sha256 cs header ≡ some c
      → Any (λ d. d ≡ c) cs × (key : Text) × (header ≡ bearer ++ key) × (sha256 c.key ≡ sha256 key)
  unfolding authenticate
  authenticate_sound cs header c h = elim (Option-cases (cut_prefix bearer header)) [
    | inl missing ↦ cc (h, missing)
    | inr (key, cut) ↦
        let ran : match_clients sha256 (sha256 key) cs none ≡ some c = ground (arith, cut) in
        elim (match_found (sha256 key) cs none c ran) [
          | inl nothing ↦ cc (nothing)
          | inr (there, hash) ↦ (there, key, append-cut_prefix bearer header key cut, hash)
        ]
  ]

  others_miss :
      (c : Client Rate) (cs : List (Client Rate))
      → ((k : Text) → sha256 k ≡ sha256 c.key → k ≡ c.key)
      → All (λ (d : Client Rate). (d.name ≢ c.name) × (d.key ≢ c.key)) cs
      → All (λ (d : Client Rate). (sha256 d.key == sha256 c.key) ≡ false) cs
  others_miss c [] free h = tt
  others_miss c (d ∷ rest) free ((_, apart), h) = (
    elim (Bool-cases (sha256 d.key == sha256 c.key)) [
      | inl hit ↦ absurd (apart (free d.key ((eq_iff (sha256 d.key) (sha256 c.key)).0 hit)))
      | inr miss ↦ miss
    ],
    others_miss c rest free h,
  )

  match_hit :
      (is_negative : Rate → Bool) (c : Client Rate) (cs : List (Client Rate))
      (found : Option (Client Rate))
      → ((k : Text) → sha256 k ≡ sha256 c.key → k ≡ c.key)
      → IsApart is_negative cs
      → Any (λ d. d ≡ c) cs
      → match_clients sha256 (sha256 c.key) cs found ≡ some c
  unfolding match_clients
  match_hit is_negative c [] found free apart there = elim there [ ]
  match_hit is_negative c (d ∷ rest) found free (others, apart) (inl same) =
      let others' =
        subst
          (λ (x : Client Rate). All (λ (e : Client Rate). (e.name ≢ x.name) × (e.key ≢ x.key)) rest)
          same others in
      let hit : (sha256 d.key == sha256 c.key) ≡ true =
        (eq_iff (sha256 d.key) (sha256 c.key)).1 (ap (λ (x : Client Rate). sha256 x.key) same) in
      let kept = match_none (sha256 c.key) rest (some d) (others_miss c rest free others') in
      ground (arith, hit, kept, same)
  match_hit is_negative c (d ∷ rest) found free (others, apart) (inr later) =
      match_hit is_negative c rest (if sha256 d.key == sha256 c.key then some d else found) free
        apart later

  -- A client of an accepted list who sends "Bearer " and its own key is found, wherever it stands in
  -- the list, if no other text has the hash of its key.
  pub authenticate-found :
      (is_negative : Rate → Bool) (cs : List (Client Rate)) (c : Client Rate)
      → validate_clients is_negative cs ≡ ok tt
      → ((k : Text) → sha256 k ≡ sha256 c.key → k ≡ c.key)
      → Any (λ d. d ≡ c) cs
      → authenticate sha256 cs (bearer ++ c.key) ≡ some c
  unfolding authenticate
  authenticate-found is_negative cs c accepted free there =
      let (_, apart) = validate_clients-IsApart is_negative cs accepted in
      let cut = cut_prefix-append bearer c.key in
      let ran = match_hit is_negative c cs none free apart there in ground (arith, cut, ran)
