-- ===== src/Base/Texts.antt =====
-- Texts as the list of their code points, with equality as a test.
use Prim.Native.Nat.{ℕ}
use Prim.Native.Char.{code}
use Prim.Native.String.{String}
use mathlib.Core.Path.{◌≡◌, refl, ap}
use mathlib.Core.Logic.{◌↔◌, ◌≢◌}
use mathlib.Core.Bool.{Bool, true, false, ◌&&◌}
use mathlib.Core.List.{List, [], ◌∷◌, ◌++◌}
use native.Mathlib.Omega.{arith}
use sealbox.Base.Tests.{eqb}
use sealbox.Base.Lists.{length, length-append}

abbrev pub Text : Type 0
Text = List ℕ

abbrev pub codes : String → Text
codes String.[] = []
codes (String.◌∷◌ c s) = code c ∷ codes s

infix 50 ◌==◌
unfoldable pub ◌==◌ : Text → Text → Bool
[] == [] = true
(a ∷ s) == (b ∷ t) = eqb a b && (s == t)
_ == _ = false

pub eq_iff : (s t : Text) → ((s == t) ≡ true) ↔ (s ≡ t)
unfolding ◌==◌
eq_iff [] [] = ground arith
eq_iff [] (b ∷ t) = ground arith
eq_iff (a ∷ s) [] = ground arith
eq_iff (a ∷ s) (b ∷ t) = ground (arith, eq_iff s t)

pub eq_refl : (s : Text) → (s == s) ≡ true
eq_refl s = (eq_iff s s).1 refl

pub ne_of_eq_false : (s t : Text) → (s == t) ≡ false → s ≢ t
ne_of_eq_false s t h e = ground (arith, eq_iff s t)

pub append_cancel_left : (s t u : Text) → s ++ t ≡ s ++ u → t ≡ u
append_cancel_left [] t u e = e
append_cancel_left (a ∷ s) t u e = append_cancel_left s t u (cc)

pub append_cancel_right : (s t u : Text) → s ++ u ≡ t ++ u → s ≡ t
append_cancel_right [] [] u e = refl
append_cancel_right [] (b ∷ t) u e =
    absurd (omega (arith, ap (length {A = ℕ}) e, length-append {0} (b ∷ t) u))
append_cancel_right (a ∷ s) [] u e =
    absurd (omega (arith, ap (length {A = ℕ}) e, length-append {0} (a ∷ s) u))
append_cancel_right (a ∷ s) (b ∷ t) u e =
    let same : s ++ u ≡ t ++ u = cc in cc (append_cancel_right s t u same, e)
