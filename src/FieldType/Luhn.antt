-- ===== src/FieldType/Luhn.antt =====
-- `luhn`: the checksum catches the two errors that it was made for.
use mathlib.Core.List.{reverse, reverse-append, append_assoc}
use sealbox.Base.{
  ℕ, zero, suc, ◌+◌, ◌%◌, ◌≡◌, ◌≢◌, refl, Bool, true, false, not, [], ◌∷◌, ◌++◌, Text, arith,
  length,
}
use sealbox.FieldType.{is_digit, weight, luhn_loop, luhn}

-- Whether a character with this many characters behind it is doubled.
doubled : ℕ → Bool → Bool
doubled zero b = b
doubled (suc n) b = doubled n (not b)

luhn_loop_shift : (s : Text) (b : Bool) (k : ℕ) → luhn_loop s b k ≡ k + luhn_loop s b 0
unfolding luhn_loop
luhn_loop_shift [] b k = omega arith
luhn_loop_shift (c ∷ s) b k =
    omega (
      arith,
      luhn_loop_shift s (not b) (k + weight b c),
      luhn_loop_shift s (not b) (0 + weight b c),
    )

luhn_loop-append :
    (s t : Text) (b : Bool) (k : ℕ)
    → luhn_loop (s ++ t) b k ≡ luhn_loop t (doubled (length s) b) (luhn_loop s b k)
unfolding luhn_loop doubled
luhn_loop-append [] t b k = refl
luhn_loop-append (c ∷ s) t b k = luhn_loop-append s t (not b) (k + weight b c)

-- The parts of the sum that do not depend on the text in the middle.
module _ (before after : Text) where
  position : Bool
  position = doubled (length (reverse after)) false

  ahead : ℕ
  ahead = luhn_loop (reverse after) false 0

  rest_from : Bool → ℕ
  rest_from b = luhn_loop (reverse before) b 0

  reverse_middle :
      (m : Text) → reverse (before ++ m ++ after) ≡ reverse after ++ (reverse m ++ reverse before)
  reverse_middle m = simp (reverse-append, append_assoc)

  sum_one :
      (c : ℕ)
      → luhn_loop (reverse (before ++ (c ∷ []) ++ after)) false 0
        ≡ ahead + weight position c + rest_from (not position)
  unfolding luhn_loop ahead rest_from position
  sum_one c = rw (
    reverse_middle (c ∷ []),
    luhn_loop-append (reverse after) ((c ∷ []) ++ reverse before) false 0,
    luhn_loop_shift (reverse before) (not position) (ahead + weight position c),
  )

  sum_two :
      (c d : ℕ)
      → luhn_loop (reverse (before ++ (c ∷ d ∷ []) ++ after)) false 0
        ≡ ahead + weight position d + weight (not position) c + rest_from (not (not position))
  unfolding luhn_loop ahead rest_from position
  sum_two c d = rw (
    reverse_middle (c ∷ d ∷ []),
    luhn_loop-append (reverse after) ((d ∷ c ∷ []) ++ reverse before) false 0,
    luhn_loop_shift (reverse before) (not (not position))
        (ahead + weight position d + weight (not position) c),
  )

-- No two digits weigh the same modulo ten.
weight_differs :
    (p : Bool) (c d x y : ℕ)
    → is_digit c ≡ true
    → is_digit d ≡ true
    → c ≢ d
    → (x + weight p c + y) % 10 ≡ 0
    → (x + weight p d + y) % 10 ≢ 0
unfolding is_digit weight
weight_differs false c d x y hc hd ne e f = ground arith
weight_differs true c d x y hc hd ne e f = ground arith

weight_swap_differs :
    (p : Bool) (c d x y : ℕ)
    → is_digit c ≡ true
    → is_digit d ≡ true
    → c ≢ d
    → (c ≡ b'0' → d ≢ b'9')
    → (d ≡ b'0' → c ≢ b'9')
    → (x + weight p d + weight (not p) c + y) % 10 ≡ 0
    → (x + weight p c + weight (not p) d + y) % 10 ≢ 0
unfolding is_digit weight
weight_swap_differs false c d x y hc hd ne up down e f = ground arith
weight_swap_differs true c d x y hc hd ne up down e f = ground arith

-- If a text passes the checksum, the text with one of its digits replaced by another digit does
-- not. Nothing is asked of the other characters.
pub luhn_substitution :
    (before after : Text) (c d : ℕ)
    → is_digit c ≡ true
    → is_digit d ≡ true
    → c ≢ d
    → luhn (before ++ (c ∷ []) ++ after) ≡ true
    → luhn (before ++ (d ∷ []) ++ after) ≡ false
unfolding luhn
luhn_substitution before after c d hc hd ne passed = ground (
  arith,
  sum_one before after c,
  sum_one before after d,
  weight_differs (position before after) c d (ahead before after)
      (rest_from before after (not (position before after))),
)

-- If a text passes the checksum, the text with two neighbouring, different digits swapped does
-- not, unless the two are 0 and 9.
pub luhn_transposition :
    (before after : Text) (c d : ℕ)
    → is_digit c ≡ true
    → is_digit d ≡ true
    → c ≢ d
    → (c ≡ b'0' → d ≢ b'9')
    → (d ≡ b'0' → c ≢ b'9')
    → luhn (before ++ (c ∷ d ∷ []) ++ after) ≡ true
    → luhn (before ++ (d ∷ c ∷ []) ++ after) ≡ false
unfolding luhn
luhn_transposition before after c d hc hd ne up down passed = ground (
  arith,
  sum_two before after c d,
  sum_two before after d c,
  weight_swap_differs (position before after) c d (ahead before after)
      (rest_from before after (not (not (position before after)))),
)
