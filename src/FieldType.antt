-- ===== src/FieldType.antt =====
-- internal/schema/types.go: validation, masks and normal forms of the declarable field types.
-- A Go string is the list of its code points: these strings come out of a JSON decoder, so they
-- are valid UTF-8. `to_lower` is `unicode.ToLower`, whose tables are not part of the program.
pub mod Luhn
pub mod Trim
pub mod Mask
pub mod Normal
use mathlib.Core.List.{reverse}
use sealbox.Base.{
  ℕ, ◌+◌, ◌-◌, ◌*◌, ◌%◌, Bool, true, false, ◌&&◌, ◌||◌, not, Option, none, some, List, [], ◌∷◌,
  ◌++◌, map, Text, codes, ◌==◌, Dict, Result, ok, err, ◌>>=◌, ◌>>◌, stop_if, ltb, leb, eqb, length,
  drop, take, any, if◌then◌else◌,
}

-- "***", the value of `hidden`
abbrev pub stars : Text
stars = codes "***"

-- the errors of the three validators
pub data Invalid : Type 0 where
  not_an_email not_a_phone not_a_card : Invalid

-- `strings.Cut(v, sep)` for a separator of one character
pub record Halves : Type 0 where
  pub before : Text
  pub after : Text
  pub found : Bool

unfoldable pub cut : ℕ → Text → Halves
cut sep [] = record { before = []; after = []; found = false }
cut sep (c ∷ s) =
    let rest = cut sep s in
    if eqb c sep
    then record { before = []; after = s; found = true }
    else record { before = c ∷ rest.before; after = rest.after; found = rest.found }

-- `strings.Trim` by a test on characters
unfoldable pub trim_left : (ℕ → Bool) → Text → Text
trim_left p [] = []
trim_left p (c ∷ s) = if p c then trim_left p s else c ∷ s

unfoldable pub trim_right : (ℕ → Bool) → Text → Text
trim_right p [] = []
trim_right p (c ∷ s) = elim (trim_right p s) [ [] ↦ if p c then [] else c ∷ [] | d ∷ t ↦ c ∷ d ∷ t ]

unfoldable pub trim : (ℕ → Bool) → Text → Text
unfolding trim_left trim_right
trim p s = trim_left p (trim_right p s)

-- membership in a literal set of characters
abbrev pub among : Text → ℕ → Bool
among set c = any (eqb c) set

-- `unicode.IsSpace`
unfoldable pub is_space : ℕ → Bool
is_space c =
    (leb 9 c && leb c 13)
    || eqb c 0x20
    || eqb c 0x85
    || eqb c 0xA0
    || eqb c 0x1680
    || (leb 0x2000 c && leb c 0x200A)
    || eqb c 0x2028
    || eqb c 0x2029
    || eqb c 0x202F
    || eqb c 0x205F
    || eqb c 0x3000

unfoldable pub is_digit : ℕ → Bool
is_digit c = leb b'0' c && leb c b'9'

unfoldable pub digits : Text → Text
unfolding is_digit
digits [] = []
digits (c ∷ s) = let rest = digits s in if is_digit c then c ∷ rest else rest

unfoldable pub last4 : Text → Text
last4 d = if ltb (length d) 4 then [] else drop (length d - 4) d

-- one round of the loop in `luhn`; `d[i] - '0'` is a byte
unfoldable pub weight : Bool → ℕ → ℕ
weight double c =
    let n = (c + 208) % 256 in if double then (if ltb 9 (n * 2) then n * 2 - 9 else n * 2) else n

-- the loop, over the characters from the last to the first
unfoldable pub luhn_loop : Text → Bool → ℕ → ℕ
luhn_loop [] double sum = sum
luhn_loop (c ∷ s) double sum = luhn_loop s (not double) (sum + weight double c)

unfoldable pub luhn : Text → Bool
luhn d = eqb (luhn_loop (reverse d) false 0 % 10) 0

unfoldable pub validate_email : Text → Result Invalid (Unit {0})
validate_email v =
    let h = cut b'@' v in
    stop_if
      (not h.found
        || h.before == []
        || h.after == []
        || any (among (codes " \t\r\n")) v
        || any (eqb b'@') h.after)
      not_an_email

unfoldable pub mask_email : Text → Text
mask_email v =
    let h = cut b'@' v in
    if h.after == [] then stars else take 1 h.before ++ (stars ++ (b'@' ∷ h.after))

abbrev pub phone_chars : ℕ → Bool
phone_chars = among (codes "0123456789 +-().")

abbrev pub card_chars : ℕ → Bool
card_chars = among (codes "0123456789 -")

unfoldable pub validate_phone : Text → Result Invalid (Unit {0})
validate_phone v = do
  stop_if (not (trim phone_chars v == [])) not_a_phone
  let n = length (digits v)
  stop_if (ltb n 7 || ltb 15 n) not_a_phone

unfoldable pub mask_phone : Text → Text
mask_phone v = let tail = last4 (digits v) in if tail == [] then stars else stars ++ tail

unfoldable pub validate_card : Text → Result Invalid (Unit {0})
validate_card v = do
  stop_if (not (trim card_chars v == [])) not_a_card
  let d = digits v
  stop_if (ltb (length d) 13 || ltb 19 (length d) || not (luhn d)) not_a_card

unfoldable pub mask_card : Text → Text
mask_card v =
    let tail = last4 (digits v) in if tail == [] then stars else codes "**** **** **** " ++ tail

-- `normalize` is nil for a type that cannot be indexed
pub record FieldType : Type 0 where
  pub validate : Text → Result Invalid (Unit {0})
  pub mask : Text → Text
  pub normalize : Option (Text → Text)

module _ (to_lower : ℕ → ℕ) where
  unfoldable pub normalize_email : Text → Text
  normalize_email v = map to_lower (trim is_space v)

  abbrev pub string_type : FieldType
  string_type = record { validate = λ _. ok tt; mask = λ _. stars; normalize = none }

  abbrev pub email_type : FieldType
  email_type = record {
    validate = validate_email;
    mask = mask_email;
    normalize = some normalize_email;
  }

  abbrev pub phone_type : FieldType
  phone_type = record { validate = validate_phone; mask = mask_phone; normalize = some digits }

  abbrev pub card_type : FieldType
  card_type = record { validate = validate_card; mask = mask_card; normalize = some digits }

  -- the map `types`
  unfoldable pub types : Dict FieldType
  types =
      (codes "string", string_type)
      ∷ (codes "email", email_type)
      ∷ (codes "phone", phone_type)
      ∷ (codes "card", card_type)
      ∷ []
