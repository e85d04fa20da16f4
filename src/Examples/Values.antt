-- ===== src/Examples/Values.antt =====
-- Values of the declared field types.
use sealbox.Base.{
  ℕ, ◌≡◌, ◌≢◌, refl, Text, codes, List, [], ◌∷◌, ◌++◌, Result, ok, Bool, true, false, length, ◌↔◌,
  all, any, some, eqb, arith, ◌≤◌,
}
use sealbox.FieldType.{
  is_digit, luhn, luhn_loop, weight, digits, validate_email, validate_phone, validate_card,
  mask_card, normalize_email, trim, trim_left, trim_right, cut, types, email_type,
}
use sealbox.FieldType.Luhn.{luhn_substitution}
use sealbox.FieldType.Mask.{EndsIn, mask_card_lem}
use sealbox.FieldType.Normal.{normalize_idem}
use sealbox.Examples.Fixtures.{to_lower, lower_idem, lower_space}

abbrev four : ℕ
four = b'4'

abbrev one : ℕ
one = b'1'

four_ne_five : four ≢ b'5'
four_ne_five = omega arith

four_ne_one : four ≢ b'1'
four_ne_one = omega arith

four_ne_zero : four ≡ b'0' → one ≢ b'9'
four_ne_zero = λ e. omega arith

one_ne_zero : one ≡ b'0' → four ≢ b'9'
one_ne_zero = λ e. omega arith

abbrev card : Text
card = codes "4111111111111111"

abbrev phone : Text
phone = codes "+1 (555) 010-9999"

abbrev mail : Text
mail = codes "Ann@b.org"

test_passes : luhn card ≡ true
unfolding luhn luhn_loop weight
test_passes = refl

luhn_substitution_example : luhn (codes "5111111111111111") ≡ false
unfolding is_digit
luhn_substitution_example =
    luhn_substitution [] (codes "111111111111111") b'4' b'5' refl refl four_ne_five test_passes

phone_accepted : validate_phone phone ≡ ok tt
unfolding validate_phone trim trim_left trim_right sealbox.Base.◌==◌ digits
phone_accepted = refl

card_accepted : validate_card card ≡ ok tt
unfolding validate_card trim trim_left trim_right luhn luhn_loop weight sealbox.Base.◌==◌ digits
card_accepted = refl

mail_accepted : validate_email mail ≡ ok tt
unfolding validate_email cut sealbox.Base.◌==◌
mail_accepted = refl

mask_card_lem_example :
    (tail : Text) × (length tail ≡ 4)
    × EndsIn tail (digits card)
    × (mask_card card ≡ codes "**** **** **** " ++ tail)
mask_card_lem_example = mask_card_lem card card_accepted

normalize_idem_example :
    normalize_email to_lower (normalize_email to_lower mail) ≡ normalize_email to_lower mail
unfolding types sealbox.Base.lookup sealbox.Base.◌==◌
normalize_idem_example =
    normalize_idem to_lower lower_idem lower_space (codes "email") (email_type to_lower)
      (normalize_email to_lower) mail refl refl
