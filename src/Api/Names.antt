-- ===== src/Api/Names.antt =====
-- The limits and the regular expressions of api.go.
use sealbox.Base.{
  ℕ, ◌*◌, Bool, false, ◌&&◌, ◌||◌, [], ◌∷◌, Text, codes, ◌==◌, leb, eqb, length, all,
}

abbrev pub max_body : ℕ
max_body = 1_048_576

abbrev pub max_batch : ℕ
max_batch = 1000

abbrev pub max_batch_body : ℕ
max_batch_body = 16 * max_body

abbrev pub max_ids_body : ℕ
max_ids_body = 131_072

abbrev pub max_query : ℕ
max_query = 4096

abbrev pub subject_key : Text
subject_key = codes "_subject"

abbrev between : ℕ → ℕ → ℕ → Bool
between lo hi c = leb lo c && leb c hi

abbrev pub is_lower_or_digit : ℕ → Bool
is_lower_or_digit c = between b'a' b'z' c || between b'0' b'9' c

abbrev pub is_name_code : ℕ → Bool
is_name_code c = is_lower_or_digit c || eqb c b'_' || eqb c b'-'

abbrev pub is_hex_code : ℕ → Bool
is_hex_code c = between b'0' b'9' c || between b'a' b'f' c

abbrev pub is_subject_code : ℕ → Bool
is_subject_code c =
    between b'A' b'Z' c
    || between b'a' b'z' c
    || between b'0' b'9' c
    || eqb c b'.'
    || eqb c b'_'
    || eqb c b':'
    || eqb c b'@'
    || eqb c b'-'

-- `^[a-z0-9][a-z0-9_-]{0,63}$`
unfoldable pub is_collection : Text → Bool
is_collection [] = false
is_collection (c ∷ rest) = is_lower_or_digit c && all is_name_code rest && leb (length rest) 63

-- `^tok_[0-9a-f]{32}$`
unfoldable pub is_id : Text → Bool
is_id (t ∷ o ∷ k ∷ u ∷ rest) =
    (t ∷ o ∷ k ∷ u ∷ []) == codes "tok_" && all is_hex_code rest && eqb (length rest) 32
is_id _ = false

-- `^[A-Za-z0-9._:@-]{1,128}$`
unfoldable pub is_subject : Text → Bool
is_subject s = all is_subject_code s && leb 1 (length s) && leb (length s) 128
