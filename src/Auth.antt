-- ===== src/Auth.antt =====
-- internal/api/auth.go: who may call, and what a caller may do. Strings are their bytes here, since a
-- key's length is counted in bytes. SHA-256 is the parameter `sha256`, and the rate of a client a
-- type of which only the test against zero is used.
pub mod Accepted
pub mod Bearer
use sealbox.Base.{
  ℕ, ◌≡◌, Bool, true, false, ◌||◌, not, Option, none, some, List, [], ◌∷◌, ◌++◌, Text, codes, ◌==◌,
  Dict, lookup, insert, Result, ok, err, ◌>>=◌, ◌>>◌, stop_if, ltb, length, any, if◌then◌else◌,
}

pub record Client (Rate : Type 0) : Type 0 where
  pub name : Text
  pub key : Text
  pub roles : List Text
  pub reveal_per_second : Rate

pub data KeysError : Type 0 where
  nameless : KeysError
  same_name short_key no_roles negative_rate : Text → KeysError
  shared_key unknown_role : Text → Text → KeysError

-- `AllRoles`
abbrev pub all_roles : List Text
all_roles =
    codes "write" ∷ codes "delete" ∷ codes "read_masked" ∷ codes "read_full" ∷ codes "search" ∷ []

abbrev pub min_key_len : ℕ
min_key_len = 16

abbrev pub has_role : List Text → Text → Bool
has_role roles role = any (λ r. r == role) roles

-- `names[name]`
abbrev pub is_taken : Text → Dict Bool → Bool
is_taken name names = elim (lookup name names) [ none ↦ false | some b ↦ b ]

-- `if other, dup := owner[c.Key]; dup`
abbrev pub check_owner : Text → Text → Dict Text → Result KeysError (Unit {0})
check_owner name key owner = elim (lookup key owner) [
  | none ↦ ok tt
  | some other ↦ err (shared_key other name)
]

unfoldable pub check_roles : Text → List Text → Result KeysError (Unit {0})
check_roles name [] = ok tt
check_roles name (r ∷ rest) = do
  stop_if (not (has_role all_roles r)) (unknown_role name r)
  check_roles name rest

abbrev pub bearer : Text
bearer = codes "Bearer "

-- `strings.CutPrefix`
unfoldable pub cut_prefix : Text → Text → Option Text
cut_prefix [] s = some s
cut_prefix (a ∷ prefix) [] = none
cut_prefix (a ∷ prefix) (b ∷ s) =
    let rest = cut_prefix prefix s in if (a ∷ []) == (b ∷ []) then rest else none

module _ {Rate : Type 0} where
  module _ (is_negative : Rate → Bool) where
    -- the loop of `ValidateClients`, with the names and the keys seen before
    unfoldable pub check_clients :
        Dict Bool → Dict Text → List (Client Rate) → Result KeysError (Unit {0})
    check_clients names owner [] = ok tt
    check_clients names owner (c ∷ rest) = do
      stop_if (c.name == []) nameless
      stop_if (is_taken c.name names) (same_name c.name)
      stop_if (ltb (length c.key) min_key_len) (short_key c.name)
      check_owner c.name c.key owner
      stop_if (elim c.roles [ [] ↦ true | r ∷ rs ↦ false ]) (no_roles c.name)
      check_roles c.name c.roles
      stop_if (is_negative c.reveal_per_second) (negative_rate c.name)
      check_clients (insert c.name true names) (insert c.key c.name owner) rest

    -- `ValidateClients`
    unfoldable pub validate_clients : List (Client Rate) → Result KeysError (Unit {0})
    validate_clients clients = check_clients [] [] clients

  module _ (sha256 : Text → List ℕ) where
    -- every client is compared, and the last one that matches is kept
    unfoldable pub match_clients :
        List ℕ → List (Client Rate) → Option (Client Rate) → Option (Client Rate)
    match_clients got [] found = found
    match_clients got (c ∷ rest) found =
        match_clients got rest (if sha256 c.key == got then some c else found)

    -- `authenticate`
    unfoldable pub authenticate : List (Client Rate) → Text → Option (Client Rate)
    authenticate clients header = elim (cut_prefix bearer header) [
      | none ↦ none
      | some key ↦ match_clients (sha256 key) clients none
    ]

  -- `require`: the status that is answered, or none when the caller may go on
  unfoldable pub require : Client Rate → Text → Option ℕ
  require c role = if has_role c.roles role then none else some 403
