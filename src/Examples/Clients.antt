-- ===== src/Examples/Clients.antt =====
-- Two clients and their keys.
use sealbox.Base.{
  ℕ, ◌≡◌, refl, Text, codes, List, [], ◌∷◌, ◌++◌, Result, ok, Bool, false, some, All, Any, inl, inr,
}
use sealbox.Auth.{Client, bearer, authenticate, validate_clients}
use sealbox.Auth.Accepted.{IsAcceptable, IsApart, validate_clients-IsApart}
use sealbox.Auth.Bearer.{authenticate_sound, authenticate-found}

abbrev writer : Client ℕ
writer = record {
  name = codes "app";
  key = codes "0123456789abcdef";
  roles = codes "write" ∷ codes "search" ∷ [];
  reveal_per_second = 0;
}

abbrev reader : Client ℕ
reader = record {
  name = codes "desk";
  key = codes "fedcba9876543210";
  roles = codes "read_masked" ∷ [];
  reveal_per_second = 5;
}

abbrev clients : List (Client ℕ)
clients = writer ∷ reader ∷ []

abbrev never_negative : ℕ → Bool
never_negative n = false

-- a hash without collisions
abbrev plain_hash : Text → List ℕ
plain_hash s = s

accepted : validate_clients never_negative clients ≡ ok tt
unfolding validate_clients sealbox.Auth.check_clients sealbox.Base.◌==◌ sealbox.Base.lookup
    sealbox.Auth.check_roles sealbox.Base.insert
accepted = refl

no_collision : (k : Text) → plain_hash k ≡ plain_hash reader.key → k ≡ reader.key
no_collision k h = h

validate_clients-IsApart_example :
    All (IsAcceptable never_negative) clients × IsApart never_negative clients
validate_clients-IsApart_example = validate_clients-IsApart never_negative clients accepted

authenticate-found_example :
    authenticate plain_hash clients (codes "Bearer fedcba9876543210") ≡ some reader
authenticate-found_example =
    authenticate-found plain_hash never_negative clients reader accepted no_collision
      (inr (inl refl))

authenticate_sound_example :
    Any (λ (d : Client ℕ). d ≡ reader) clients
    × (key : Text) × (codes "Bearer fedcba9876543210" ≡ bearer ++ key)
    × (plain_hash reader.key ≡ plain_hash key)
authenticate_sound_example =
    authenticate_sound plain_hash clients (codes "Bearer fedcba9876543210") reader
      authenticate-found_example
