-- ===== src/Auth/Accepted.antt =====
-- Which lists of clients `ValidateClients` accepts.
use sealbox.Base.{
  ◌≡◌, ◌≢◌, ◌≤◌, Bool, true, false, none, List, [], ◌∷◌, Text, ◌==◌, eq_iff, Dict, lookup, insert,
  lookup-insert, ok, ltb, length, arith, All, All-mono, Bool-cases, Option-cases, Result-cases, inl,
  inr,
}
use sealbox.Auth.{
  Client, all_roles, min_key_len, has_role, is_taken, check_roles, check_clients, validate_clients,
}

module _ {Rate : Type 0} (is_negative : Rate → Bool) where
  -- A client with a name, a long enough key, and at least one role, all of them known.
  abbrev pub IsAcceptable : Client Rate → Type 0
  IsAcceptable c =
      (c.name ≢ [])
      × (min_key_len ≤ length c.key)
      × (c.roles ≢ [])
      × All (λ r. has_role all_roles r ≡ true) c.roles
      × (is_negative c.reveal_per_second ≡ false)

  -- No two clients share a name or a key.
  abbrev pub IsApart : List (Client Rate) → Type 0
  IsApart [] = Unit
  IsApart (c ∷ rest) =
      All (λ (d : Client Rate). (d.name ≢ c.name) × (d.key ≢ c.key)) rest × IsApart rest

  abbrev IsNew : Dict Bool → Dict Text → Client Rate → Type 0
  IsNew names owner c = (is_taken c.name names ≡ false) × (lookup c.key owner ≡ none)

  check_roles_known :
      (name : Text) (roles : List Text)
      → check_roles name roles ≡ ok tt
      → All (λ r. has_role all_roles r ≡ true) roles
  unfolding check_roles
  check_roles_known name [] h = tt
  check_roles_known name (r ∷ rest) h = elim (Bool-cases (has_role all_roles r)) [
    | inl known ↦ (known, check_roles_known name rest (ground (arith, known)))
    | inr unknown ↦ ground (arith, unknown)
  ]

  IsNew-after :
      (c d : Client Rate) (names : Dict Bool) (owner : Dict Text)
      → IsNew (insert c.name true names) (insert c.key c.name owner) d
      → IsNew names owner d × ((d.name ≢ c.name) × (d.key ≢ c.key))
  IsNew-after c d names owner (free, unowned) =
      let at_name = lookup-insert c.name d.name true names in
      let at_key = lookup-insert c.key d.key c.name owner in
      (
        (ground (arith, at_name, free), ground (arith, at_key, unowned)),
        (
          λ e. ground (arith, at_name, free, eq_iff c.name d.name),
          λ e. ground (arith, at_key, unowned, eq_iff c.key d.key),
        ),
      )

  check_clients_sound :
      (names : Dict Bool) (owner : Dict Text) (cs : List (Client Rate))
      → check_clients is_negative names owner cs ≡ ok tt
      → All (λ c. IsNew names owner c × IsAcceptable c) cs × IsApart cs
  unfolding check_clients
  check_clients_sound names owner [] h = (tt, tt)
  check_clients_sound names owner (c ∷ rest) h =
      let named : (c.name == []) ≡ false = ground arith in
      let free : is_taken c.name names ≡ false = ground (arith, named) in
      let long : ltb (length c.key) min_key_len ≡ false = ground (arith, named, free) in
      elim (Option-cases (lookup c.key owner)) [
        | inl unowned ↦ elim (Result-cases (check_roles c.name c.roles)) [
          | inl (_, known) ↦
              let some_role : c.roles ≢ [] = λ e. ground (arith, named, free, long, unowned) in
              let rate : is_negative c.reveal_per_second ≡ false =
                ground (arith, named, free, long, unowned, known) in
              let later : check_clients is_negative (insert c.name true names)
                    (insert c.key c.name owner) rest
                  ≡ ok tt =
                ground (arith, named, free, long, unowned, known, rate) in
              let (others, apart) =
                check_clients_sound (insert c.name true names) (insert c.key c.name owner) rest
                  later in
              (
                (
                  (
                    (free, unowned),
                    (
                      λ e. ground (arith, named, eq_iff c.name []),
                      ground (arith, long),
                      some_role,
                      check_roles_known c.name c.roles known,
                      rate,
                    ),
                  ),
                  All-mono
                      (λ d.
                        IsNew (insert c.name true names) (insert c.key c.name owner) d
                        × IsAcceptable d)
                      (λ d. IsNew names owner d × IsAcceptable d)
                      (λ d (new, good). ((IsNew-after c d names owner new).0, good)) rest others,
                ),
                (
                  All-mono
                      (λ d.
                        IsNew (insert c.name true names) (insert c.key c.name owner) d
                        × IsAcceptable d)
                      (λ (d : Client Rate). (d.name ≢ c.name) × (d.key ≢ c.key))
                      (λ d (new, good). (IsNew-after c d names owner new).1) rest others,
                  apart,
                ),
              )
          | inr (e, failed) ↦ ground (arith, named, free, long, unowned, failed)
        ]
        | inr (other, owned) ↦ ground (arith, named, free, long, owned)
      ]

  -- The clients that `ValidateClients` accepts have a name, a key of at least 16 bytes and at least
  -- one role, all of their roles are known, none has a negative rate, and no two of them share a name or a key.
  pub validate_clients-IsApart :
      (cs : List (Client Rate))
      → validate_clients is_negative cs ≡ ok tt
      → All IsAcceptable cs × IsApart cs
  unfolding validate_clients
  validate_clients-IsApart cs h =
      let (all, apart) = check_clients_sound [] [] cs h in
      (
        All-mono (λ c. IsNew [] [] c × IsAcceptable c) IsAcceptable (λ c (_, good). good) cs all,
        apart,
      )
