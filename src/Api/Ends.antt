-- ===== src/Api/Ends.antt =====
-- How a handler that ended went through its steps.
use sealbox.Base.{
  ℕ, ◌≡◌, ◌≤◌, true, some, Text, ok, err, arith, Bool-cases, Option-cases, ◌⊎◌, inl, inr, length,
  ltb,
}
use sealbox.Auth.{Client, has_role}
use sealbox.Envelope.{Bytes}
use sealbox.Api.Action.{
  Server, State, Message, role_required, cannot_read, body_too_large, Request, require_role,
  read_body, allow, write_error,
}

module _ {W L : Type 0} where
  -- Spending from the rate limit does not touch the storage.
  pub allow-vault :
      {Rate : Type 0} (srv : Server W L) (c : Client Rate) (n : ℕ) (s : State W L)
      → (allow srv c n s).1.vault ≡ s.vault
  unfolding allow
  allow-vault srv c n s = ground arith

  pub require_role-cases :
      {Rate : Type 0} (c : Client Rate) (role : Text) (s : State W L)
      → ((has_role c.roles role ≡ true) × (require_role c role s ≡ (ok tt, s)))
        ⊎ (require_role c role s ≡ (err (write_error 403 (role_required role)), s))
  unfolding require_role
  require_role-cases c role s = elim (Bool-cases (has_role c.roles role)) [
    | inl has ↦ inl (has, ground (arith, has))
    | inr lacks ↦ inr (ground (arith, lacks))
  ]

  pub read_body-cases :
      {Rate : Type 0} (q : Request Rate) (limit : ℕ) (s : State W L)
      → ((body : Bytes) × (q.body ≡ some body)
          × (length body ≤ limit)
          × (read_body q limit s ≡ (ok body, s)))
        ⊎ ((status : ℕ) × (m : Message) × (400 ≤ status)
            × (read_body q limit s ≡ (err (write_error status m), s)))
  unfolding read_body
  read_body-cases q limit s = elim (Option-cases q.body) [
    | inl unread ↦ inr (400, cannot_read, omega arith, ground (arith, unread))
    | inr (b, given) ↦ elim (Bool-cases (ltb limit (length b))) [
      | inl long ↦ inr (413, body_too_large limit, omega arith, ground (arith, given, long))
      | inr short ↦ inl (b, given, ground (arith, short), ground (arith, given, short))
    ]
  ]
