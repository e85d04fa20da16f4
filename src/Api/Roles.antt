-- ===== src/Api/Roles.antt =====
-- What a caller without the role of a route gets.
use sealbox.Base.{
  ℕ, ◌≡◌, ap, ◌≤◌, false, Option, none, some, List, [], Text, codes, ltb, length, arith, Bool-cases,
  Option-cases, ◌⊎◌, inl, inr,
}
use sealbox.Auth.{Client, has_role, authenticate}
use sealbox.Envelope.{Bytes}
use sealbox.Api.Names.{max_ids_body, max_batch}
use sealbox.Api.Action.{
  Server, State, Message, invalid_key, invalid_reveal, cannot_read, bad_reveal, at_most,
  role_required, body_too_large, Response, Request, write_error, require_role, read_body,
}
use sealbox.Api.Handlers
use sealbox.Api.Handlers.{reveal_role, is_reveal, reveal_request}
use sealbox.Api.Serve.{
  Route, create, create_batch, reveal_batch, get, delete, search, subject, erase_subject, handle,
  finish, serve,
}

module _ {W L : Type 0} (srv : Server W L) where
  -- What a batch reveal asks to see, if its body can be read.
  abbrev pub asked_reveal : Option Bytes → Text
  asked_reveal none = []
  asked_reveal (some body) = elim (reveal_request (srv.codec.decode body)) [
    | none ↦ []
    | some (ids, reveal) ↦ reveal
  ]

  -- The role that a request needs.
  abbrev pub role_for : Route → Option Bytes → Text
  role_for (create collection) body = codes "write"
  role_for (create_batch collection) body = codes "write"
  role_for (reveal_batch collection) body = reveal_role (asked_reveal body)
  role_for (get collection id reveal) body = reveal_role reveal
  role_for (delete collection id) body = codes "delete"
  role_for (search collection after) body = codes "search"
  role_for (subject name) body = codes "read_masked"
  role_for (erase_subject name) body = codes "delete"

module _ {W L : Type 0} where
  -- an error answer that leaves the state as it was
  abbrev pub Refused : State W L → Response × State W L → Type 0
  Refused s (r, s') =
      (status : ℕ) × (m : Message) × (r ≡ write_error status m) × (400 ≤ status) × (s' ≡ s)

  as-Refused :
      (s : State W L) (out : Response × State W L) (status : ℕ) (m : Message)
      → 400 ≤ status
      → out ≡ (write_error status m, s)
      → Refused s out
  as-Refused s (r, s') status m high e = (
    status,
    m,
    ap (λ (x : Response × State W L). x.0) e,
    high,
    ap (λ (x : Response × State W L). x.1) e,
  )

module _ {W L Rate : Type 0} (srv : Server W L) where
  get-Refused :
      (r : Request Rate) (collection id reveal : Text) (s : State W L)
      → has_role r.client.roles (reveal_role reveal) ≡ false
      → Refused s (finish (Handlers.get srv r collection id reveal) s)
  unfolding Handlers.get require_role
  get-Refused r collection id reveal s h = elim (Bool-cases (is_reveal reveal)) [
    | inl known ↦
        as-Refused s (finish (Handlers.get srv r collection id reveal) s) 403
          (role_required (reveal_role reveal)) (omega arith) (ground (arith, known, h))
    | inr unknown ↦
        as-Refused s (finish (Handlers.get srv r collection id reveal) s) 400 invalid_reveal
          (omega arith) (ground (arith, unknown))
  ]

  reveal_batch-Refused :
      (r : Request Rate) (collection : Text) (s : State W L)
      → has_role r.client.roles (reveal_role (asked_reveal srv r.body)) ≡ false
      → Refused s (finish (Handlers.reveal_batch srv r collection) s)
  unfolding Handlers.reveal_batch require_role read_body
  reveal_batch-Refused r collection s h =
      let out = finish (Handlers.reveal_batch srv r collection) s in
      elim (Option-cases r.body) [
        | inl unread ↦ as-Refused s out 400 cannot_read (omega arith) (ground (arith, unread))
        | inr (body, given) ↦ elim (Bool-cases (ltb max_ids_body (length body))) [
          | inl long ↦
              as-Refused s out 413 (body_too_large max_ids_body) (omega arith)
                (ground (arith, given, long))
          | inr short ↦ elim (Option-cases (reveal_request (srv.codec.decode body))) [
            | inl bad ↦
                as-Refused s out 400 bad_reveal (omega arith) (ground (arith, given, short, bad))
            | inr ((ids, reveal), asked) ↦ elim (Bool-cases (ltb max_batch (length ids))) [
              | inl many ↦
                  as-Refused s out 400 (at_most max_batch) (omega arith)
                    (ground (arith, given, short, asked, many))
              | inr few ↦ elim (Bool-cases (is_reveal reveal)) [
                | inl known ↦
                    let missing : has_role r.client.roles (reveal_role reveal) ≡ false =
                      ground (arith, given, asked, h) in
                    as-Refused s out 403 (role_required (reveal_role reveal)) (omega arith)
                      (ground (arith, given, short, asked, few, known, missing))
                | inr unknown ↦
                    as-Refused s out 400 invalid_reveal (omega arith)
                      (ground (arith, given, short, asked, few, unknown))
              ]
            ]
          ]
        ]
      ]

  handle-Refused :
      (r : Request Rate) (route : Route) (s : State W L)
      → has_role r.client.roles (role_for srv route r.body) ≡ false
      → Refused s (finish (handle srv r route) s)
  unfolding Handlers.create Handlers.create_batch Handlers.delete_object Handlers.search
      Handlers.subject Handlers.erase_subject require_role
  handle-Refused r (create collection) s h =
      as-Refused s (finish (handle srv r (create collection)) s) 403 (role_required (codes "write"))
        (omega arith) (ground (arith, h))
  handle-Refused r (create_batch collection) s h =
      as-Refused s (finish (handle srv r (create_batch collection)) s) 403
        (role_required (codes "write")) (omega arith) (ground (arith, h))
  handle-Refused r (reveal_batch collection) s h = reveal_batch-Refused r collection s h
  handle-Refused r (get collection id reveal) s h = get-Refused r collection id reveal s h
  handle-Refused r (delete collection id) s h =
      as-Refused s (finish (handle srv r (delete collection id)) s) 403
        (role_required (codes "delete")) (omega arith) (ground (arith, h))
  handle-Refused r (search collection after) s h =
      as-Refused s (finish (handle srv r (search collection after)) s) 403
        (role_required (codes "search")) (omega arith) (ground (arith, h))
  handle-Refused r (subject name) s h =
      as-Refused s (finish (handle srv r (subject name)) s) 403
        (role_required (codes "read_masked")) (omega arith) (ground (arith, h))
  handle-Refused r (erase_subject name) s h =
      as-Refused s (finish (handle srv r (erase_subject name)) s) 403
        (role_required (codes "delete")) (omega arith) (ground (arith, h))

  -- A request of nobody known, or of a client without the role that the request needs, is answered
  -- with an error of status 400 or more, and leaves the storage and the rate limits as they were,
  -- whatever its route. The role of a batch reveal is the one of the reveal level in its body.
  pub serve_unauthorised :
      (sha256 : Text → List ℕ) (clients : List (Client Rate)) (header : Text) (body : Option Bytes)
      (route : Route) (s : State W L)
      → (authenticate sha256 clients header ≡ none)
        ⊎ ((c : Client Rate) × (authenticate sha256 clients header ≡ some c)
            × (has_role c.roles (role_for srv route body) ≡ false))
      → Refused s (serve srv sha256 clients header body route s)
  unfolding serve
  serve_unauthorised sha256 clients header body route s (inl nobody) =
      as-Refused s (serve srv sha256 clients header body route s) 401 invalid_key (omega arith)
        (ground (arith, nobody))
  serve_unauthorised sha256 clients header body route s (inr (c, known, lacks)) =
      let r : Request Rate = record { client = c; body = body } in
      let (status, m, refused, high, same) = handle-Refused r route s lacks in
      as-Refused s (serve srv sha256 clients header body route s) status m high
        (ground (arith, known, refused, same))
