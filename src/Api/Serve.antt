-- ===== src/Api/Serve.antt =====
-- `New`, `requireKey` and `routes`: a request is authenticated, then handed to the handler of its
-- route. The pattern matching of `net/http` is done: a route comes with its path and query values.
use sealbox.Base.{ℕ, Option, none, some, List, Text, ok, err}
use sealbox.Auth.{Client, authenticate}
use sealbox.Envelope.{Bytes}
use sealbox.Api.Action.{Server, State, Response, invalid_key, Request, Action, write_error}
use sealbox.Api.Handlers
use sealbox.Api.Handlers.{reveal_role}

-- `routes`
pub data Route : Type 0 where
  create create_batch reveal_batch : Text → Route
  get : Text → Text → Text → Route
  delete : Text → Text → Route
  search : Text → Text → Route
  subject erase_subject : Text → Route

module _ {W L : Type 0} where
  -- the response that a handler ends with
  abbrev pub finish : Action W L Response → State W L → Response × State W L
  finish m s = let (r, s') = m s in elim r [ ok a ↦ (a, s') | err e ↦ (e, s') ]

  module _ {Rate : Type 0} (srv : Server W L) where
    abbrev pub handle : Request Rate → Route → Action W L Response
    handle r (create collection) = Handlers.create srv r collection
    handle r (create_batch collection) = Handlers.create_batch srv r collection
    handle r (reveal_batch collection) = Handlers.reveal_batch srv r collection
    handle r (get collection id reveal) = Handlers.get srv r collection id reveal
    handle r (delete collection id) = Handlers.delete_object srv r.client collection id
    handle r (search collection after) = Handlers.search srv r collection after
    handle r (subject name) = Handlers.subject srv r.client name
    handle r (erase_subject name) = Handlers.erase_subject srv r.client name

    -- `requireKey` before the routes
    unfoldable pub serve :
        (Text → List ℕ)
        → List (Client Rate)
        → Text
        → Option Bytes
        → Route
        → State W L
        → Response × State W L
    serve sha256 clients header body route s = elim (authenticate sha256 clients header) [
      | none ↦ (write_error 401 invalid_key, s)
      | some c ↦ finish (handle (record { client = c; body = body }) route) s
    ]
