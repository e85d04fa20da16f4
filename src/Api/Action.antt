-- ===== src/Api/Action.antt =====
-- Requests, answers, and the steps that handlers are made of: each may answer at once.
use sealbox.Base.{
  ℕ, Bool, not, Option, none, some, List, map, Text, Dict, Result, ok, err, ltb, length,
  if◌then◌else◌,
}
use sealbox.Json.{Json}
use sealbox.Schema.{Schema, SchemaError}
use sealbox.Auth.{Client, has_role}
use sealbox.Store.Tables.{Item, Ref, AuditEntry, StoreError}
use sealbox.Envelope.{Bytes}

-- The interface `Vault`, over the state `W` of the storage.
pub record Vault (W : Type 0) : Type 0 where
  pub put_many : Text → Text → List Item → W → Result StoreError (List Text) × W
  pub get_many : Text → List Text → W → Result StoreError (Dict Bytes)
  pub delete : Text → Text → Text → W → Result StoreError (Unit {0}) × W
  pub search : Text → Text → Text → Text → W → Result StoreError (List Text)
  pub subject : Text → W → Result StoreError (List Ref)
  pub delete_subject : Text → Text → W → Result StoreError (List Ref) × W
  pub audit_many : List AuditEntry → W → Result StoreError (Unit {0}) × W

-- `encoding/json` and `unicode/utf8`: the value that a text denotes, the texts of the elements of
-- "objects" in a batch, and a map printed with its keys sorted.
pub record Codec : Type 0 where
  pub decode : Bytes → Option Json
  pub elements : Bytes → Option (List Bytes)
  pub encode : Dict Json → Bytes
  pub utf8_valid : Bytes → Bool

-- `server`; `allow_n` is `AllowN` of the limiter that a client has, if `limited` says it has one.
pub record Server (W L : Type 0) : Type 0 where
  pub vault : Vault W
  pub codec : Codec
  pub to_lower : ℕ → ℕ
  pub schema : Schema
  pub limited : Text → Bool
  pub allow_n : Text → ℕ → L → Bool × L

pub record State (W L : Type 0) : Type 0 where
  pub vault : W
  pub limits : L

pub data ObjectError : Type 0 where
  too_large not_utf8 not_an_object bad_subject panics : ObjectError
  invalid : SchemaError → ObjectError

-- the text of an error answer, by what it says
pub data Message : Type 0 where
  invalid_key invalid_collection invalid_subject invalid_reveal invalid_after : Message
  object_not_found rate_limited cannot_read bad_batch bad_reveal bad_query internal : Message
  role_required : Text → Message
  body_too_large at_most : ℕ → Message
  bad_object : ObjectError → Message
  bad_item : ℕ → ObjectError → Message
  not_searchable : SchemaError → Message

pub data Rendered : Type 0 where
  plain : Bytes → Rendered
  masked : Dict Text → Rendered

pub data Body : Type 0 where
  nothing : Body
  failure : Message → Body
  created : Text → Body
  created_all : List Text → Body
  object : Rendered → Body
  objects : Dict Rendered → List Text → Body
  refs : List Ref → Body
  erased : List Ref → Body
  found : List Text → Option Text → Body

-- An answer with its status, or a connection that a panic closed.
pub data Response : Type 0 where
  answer : ℕ → Body → Response
  dropped : Response

-- what a handler reads of a request: the body, unless reading it fails
pub record Request (Rate : Type 0) : Type 0 where
  pub client : Client Rate
  pub body : Option Bytes

abbrev pub Action : Type 0 → Type 0 → Type 0 → Type 0
Action W L A = State W L → Result Response A × State W L

-- `writeError`
abbrev pub write_error : ℕ → Message → Response
write_error status m = answer status (failure m)

-- `internalError`
abbrev pub internal_error : Response
internal_error = write_error 500 internal

-- a call of the vault; its error is an internal one
abbrev pub or_internal : {A : Type 0} → Result StoreError A → Result Response A
or_internal (ok a) = ok a
or_internal (err e) = err internal_error

module _ {W L : Type 0} where
  infixl 5 ◌>>=◌ ◌>>◌
  abbrev pub ◌>>=◌ : {A B : Type 0} → Action W L A → (A → Action W L B) → Action W L B
  ◌>>=◌ m f s = let (r, s') = m s in elim r [ ok a ↦ f a s' | err e ↦ (err e, s') ]

  abbrev pub ◌>>◌ : {B : Type 0} → Action W L (Unit {0}) → Action W L B → Action W L B
  m >> k = m >>= λ _. k

  abbrev pub return : {A : Type 0} → A → Action W L A
  return a s = (ok a, s)

  abbrev pub stop : {A : Type 0} → Response → Action W L A
  stop r s = (err r, s)

  abbrev pub stop_when : Bool → Response → Action W L (Unit {0})
  stop_when failed r s = if failed then (err r, s) else (ok tt, s)

  abbrev pub some_or : {A : Type 0} → Option A → Response → Action W L A
  some_or none r s = (err r, s)
  some_or (some a) r s = (ok a, s)

  abbrev pub call : {A : Type 0} → (W → Result StoreError A × W) → Action W L A
  call f s = let (r, w) = f s.vault in (or_internal r, record s { vault = w })

  abbrev pub ask : {A : Type 0} → (W → Result StoreError A) → Action W L A
  ask f s = (or_internal (f s.vault), s)

  -- `require`
  unfoldable pub require_role : {Rate : Type 0} → Client Rate → Text → Action W L (Unit {0})
  require_role c role =
      stop_when (not (has_role c.roles role)) (write_error 403 (role_required role))

  -- `readBody`
  unfoldable pub read_body : {Rate : Type 0} → Request Rate → ℕ → Action W L Bytes
  read_body r limit s = elim r.body [
    | none ↦ (err (write_error 400 cannot_read), s)
    | some body ↦
        if ltb limit (length body)
        then (err (write_error 413 (body_too_large limit)), s)
        else (ok body, s)
  ]

  module _ (srv : Server W L) where
    -- `allow`
    unfoldable pub allow : {Rate : Type 0} → Client Rate → ℕ → Action W L (Unit {0})
    allow c n s =
        if srv.limited c.name
        then (let (granted, limits) = srv.allow_n c.name n s.limits in
            if granted
            then (ok tt, record s { limits = limits })
            else (err (write_error 429 rate_limited), record s { limits = limits }))
        else (ok tt, s)

    -- `auditMany`: the entries are stamped with the calling client
    unfoldable pub audit_entries :
        {Rate : Type 0} → Client Rate → List AuditEntry → Action W L (Unit {0})
    audit_entries c entries =
        call (srv.vault.audit_many (map (λ (e : AuditEntry). record e { client = c.name }) entries))
