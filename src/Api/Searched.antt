-- ===== src/Api/Searched.antt =====
-- A search: what it finds on the store, and what is logged.
use sealbox.Base.{
  ℕ, ◌≡◌, ◌≢◌, refl, ◌≤◌, ◌<◌, true, ◌&&◌, not, Option, none, some, List, [], ◌∷◌, ◌++◌, Text,
  codes, ◌==◌, ok, err, any, length, eqb, eqb_iff, All, arith, Bool-cases, Option-cases,
  Result-cases, inl, inr,
}
use sealbox.Schema.{
  SchemaError, bad_document, unknown_type, not_indexable, unknown_fragment, fragment_type,
  not_indexed, last4_only, unknown_field, not_a_string, invalid_field, Query, normalize, nil_call,
}
use sealbox.Auth.{Client, has_role, authenticate}
use sealbox.Envelope.{Bytes}
use sealbox.Store.Tables.{IndexRow, audit_row, World, Store}
use sealbox.Store.Write.{PutDraw}
use sealbox.Store.Read.{search_page, is_match, one_of}
use sealbox.Store.Found.{search-eq-ok}
use sealbox.Api.Names.{is_id, max_query}
use sealbox.Api.Action.{Server, State, Response, answer, Body, Request, allow, audit_entries}
use sealbox.Api.Handlers
use sealbox.Api.Handlers.{query_request, next_of, last, refuse_query, or_refuse, audit_one}
use sealbox.Api.Serve
use sealbox.Api.Serve.{serve, finish}
use sealbox.Api.Backed.{on_store}
use sealbox.Api.Ends.{allow-vault, require_role-cases, read_body-cases}
use sealbox.Api.Reveal.{stamped}
use sealbox.Api.Logged.{audit_many_log}

refuse_query_fails :
    (e : SchemaError) (status : ℕ) (b : Body) → status ≤ 299 → refuse_query e ≢ answer status b
refuse_query_fails bad_document status b low h = ground arith
refuse_query_fails nil_call status b low h = ground arith
refuse_query_fails (unknown_type x y) status b low h = ground arith
refuse_query_fails (not_indexable x y) status b low h = ground arith
refuse_query_fails (unknown_fragment x y z) status b low h = ground arith
refuse_query_fails (fragment_type x y z) status b low h = ground arith
refuse_query_fails (not_indexed x) status b low h = ground arith
refuse_query_fails (last4_only x) status b low h = ground arith
refuse_query_fails (unknown_field x) status b low h = ground arith
refuse_query_fails (not_a_string x) status b low h = ground arith
refuse_query_fails (invalid_field x y) status b low h = ground arith

module _ {W L Rate : Type 0} (srv : Server W L) where
  -- What stands behind a search that answered with success.
  pub record Searched (r : Request Rate) (collection after : Text) (s s' : State W L) (b : Body)
      : Type 0 where
    pub body : Bytes
    pub field : Text
    pub value : Text
    pub query : Query
    pub ids : List Text
    pub may : has_role r.client.roles (codes "search") ≡ true
    pub given : r.body ≡ some body
    pub asked : query_request (srv.codec.decode body) ≡ some (field, value)
    pub normal : normalize srv.to_lower srv.schema collection field value ≡ ok query
    pub found : srv.vault.search collection query.index query.normalized after s.vault ≡ ok ids
    pub logged :
        srv.vault.audit_many
          (stamped r.client (codes "search") collection [] query.index ∷ [])
          s.vault
        ≡ (ok tt, s'.vault)
    pub answered : b ≡ Body.found ids (next_of ids)

  allow_fails :
      (c : Client Rate) (s s' : State W L) (e : Response) (status : ℕ) (b : Body)
      → allow srv c 1 s ≡ (err e, s')
      → status ≤ 299
      → e ≢ answer status b
  unfolding allow
  allow_fails c s s' e status b h low same = ground arith

  pub search-Searched :
      (r : Request Rate) (collection after : Text) (s s' : State W L) (status : ℕ) (b : Body)
      → status ≤ 299
      → finish (Handlers.search srv r collection after) s ≡ (answer status b, s')
      → Searched r collection after s s' b
  unfolding Handlers.search audit_one audit_entries
  search-Searched r collection after s s' status b low h =
      let paid = allow srv r.client 1 s in
      elim (require_role-cases r.client (codes "search") s) [
        | inr lacks ↦ ground (arith, lacks)
        | inl (has, may) ↦ elim (Result-cases paid.0) [
          | inr (e, spent) ↦ absurd (
              allow_fails r.client s paid.1 e status b (ground (arith, spent)) low
                (ground (arith, may, spent)))
          | inl (_, granted) ↦ elim (Bool-cases (not (after == []) && not (is_id after))) [
            | inl wrong ↦ ground (arith, may, granted, wrong)
            | inr named ↦ elim (read_body-cases r max_query paid.1) [
              | inr (status', m, high, unread) ↦ ground (arith, may, granted, named, unread)
              | inl (body, given, short, taken) ↦
                  elim (Option-cases (query_request (srv.codec.decode body))) [
                    | inl malformed ↦ ground (arith, may, granted, named, taken, malformed)
                    | inr ((field, value), asked) ↦
                        elim (Result-cases
                          (normalize srv.to_lower srv.schema collection field value)) [
                            | inr (e, odd) ↦ absurd (
                                refuse_query_fails e status b low
                                  (ground (arith, may, granted, named, taken, asked, odd)))
                            | inl (q, normal) ↦
                                elim (Result-cases (
                                  srv.vault.search collection q.index q.normalized after
                                    paid.1.vault)) [
                                      | inr (e, fault) ↦
                                          ground (
                                            arith, may, granted, named, taken, asked, normal, fault,
                                          )
                                      | inl (ids, found) ↦
                                          let entry =
                                            stamped r.client (codes "search") collection []
                                              q.index in
                                          let written =
                                            srv.vault.audit_many (entry ∷ []) paid.1.vault in
                                          elim (Result-cases written.0) [
                                            | inr (e, fault) ↦ ground (
                                              arith, may, granted, named, taken, asked, normal,
                                              found, fault,
                                            )
                                            | inl (_, logged) ↦
                                                let same : paid.1.vault ≡ s.vault =
                                                  allow-vault srv r.client 1 s in
                                                record {
                                                  body = body;
                                                  field = field;
                                                  value = value;
                                                  query = q;
                                                  ids = ids;
                                                  may = has;
                                                  given = given;
                                                  asked = asked;
                                                  normal = normal;
                                                  found = rw (← same) found;
                                                  logged = rw (← same) (
                                                      ground (
                                                        arith, may, granted, named, taken, asked,
                                                        normal, found, logged,
                                                      ));
                                                  answered = ground (
                                                    arith, may, granted, named, taken, asked,
                                                    normal, found, logged,
                                                  );
                                                }
                                          ]
                                    ]
                          ]
                  ]
            ]
          ]
        ]
      ]

last_some : (x y : Text) (ids : List Text) → last (x ∷ y ∷ ids) ≢ none
last_some x y [] h = ground arith
last_some x y (z ∷ ids) h = last_some y z ids h

last-none : (ids : List Text) → last ids ≡ none → length ids ≡ 0
last-none [] h = refl
last-none (x ∷ []) h = ground arith
last-none (x ∷ y ∷ ids) h = absurd (last_some x y ids h)

next_of-none :
    (ids : List Text) → length ids ≤ search_page → next_of ids ≡ none → length ids < search_page
next_of-none ids small h = elim (Bool-cases (eqb (length ids) search_page)) [
  | inl full ↦
      let size = (eqb_iff (length ids) search_page).0 full in
      let gone = last-none ids (ground (arith, full, h)) in omega arith
  | inr part ↦ ground (arith, part, small)
]

module _ {L Rate : Type 0} (srv : Server World L) (st : Store) (tape : ℕ → PutDraw) where
  -- A search that answers with success is by an authenticated client with the role. It looks for
  -- the normal form, under the schema, of the one field and value in the body. It shows at most 100 ids,
  -- each that of an index row with the keyed hash of that form, after the given id; and when it gives no
  -- id to go on from, it shows all of them. When the answer is made the audit log has grown by one row that
  -- names the client, the collection and the index, and no value.
  pub search_logged :
      (sha256 : Text → List ℕ) (clients : List (Client Rate)) (header : Text) (body : Option Bytes)
      (collection after : Text) (s s' : State World L) (status : ℕ) (b : Body)
      → status ≤ 299
      → serve (on_store srv st tape) sha256 clients header body (Serve.search collection after) s
        ≡ (answer status b, s')
      → (c : Client Rate) × (raw : Bytes) × (field : Text) × (value : Text) × (q : Query)
        × (ids : List Text) × (authenticate sha256 clients header ≡ some c)
        × (body ≡ some raw)
        × (has_role c.roles (codes "search") ≡ true)
        × (query_request (srv.codec.decode raw) ≡ some (field, value))
        × (normalize srv.to_lower srv.schema collection field value ≡ ok q)
        × (b ≡ Body.found ids (next_of ids))
        × (length ids ≤ search_page)
        × All
            (λ id.
              any
                (λ r. is_match st collection q.index q.normalized after r && r.object_id == id)
                s.vault.db.blind_index
              ≡ true)
            ids
        × (next_of ids ≡ none
            → All
                (λ (r : IndexRow).
                  is_match st collection q.index q.normalized after r ≡ true
                  → one_of ids r.object_id ≡ true)
                s.vault.db.blind_index)
        × (s'.vault.db.audit_log
            ≡ s.vault.db.audit_log
              ++ audit_row (stamped c (codes "search") collection [] q.index) ∷ [])
  unfolding serve
  search_logged sha256 clients header body collection after s s' status b low h =
      elim (Option-cases (authenticate sha256 clients header)) [
        | inl nobody ↦ ground (arith, nobody)
        | inr (c, known) ↦
            let r : Request Rate = record { client = c; body = body } in
            let done =
              search-Searched (on_store srv st tape) r collection after s s' status b low
                (ground (arith, known)) in
            let (small, sound, whole) =
              search-eq-ok st collection done.query.index done.query.normalized after s.vault.db
                done.ids done.found in
            (
              c,
              done.body,
              done.field,
              done.value,
              done.query,
              done.ids,
              known,
              done.given,
              done.may,
              done.asked,
              done.normal,
              done.answered,
              small,
              sound,
              λ end. whole (next_of-none done.ids small end),
              audit_many_log st (stamped c (codes "search") collection [] done.query.index ∷ [])
                  s.vault s'.vault tt done.logged,
            )
      ]
