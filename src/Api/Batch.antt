-- ===== src/Api/Batch.antt =====
-- A batch reveal on the store.
use sealbox.Base.{
  ℕ, ◌≡◌, refl, ap, ◌∙◌, ◌≤◌, true, ◌||◌, Option, none, some, List, [], ◌∷◌, ◌++◌, map, Text, Dict,
  ok, err, length, ltb, if◌then◌else◌, arith, Bool-cases, Option-cases, Result-cases, inl, inr, ◌≢◌,
  All, All-both, All-mono, eq_refl,
}
use sealbox.Auth.{Client, has_role, authenticate}
use sealbox.Envelope.{Bytes}
use sealbox.Store.Tables.{AuditEntry, audit_row, Db, World, Store}
use sealbox.Store.Write.{PutDraw}
use sealbox.Store.Read.{one_of}
use sealbox.Store.View.{view, HasDistinctIds}
use sealbox.Store.Reads.{get_many-view}
use sealbox.Api.Names.{max_ids_body, max_batch}
use sealbox.Api.Action.{
  Server, State, Response, answer, Rendered, Body, Request, Action, return, require_role, read_body,
  allow, audit_entries,
}
use sealbox.Api.Objects.{render}
use sealbox.Api.Handlers
use sealbox.Api.Handlers.{
  is_full, is_reveal, reveal_role, reveal_action, entry_of, reveal_request, Revealed, reveal_loop,
}
use sealbox.Api.Serve.{finish, reveal_batch, serve}
use sealbox.Api.Ends.{allow-vault}
use sealbox.Api.Backed.{on_store}
use sealbox.Api.Reveal.{stamped}
use sealbox.Api.Loop.{IsOnce, keys, Told, IsShown, IsMissing, reveal_loop-Told}
use sealbox.Api.Logged.{audit_many_log, AllHonest}

-- What stands behind a batch reveal that answered with success.
pub record ToldBatch {W L Rate : Type 0} (srv : Server W L) (r : Request Rate) (collection : Text)
    (s s' : State W L) (b : Body) : Type 0 where
  pub body : Bytes
  pub ids : List Text
  pub reveal : Text
  pub held : Dict Bytes
  pub out : Revealed
  pub given : r.body ≡ some body
  pub asked : reveal_request (srv.codec.decode body) ≡ some (ids, reveal)
  pub few : length ids ≤ max_batch
  pub may : has_role r.client.roles (reveal_role reveal) ≡ true
  pub fetched : srv.vault.get_many collection ids s.vault ≡ ok held
  pub told : Told srv collection reveal held [] ids out
  pub logged :
      srv.vault.audit_many
        (map (λ (e : AuditEntry). record e { client = r.client.name }) out.entries)
        s.vault
      ≡ (ok tt, s'.vault)
  pub answered : b ≡ Body.objects out.objects out.missing

module _ {W L : Type 0} (srv : Server W L) where
  loop_fails :
      (collection reveal : Text) (held : Dict Bytes) (seen ids : List Text) (e : Response)
      (status : ℕ) (b : Body)
      → reveal_loop srv collection reveal held seen ids ≡ err e
      → status ≤ 299
      → e ≢ answer status b
  unfolding reveal_loop
  loop_fails collection reveal held seen [] e status b h low same = cc (h)
  loop_fails collection reveal held seen (id ∷ ids) e status b h low same =
      let here = loop_fails collection reveal held seen ids e status b in
      let there = loop_fails collection reveal held (id ∷ seen) ids e status b in
      ground (arith, here, there)

module _ {W L Rate : Type 0} (srv : Server W L) where
  spent : Request Rate → Text → Dict Bytes → Action W L (Unit {0})
  spent r reveal held = if is_full reveal then allow srv r.client (length held) else return tt

  spent-vault :
      (r : Request Rate) (reveal : Text) (held : Dict Bytes) (s : State W L)
      → (spent r reveal held s).1.vault ≡ s.vault
  unfolding spent
  spent-vault r reveal held s = ground (arith, allow-vault srv r.client (length held) s)

  spent-fails :
      (r : Request Rate) (reveal : Text) (held : Dict Bytes) (s s' : State W L) (e : Response)
      (status : ℕ) (b : Body)
      → spent r reveal held s ≡ (err e, s')
      → status ≤ 299
      → e ≢ answer status b
  unfolding spent allow
  spent-fails r reveal held s s' e status b h low same = ground arith

  pub reveal_batch-Told :
      (r : Request Rate) (collection : Text) (s s' : State W L) (status : ℕ) (b : Body)
      → status ≤ 299
      → finish (Handlers.reveal_batch srv r collection) s ≡ (answer status b, s')
      → ToldBatch srv r collection s s' b
  unfolding Handlers.reveal_batch spent require_role read_body audit_entries
  reveal_batch-Told r collection s s' status b low h = elim (Option-cases r.body) [
    | inl unread ↦ ground (arith, unread)
    | inr (body, given) ↦ elim (Bool-cases (ltb max_ids_body (length body))) [
      | inl long ↦ ground (arith, given, long)
      | inr short ↦ elim (Option-cases (reveal_request (srv.codec.decode body))) [
        | inl bad ↦ ground (arith, given, short, bad)
        | inr ((ids, reveal), asked) ↦ elim (Bool-cases (ltb max_batch (length ids))) [
          | inl many ↦ ground (arith, given, short, asked, many)
          | inr few ↦ elim (Bool-cases (is_reveal reveal)) [
            | inr unknown ↦ ground (arith, given, short, asked, few, unknown)
            | inl known ↦ elim (Bool-cases (has_role r.client.roles (reveal_role reveal))) [
              | inr lacks ↦ ground (arith, given, short, asked, few, known, lacks)
              | inl may ↦ elim (Result-cases (srv.vault.get_many collection ids s.vault)) [
                | inr (e, failed) ↦ ground (arith, given, short, asked, few, known, may, failed)
                | inl (held, fetched) ↦
                    let paid = spent r reveal held s in
                    elim (Result-cases paid.0) [
                      | inr (e, broke) ↦ absurd (
                          spent-fails r reveal held s paid.1 e status b (ground (arith, broke)) low
                            (ground (arith, given, short, asked, few, known, may, fetched, broke)))
                      | inl (_, granted) ↦
                          elim (Result-cases (reveal_loop srv collection reveal held [] ids)) [
                            | inr (e, broke) ↦ absurd (
                                loop_fails srv collection reveal held [] ids e status b broke low (
                                  ground (
                                    arith, given, short, asked, few, known, may, fetched, granted,
                                    broke,
                                  )))
                            | inl (out, ran) ↦
                                let stamp =
                                  map (λ (x : AuditEntry). record x { client = r.client.name })
                                    out.entries in
                                let written = srv.vault.audit_many stamp paid.1.vault in
                                elim (Result-cases written.0) [
                                  | inr (e, failed) ↦ ground (
                                    arith, given, short, asked, few, known, may, fetched, granted,
                                    ran, failed,
                                  )
                                  | inl (_, logged) ↦
                                      let same : paid.1.vault ≡ s.vault =
                                        spent-vault r reveal held s in
                                      record {
                                        body = body;
                                        ids = ids;
                                        reveal = reveal;
                                        held = held;
                                        out = out;
                                        given = given;
                                        asked = asked;
                                        few = ground (arith, few);
                                        may = may;
                                        fetched = fetched;
                                        told =
                                            reveal_loop-Told srv collection reveal held [] ids out
                                              ran;
                                        logged = rw (← same) (
                                            ground (
                                              arith, given, short, asked, few, known, may, fetched,
                                              granted, ran, logged,
                                            ));
                                        answered = ground (
                                          arith, given, short, asked, few, known, may, fetched,
                                          granted, ran, logged,
                                        );
                                      }
                                ]
                          ]
                    ]
              ]
            ]
          ]
        ]
      ]
    ]
  ]

-- the answer to a batch reveal, against the abstract store and the audit log
pub record BatchAnswer {L Rate : Type 0} (srv : Server World L) (st : Store) (c : Client Rate)
    (collection : Text) (ids : List Text) (reveal : Text) (before after : Db) (b : Body)
    : Type 0 where
  pub objects : Dict Rendered
  pub missing : List Text
  pub answered : b ≡ Body.objects objects missing
  pub shown :
      All
        (λ (e : Text × Rendered).
          (p : Bytes) × (view st before collection e.0 ≡ some (ok p))
          × (render srv collection p (is_full reveal) ≡ ok (some e.1)))
        objects
  pub absent : All (λ id. view st before collection id ≡ none) missing
  pub complete : All (λ id. (one_of (keys objects) id || one_of missing id) ≡ true) ids
  pub once : IsOnce (keys objects)
  pub missing_once : IsOnce missing
  pub logged :
      after.audit_log
      ≡ before.audit_log
        ++ map (λ id. audit_row (stamped c (reveal_action reveal) collection id [])) (keys objects)

All_one_of :
    (P : Text → Type 0) (ids : List Text) → ((x : Text) → one_of ids x ≡ true → P x) → All P ids
All_one_of P [] f = tt
All_one_of P (x ∷ xs) f =
    (f x (ground (arith, eq_refl x)), All_one_of P xs (λ y h. f y (ground (arith, h))))

stamp_rows :
    {Rate : Type 0} (c : Client Rate) (action collection : Text) (ids : List Text)
    → map audit_row (
        map
          (λ (e : AuditEntry). record e { client = c.name })
          (map (λ id. entry_of action collection id []) ids))
      ≡ map (λ id. audit_row (stamped c action collection id [])) ids
stamp_rows c action collection [] = refl
stamp_rows c action collection (id ∷ ids) = cc (stamp_rows c action collection ids)

module _ {L Rate : Type 0} (srv : Server World L) (st : Store) (tape : ℕ → PutDraw) where
  ToldBatch-answers :
      (r : Request Rate) (collection : Text) (s s' : State World L) (b : Body)
      → AllHonest st
      → HasDistinctIds s.vault.db.objects
      → (done : ToldBatch (on_store srv st tape) r collection s s' b)
      → BatchAnswer
          (on_store srv st tape)
          st
          r.client
          collection
          done.ids
          done.reveal
          s.vault.db
          s'.vault.db
          b
  ToldBatch-answers r collection s s' b honest distinct done =
      let held =
        get_many-view st collection done.ids s.vault.db done.held honest distinct done.fetched in
      let stamp = λ (e : AuditEntry). record e { client = r.client.name } in
      let written =
        audit_many_log st (map stamp done.out.entries) s.vault s'.vault tt done.logged in
      record {
        objects = done.out.objects;
        missing = done.out.missing;
        answered = done.answered;
        shown =
            All-mono (IsShown (on_store srv st tape) collection done.reveal done.held [])
              (λ (e : Text × Rendered).
                (p : Bytes) × (view st s.vault.db collection e.0 ≡ some (ok p))
                × (render (on_store srv st tape) collection p (is_full done.reveal)
                    ≡ ok (some e.1)))
              (λ e (p, there, drawn, new). (p, ground (arith, held e.0, there), drawn))
              done.out.objects done.told.shown;
        absent =
            All-both (IsMissing (on_store srv st tape) collection done.reveal done.held [])
              (λ id. one_of done.ids id ≡ true) (λ id. view st s.vault.db collection id ≡ none)
              (λ id (gone, new) asked. ground (arith, held id, gone, asked)) done.out.missing
              done.told.absent done.told.among;
        complete =
            All_one_of
              (λ id. (one_of (keys done.out.objects) id || one_of done.out.missing id) ≡ true)
              done.ids (λ id asked. done.told.covered id asked refl);
        once = done.told.once;
        missing_once = done.told.missing_once;
        logged =
            written
            ∙ ap (λ rows. s.vault.db.audit_log ++ rows)
                (ap (λ es. map audit_row (map stamp es)) done.told.logged
                  ∙ stamp_rows r.client (reveal_action done.reveal) collection
                      (keys done.out.objects));
      }

  -- A batch reveal that answers with success is by an authenticated client that may read at the level
  -- that the body asks for, and asked for at most 1,000 ids. Every object it shows is the
  -- rendering of what the abstract store holds under its id, every id it reports missing names
  -- nothing there, each id of the request is in one of the two lists, and neither list repeats
  -- one. When the answer is made the audit log has grown by one row for each object shown, in
  -- order, and by no other. Ids are distinct and wrappers honest.
  pub reveal_batch_logged :
      (sha256 : Text → List ℕ) (clients : List (Client Rate)) (header : Text) (body : Option Bytes)
      (collection : Text) (s s' : State World L) (status : ℕ) (b : Body)
      → AllHonest st
      → HasDistinctIds s.vault.db.objects
      → status ≤ 299
      → serve (on_store srv st tape) sha256 clients header body (reveal_batch collection) s
        ≡ (answer status b, s')
      → (c : Client Rate) × (raw : Bytes) × (ids : List Text) × (reveal : Text) × (authenticate
            sha256 clients header
          ≡ some c)
        × (body ≡ some raw)
        × (reveal_request (srv.codec.decode raw) ≡ some (ids, reveal))
        × (has_role c.roles (reveal_role reveal) ≡ true)
        × (length ids ≤ max_batch)
        × BatchAnswer (on_store srv st tape) st c collection ids reveal s.vault.db s'.vault.db b
  unfolding serve
  reveal_batch_logged sha256 clients header body collection s s' status b honest distinct low h =
      elim (Option-cases (authenticate sha256 clients header)) [
        | inl nobody ↦ ground (arith, nobody)
        | inr (c, known) ↦
            let r : Request Rate = record { client = c; body = body } in
            let done =
              reveal_batch-Told (on_store srv st tape) r collection s s' status b low
                (ground (arith, known)) in
            (
              c,
              done.body,
              done.ids,
              done.reveal,
              known,
              done.given,
              done.asked,
              done.may,
              done.few,
              ToldBatch-answers r collection s s' b honest distinct done,
            )
      ]
