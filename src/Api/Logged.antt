-- ===== src/Api/Logged.antt =====
-- Reveals on the store: what is shown is what the abstract store holds, and it is in the audit log.
use sealbox.Base.{
  ℕ, ◌≡◌, ap, ◌∙◌, sym, ◌≤◌, true, Option, some, List, [], ◌∷◌, ◌++◌, map, Text, lookup, ok, any,
  arith, Bool-cases, Option-cases, inl, inr, eq_refl, append-nil,
}
use sealbox.Auth.{Client, has_role, authenticate}
use sealbox.Envelope.{Bytes, Wrapper}
use sealbox.Envelope.Local.{IsHonest}
use sealbox.Store.Tables.{AuditEntry, audit_row, insert_audit, Db, World, Store, emit}
use sealbox.Store.Write.{PutDraw, audit_many}
use sealbox.Store.View.{view, HasDistinctIds}
use sealbox.Store.PutAll.{emit-db}
use sealbox.Store.Reads.{get_many-view}
use sealbox.Api.Action.{Server, State, answer, Rendered, Body, Request}
use sealbox.Api.Objects.{render}
use sealbox.Api.Handlers.{is_full, reveal_role, reveal_action}
use sealbox.Api.Serve.{get, serve}
use sealbox.Api.Backed.{on_store}
use sealbox.Api.Reveal.{stamped, get-Shown}

pub audit_many_log :
    (s : Store) (entries : List AuditEntry) (w w' : World) (u : Unit {0})
    → audit_many s entries w ≡ (ok u, w')
    → w'.db.audit_log ≡ w.db.audit_log ++ map audit_row entries
unfolding audit_many
audit_many_log s [] w w' u h =
    let same : w ≡ w' = cc (h) in
    ap (λ (x : World). x.db.audit_log) (sym same) ∙ sym (append-nil w.db.audit_log)
audit_many_log s (e ∷ rest) w w' u h =
    let entries = e ∷ rest in
    elim (Bool-cases (any (λ x. s.fails (insert_audit (audit_row x))) entries)) [
      | inl refused ↦ ground (arith, refused)
      | inr served ↦
          let next : World = record w {
            db = record w.db { audit_log = w.db.audit_log ++ map audit_row entries };
          } in
          let same : emit s entries next ≡ w' = ground (arith, served) in
          ap (λ (x : World). x.db.audit_log) (sym same)
          ∙ ap (λ (d : Db). d.audit_log) (emit-db s entries next)
    ]

-- every loaded wrapper keeps its contract
abbrev pub AllHonest : Store → Type 0
AllHonest s = (k : Text) (w : Wrapper) → lookup k s.env.all ≡ some w → IsHonest w

module _ {L Rate : Type 0} (srv : Server World L) (st : Store) (tape : ℕ → PutDraw) where
  -- A read of one object that answers with success is by an authenticated client that may read at
  -- this level. It shows the rendering, masked or in full, of what the abstract store holds under the
  -- collection and the id, and when the answer is made the audit log has grown by one row that
  -- names the client, the level, the collection and the id. Ids are distinct and wrappers honest.
  pub get_logged :
      (sha256 : Text → List ℕ) (clients : List (Client Rate)) (header : Text) (body : Option Bytes)
      (collection id reveal : Text) (s s' : State World L) (status : ℕ) (b : Body)
      → AllHonest st
      → HasDistinctIds s.vault.db.objects
      → status ≤ 299
      → serve (on_store srv st tape) sha256 clients header body (get collection id reveal) s
        ≡ (answer status b, s')
      → (c : Client Rate) × (plaintext : Bytes) × (shown : Rendered) × (authenticate sha256 clients
            header
          ≡ some c)
        × (has_role c.roles (reveal_role reveal) ≡ true)
        × (view st s.vault.db collection id ≡ some (ok plaintext))
        × (render (on_store srv st tape) collection plaintext (is_full reveal) ≡ ok (some shown))
        × (b ≡ Body.object shown)
        × (s'.vault.db.audit_log
            ≡ s.vault.db.audit_log
              ++ audit_row (stamped c (reveal_action reveal) collection id []) ∷ [])
  unfolding serve
  get_logged sha256 clients header body collection id reveal s s' status b honest distinct low h =
      elim (Option-cases (authenticate sha256 clients header)) [
        | inl nobody ↦ ground (arith, nobody)
        | inr (c, known) ↦
            let r : Request Rate = record { client = c; body = body } in
            let seen =
              get-Shown (on_store srv st tape) r collection id reveal s s' status b low
                (ground (arith, known)) in
            let held =
              get_many-view st collection (id ∷ []) s.vault.db seen.held honest distinct
                seen.fetched id in
            (
              c,
              seen.plaintext,
              seen.shown,
              known,
              seen.may,
              ground (arith, held, seen.there, eq_refl id),
              seen.drawn,
              seen.answered,
              audit_many_log st (stamped c (reveal_action reveal) collection id [] ∷ []) s.vault
                  s'.vault tt seen.logged,
            )
      ]
