-- ===== src/Api/Reveal.antt =====
-- A reveal: who gets plaintext, and what is logged before it leaves.
use sealbox.Base.{
  ℕ, ◌≡◌, ◌≤◌, true, none, some, [], ◌∷◌, Text, Dict, lookup, ok, err, if◌then◌else◌, arith,
  Bool-cases, Option-cases, Result-cases, inl, inr, ◌≢◌,
}
use sealbox.Auth.{Client, has_role}
use sealbox.Envelope.{Bytes}
use sealbox.Store.Tables.{AuditEntry}
use sealbox.Api.Names.{is_id}
use sealbox.Api.Action.{
  Server, State, Response, answer, Rendered, Body, Request, Action, return, require_role, allow,
  audit_entries,
}
use sealbox.Api.Objects.{render}
use sealbox.Api.Handlers
use sealbox.Api.Handlers.{
  is_full, is_reveal, reveal_role, reveal_action, entry_of, or_refuse, audit_one, rendered,
}
use sealbox.Api.Serve.{finish}
use sealbox.Api.Ends.{allow-vault}

-- the entry of an action, stamped with the client that asked
abbrev pub stamped : {Rate : Type 0} → Client Rate → Text → Text → Text → Text → AuditEntry
stamped c action collection id field = record (entry_of action collection id field) {
  client = c.name;
}

module _ {W L Rate : Type 0} (srv : Server W L) where
  -- What stands behind an object that was shown.
  pub record Shown (r : Request Rate) (collection id reveal : Text) (s s' : State W L) (b : Body)
      : Type 0 where
    pub may : has_role r.client.roles (reveal_role reveal) ≡ true
    pub named : is_id id ≡ true
    pub held : Dict Bytes
    pub plaintext : Bytes
    pub shown : Rendered
    pub fetched : srv.vault.get_many collection (id ∷ []) s.vault ≡ ok held
    pub there : lookup id held ≡ some plaintext
    pub logged :
        srv.vault.audit_many (stamped r.client (reveal_action reveal) collection id [] ∷ []) s.vault
        ≡ (ok tt, s'.vault)
    pub drawn : render srv collection plaintext (is_full reveal) ≡ ok (some shown)
    pub answered : b ≡ Body.object shown

  budget : Request Rate → Text → Action W L (Unit {0})
  budget r reveal = if is_full reveal then allow srv r.client 1 else return tt

  budget-vault :
      (r : Request Rate) (reveal : Text) (s : State W L) → (budget r reveal s).1.vault ≡ s.vault
  unfolding budget
  budget-vault r reveal s = ground (arith, allow-vault srv r.client 1 s)

  budget-fails :
      (r : Request Rate) (reveal : Text) (s s' : State W L) (e : Response) (status : ℕ) (b : Body)
      → budget r reveal s ≡ (err e, s')
      → status ≤ 299
      → e ≢ answer status b
  unfolding budget allow
  budget-fails r reveal s s' e status b h low same = ground arith

  pub get-Shown :
      (r : Request Rate) (collection id reveal : Text) (s s' : State W L) (status : ℕ) (b : Body)
      → status ≤ 299
      → finish (Handlers.get srv r collection id reveal) s ≡ (answer status b, s')
      → Shown r collection id reveal s s' b
  unfolding Handlers.get budget require_role audit_one audit_entries rendered
  get-Shown r collection id reveal s s' status b low h =
      let paid = budget r reveal s in
      elim (Bool-cases (is_reveal reveal)) [
        | inr unknown ↦ ground (arith, unknown)
        | inl known ↦ elim (Bool-cases (has_role r.client.roles (reveal_role reveal))) [
          | inr lacks ↦ ground (arith, known, lacks)
          | inl may ↦ elim (Result-cases paid.0) [
            | inr (e, spent) ↦ absurd (
                budget-fails r reveal s paid.1 e status b (ground (arith, spent)) low
                  (ground (arith, known, may, spent)))
            | inl (_, granted) ↦ elim (Bool-cases (is_id id)) [
              | inr wrong ↦ ground (arith, known, may, granted, wrong)
              | inl named ↦
                  elim (Result-cases (srv.vault.get_many collection (id ∷ []) paid.1.vault)) [
                    | inr (e, failed) ↦ ground (arith, known, may, granted, named, failed)
                    | inl (held, fetched) ↦ elim (Option-cases (lookup id held)) [
                      | inl missing ↦ ground (arith, known, may, granted, named, fetched, missing)
                      | inr (plaintext, there) ↦
                          let entry = stamped r.client (reveal_action reveal) collection id [] in
                          let written = srv.vault.audit_many (entry ∷ []) paid.1.vault in
                          elim (Result-cases written.0) [
                            | inr (e, failed) ↦
                                ground (arith, known, may, granted, named, fetched, there, failed)
                            | inl (_, logged) ↦
                                elim (Result-cases
                                  (render srv collection plaintext (is_full reveal))) [
                                    | inr (e, broke) ↦ ground (
                                      arith, known, may, granted, named, fetched, there, logged,
                                      broke,
                                    )
                                    | inl (none, drawn) ↦ ground (
                                      arith, known, may, granted, named, fetched, there, logged,
                                      drawn,
                                    )
                                    | inl (some shown, drawn) ↦
                                        let same : paid.1.vault ≡ s.vault =
                                          budget-vault r reveal s in
                                        record {
                                          may = may;
                                          named = named;
                                          held = held;
                                          plaintext = plaintext;
                                          shown = shown;
                                          fetched = rw (← same) fetched;
                                          there = there;
                                          logged = rw (← same) (
                                              ground (
                                                arith, known, may, granted, named, fetched, there,
                                                logged, drawn,
                                              ));
                                          drawn = drawn;
                                          answered = ground (
                                            arith, known, may, granted, named, fetched, there,
                                            logged, drawn,
                                          );
                                        }
                                  ]
                          ]
                    ]
                  ]
            ]
          ]
        ]
      ]
