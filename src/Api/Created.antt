-- ===== src/Api/Created.antt =====
-- Create and read through the API, on the store.
use mathlib.Core.Path.{subst}
use sealbox.Base.{
  ℕ, suc, ◌≡◌, ap, ◌∙◌, sym, ◌≤◌, true, Option, none, some, List, [], ◌∷◌, Text, codes, ◌==◌, ok,
  length, arith, Option-cases, Result-cases, inl, inr, All,
}
use sealbox.Auth.{Client, has_role, authenticate}
use sealbox.Envelope.{Bytes}
use sealbox.Envelope.RoundTrip.{IsDraw}
use sealbox.Store.Tables.{Item, AuditEntry, Db, World, Store, new_id}
use sealbox.Store.Write.{PutDraw, put_one, put_loop, put_many}
use sealbox.Store.Effect.{put_one_effect, transact-eq-ok}
use sealbox.Store.View.{view, HasDistinctIds}
use sealbox.Store.Puts.{CanSeal}
use sealbox.Store.PutAll.{put_many-view}
use sealbox.Api.Names.{is_id}
use sealbox.Api.Action.{Server, State, answer, Rendered, plain, Body, Request}
use sealbox.Api.Objects.{parse_object, render}
use sealbox.Api.Handlers.{is_full}
use sealbox.Api.Serve.{create, get, serve}
use sealbox.Api.Backed.{on_store}
use sealbox.Api.Logged.{AllHonest, get_logged}
use sealbox.Api.Stored.{AreBytes, new_id-is_id, create-Created}

-- The sizes that the code asks of its source of randomness, in every round.
pub record IsTape (tape : ℕ → PutDraw) : Type 0 where
  pub draws : (n : ℕ) → IsDraw (tape n).draw
  pub sixteen : (n : ℕ) → length (tape n).id_bytes ≡ 16
  pub bytes : (n : ℕ) → AreBytes (tape n).id_bytes

-- Every id that the loop of `PutMany` returns is one that `newID` made.
put_loop-ids :
    (s : Store) (actor c : Text) (tape : ℕ → PutDraw) (P : Text → Type 0)
    → ((n : ℕ) → P (new_id (tape n).id_bytes))
    → (n : ℕ) (items : List Item) (db last : Db) (ids : List Text) (entries : List AuditEntry)
    → put_loop s actor c tape n items db ≡ ok ((ids, entries), last)
    → All P ids
unfolding put_loop
put_loop-ids s actor c tape P made n [] db last ids entries h =
    let none_made : [] ≡ ids = cc (h) in subst (All P) none_made tt
put_loop-ids s actor c tape P made n (it ∷ items) db last ids entries h =
    elim (Result-cases (put_one s actor c (tape n) it db)) [
      | inl ((id, mid), first) ↦ elim (Result-cases (put_loop s actor c tape (suc n) items mid)) [
        | inl (((ids', entries'), last'), later) ↦
            let same : id ∷ ids' ≡ ids = ground (arith, first, later) in
            let put = put_one_effect s actor c (tape n) it db mid id first in
            subst (All P) same (
              subst P (sym put.named) (made n),
              put_loop-ids s actor c tape P made (suc n) items mid last' ids' entries' later,
            )
        | inr (e, failed) ↦ ground (arith, first, failed)
      ]
      | inr (e, failed) ↦ ground (arith, failed)
    ]

put_many-ids :
    (s : Store) (actor c : Text) (tape : ℕ → PutDraw) (items : List Item) (w w' : World)
    (ids : List Text)
    → IsTape tape
    → put_many s actor c tape items w ≡ (ok ids, w')
    → All (λ id. is_id id ≡ true) ids
unfolding put_many
put_many-ids s actor c tape items w w' ids sizes h =
    let (entries, db, ran, after) = transact-eq-ok s (put_loop s actor c tape 0 items) w w' ids h in
    put_loop-ids s actor c tape (λ id. is_id id ≡ true)
      (λ n. new_id-is_id (tape n).id_bytes (sizes.bytes n) (sizes.sixteen n)) 0 items w.db db ids
      entries ran

full_shown :
    {W L : Type 0} (srv : Server W L) (collection : Text) (p : Bytes) (shown : Rendered)
    → render srv collection p (is_full (codes "full")) ≡ ok (some shown)
    → shown ≡ plain p
unfolding render ◌==◌
full_shown srv collection p shown h = cc (h)

module _ {L Rate : Type 0} (srv : Server World L) (st : Store) (tape : ℕ → PutDraw) where
  -- A create that answers with success is by an authenticated writer. The answer is an id of the
  -- form that the other routes accept, and under the collection and that id the abstract store
  -- holds the object that the body was checked and re-encoded to. The store can seal, ids were
  -- distinct, and the randomness has the sizes that were asked for.
  pub create_stored :
      (sha256 : Text → List ℕ) (clients : List (Client Rate)) (header : Text) (body : Option Bytes)
      (collection : Text) (s s' : State World L) (status : ℕ) (b : Body)
      → CanSeal st
      → IsTape tape
      → HasDistinctIds s.vault.db.objects
      → status ≤ 299
      → serve (on_store srv st tape) sha256 clients header body (create collection) s
        ≡ (answer status b, s')
      → (c : Client Rate) × (raw : Bytes) × (item : Item) × (id : Text) × (authenticate sha256
            clients header
          ≡ some c)
        × (has_role c.roles (codes "write") ≡ true)
        × (body ≡ some raw)
        × (parse_object (on_store srv st tape) collection raw ≡ ok item)
        × (b ≡ Body.created id)
        × (is_id id ≡ true)
        × (view st s'.vault.db collection id ≡ some (ok item.plaintext))
        × HasDistinctIds s'.vault.db.objects
  unfolding serve
  create_stored sha256 clients header body collection s s' status b can sizes distinct low h =
      elim (Option-cases (authenticate sha256 clients header)) [
        | inl nobody ↦ ground (arith, nobody)
        | inr (c, known) ↦
            let r : Request Rate = record { client = c; body = body } in
            let done =
              create-Created (on_store srv st tape) r collection s s' status b low
                (ground (arith, known)) in
            let (holds, apart, _, _) =
              put_many-view st c.name collection tape (done.item ∷ []) s.vault s'.vault
                (done.id ∷ done.others) can sizes.draws distinct done.stored in
            let (named, _) =
              put_many-ids st c.name collection tape (done.item ∷ []) s.vault s'.vault
                (done.id ∷ done.others) sizes done.stored in
            (
              c, done.raw, done.item, done.id, known, done.may, done.given, done.parsed,
              done.answered, named, holds.0, apart,
            )
      ]

  -- What is created can be read back: after a create that answered with an id, a read of that id
  -- in full, if it answers with success, shows exactly the text that the created object was
  -- re-encoded to. Nothing ran in between; wrappers are honest, the store can seal, ids were distinct,
  -- and the randomness has the sizes that were asked for.
  pub create-get :
      (sha256 : Text → List ℕ) (clients : List (Client Rate)) (header header' : Text) (raw : Bytes)
      (item : Item) (collection id : Text) (s mid s' : State World L) (status status' : ℕ)
      (b : Body)
      → AllHonest st
      → CanSeal st
      → IsTape tape
      → HasDistinctIds s.vault.db.objects
      → status ≤ 299
      → status' ≤ 299
      → parse_object (on_store srv st tape) collection raw ≡ ok item
      → serve (on_store srv st tape) sha256 clients header (some raw) (create collection) s
        ≡ (answer status (Body.created id), mid)
      → serve
          (on_store srv st tape)
          sha256
          clients
          header'
          none
          (get collection id (codes "full"))
          mid
        ≡ (answer status' b, s')
      → b ≡ Body.object (plain item.plaintext)
  create-get sha256 clients header header' raw item collection id s mid s' status status' b honest
        can sizes distinct low low' parsed made read =
      let (c, raw', item', id', known, may, given, parsed', answered, named, held, apart) =
        create_stored sha256 clients header (some raw) collection s mid status (Body.created id) can
          sizes distinct low made in
      let (c', plaintext, shown, known', may', held', drawn, answered', logged) =
        get_logged srv st tape sha256 clients header' none collection id (codes "full") mid s'
          status' b honest apart low' read in
      let same_raw : raw ≡ raw' = ground (arith, given) in
      let same_id : id ≡ id' = ground (arith, answered) in
      let same_item : item ≡ item' = ground (arith, parsed, parsed', same_raw) in
      let same_text : plaintext ≡ item.plaintext =
        ground (arith, held, held', same_id, same_item) in
      answered'
      ∙ ap (λ x. Body.object x)
          (full_shown (on_store srv st tape) collection plaintext shown drawn ∙ ap plain same_text)
