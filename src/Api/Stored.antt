-- ===== src/Api/Stored.antt =====
-- Creates on the store: what was accepted is stored under an id that can be read.
use sealbox.Base.{
  ℕ, ◌*◌, ◌/◌, ◌%◌, ◌≡◌, ◌≢◌, refl, ◌≤◌, ◌<◌, true, some, List, [], ◌∷◌, Text, codes, ◌==◌, ok,
  length, ltb, all, arith, Bool-cases, Option-cases, Result-cases, inl, inr, All,
}
use sealbox.Auth.{has_role}
use sealbox.Envelope.{Bytes}
use sealbox.Store.Tables.{Item, new_id, hex, hex_digit}
use sealbox.Api.Names.{is_collection, is_id, is_hex_code, max_body, max_batch, max_batch_body}
use sealbox.Api.Action.{
  Server, State, answer, Body, ObjectError, panics, too_large, not_utf8, not_an_object, bad_subject,
  invalid, Request,
}
use sealbox.Api.Objects.{parse_object, parse_all}
use sealbox.Api.Handlers
use sealbox.Api.Handlers.{first, batch_request, refuse_object, refuse_item}
use sealbox.Api.Serve.{finish}
use sealbox.Api.Ends.{require_role-cases, read_body-cases}

-- bytes, as `rand.Read` fills a slice with
abbrev pub AreBytes : Bytes → Type 0
AreBytes = All (λ b. b < 256)

hex_digit-hex : (n : ℕ) → n < 16 → is_hex_code (hex_digit n) ≡ true
unfolding hex_digit
hex_digit-hex n small = ground arith

all_hex : (bs : Bytes) → AreBytes bs → all is_hex_code (hex bs) ≡ true
unfolding hex
all_hex [] small = refl
all_hex (b ∷ bs) (here, small) =
    let high = hex_digit-hex (b / 16) (omega (arith, here)) in
    let low = hex_digit-hex (b % 16) (omega arith) in ground (arith, high, low, all_hex bs small)

length-hex : (bs : Bytes) → length (hex bs) ≡ 2 * length bs
unfolding hex
length-hex [] = refl
length-hex (b ∷ bs) = omega (arith, length-hex bs)

-- An id that `newID` makes of sixteen bytes matches the pattern that the handlers ask of an id.
pub new_id-is_id : (bs : Bytes) → AreBytes bs → length bs ≡ 16 → is_id (new_id bs) ≡ true
unfolding new_id is_id ◌==◌
new_id-is_id bs small size = ground (arith, all_hex bs small, length-hex bs, size)

refuse_object-fails :
    (e : ObjectError) (status : ℕ) (b : Body) → status ≤ 299 → refuse_object e ≢ answer status b
refuse_object-fails panics status b low h = ground arith
refuse_object-fails too_large status b low h = ground arith
refuse_object-fails not_utf8 status b low h = ground arith
refuse_object-fails not_an_object status b low h = ground arith
refuse_object-fails bad_subject status b low h = ground arith
refuse_object-fails (invalid e) status b low h = ground arith

refuse_item-fails :
    (i : ℕ) (e : ObjectError) (status : ℕ) (b : Body)
    → status ≤ 299
    → refuse_item (i, e) ≢ answer status b
refuse_item-fails i panics status b low h = ground arith
refuse_item-fails i too_large status b low h = ground arith
refuse_item-fails i not_utf8 status b low h = ground arith
refuse_item-fails i not_an_object status b low h = ground arith
refuse_item-fails i bad_subject status b low h = ground arith
refuse_item-fails i (invalid e) status b low h = ground arith

module _ {W L Rate : Type 0} (srv : Server W L) where
  -- What stands behind a create that answered with success.
  pub record Created (r : Request Rate) (collection : Text) (s s' : State W L) (b : Body)
      : Type 0 where
    pub raw : Bytes
    pub item : Item
    pub id : Text
    pub others : List Text
    pub may : has_role r.client.roles (codes "write") ≡ true
    pub named : is_collection collection ≡ true
    pub given : r.body ≡ some raw
    pub parsed : parse_object srv collection raw ≡ ok item
    pub stored :
        srv.vault.put_many r.client.name collection (item ∷ []) s.vault
        ≡ (ok (id ∷ others), s'.vault)
    pub answered : b ≡ Body.created id

  pub create-Created :
      (r : Request Rate) (collection : Text) (s s' : State W L) (status : ℕ) (b : Body)
      → status ≤ 299
      → finish (Handlers.create srv r collection) s ≡ (answer status b, s')
      → Created r collection s s' b
  unfolding Handlers.create
  create-Created r collection s s' status b low h =
      elim (require_role-cases r.client (codes "write") s) [
        | inr refused ↦ ground (arith, refused)
        | inl (may, let_in) ↦ elim (Bool-cases (is_collection collection)) [
          | inr wrong ↦ ground (arith, let_in, wrong)
          | inl named ↦ elim (read_body-cases r max_body s) [
            | inr (code, m, high, unread) ↦ ground (arith, let_in, named, high, unread)
            | inl (raw, given, short, read) ↦
                elim (Result-cases (parse_object srv collection raw)) [
                  | inr (e, bad) ↦ absurd (
                      refuse_object-fails e status b low (ground (arith, let_in, named, read, bad)))
                  | inl (item, parsed) ↦
                      let put = srv.vault.put_many r.client.name collection (item ∷ []) s.vault in
                      elim (Result-cases put.0) [
                        | inr (e, failed) ↦ ground (arith, let_in, named, read, parsed, failed)
                        | inl ([], none_made) ↦
                            ground (arith, let_in, named, read, parsed, none_made)
                        | inl (id ∷ others, made) ↦ record {
                          raw = raw;
                          item = item;
                          id = id;
                          others = others;
                          may = may;
                          named = named;
                          given = given;
                          parsed = parsed;
                          stored = ground (arith, let_in, named, read, parsed, made);
                          answered = ground (arith, let_in, named, read, parsed, made);
                        }
                      ]
                ]
          ]
        ]
      ]

  -- What stands behind a batch of creates that answered with success.
  pub record CreatedAll (r : Request Rate) (collection : Text) (s s' : State W L) (b : Body)
      : Type 0 where
    pub raw : Bytes
    pub raws : List Bytes
    pub items : List Item
    pub ids : List Text
    pub may : has_role r.client.roles (codes "write") ≡ true
    pub given : r.body ≡ some raw
    pub cut : batch_request (srv.codec.elements raw) ≡ some raws
    pub few : length raws ≤ max_batch
    pub parsed : parse_all srv collection 0 raws ≡ ok items
    pub stored : srv.vault.put_many r.client.name collection items s.vault ≡ (ok ids, s'.vault)
    pub answered : b ≡ Body.created_all ids

  pub create_batch-CreatedAll :
      (r : Request Rate) (collection : Text) (s s' : State W L) (status : ℕ) (b : Body)
      → status ≤ 299
      → finish (Handlers.create_batch srv r collection) s ≡ (answer status b, s')
      → CreatedAll r collection s s' b
  unfolding Handlers.create_batch
  create_batch-CreatedAll r collection s s' status b low h =
      elim (require_role-cases r.client (codes "write") s) [
        | inr refused ↦ ground (arith, refused)
        | inl (may, let_in) ↦ elim (Bool-cases (is_collection collection)) [
          | inr wrong ↦ ground (arith, let_in, wrong)
          | inl named ↦ elim (read_body-cases r max_batch_body s) [
            | inr (code, m, high, unread) ↦ ground (arith, let_in, named, high, unread)
            | inl (raw, given, short, read) ↦
                elim (Option-cases (batch_request (srv.codec.elements raw))) [
                  | inl uncut ↦ ground (arith, let_in, named, read, uncut)
                  | inr (raws, cut) ↦ elim (Bool-cases (ltb max_batch (length raws))) [
                    | inl many ↦ ground (arith, let_in, named, read, cut, many)
                    | inr few ↦ elim (Result-cases (parse_all srv collection 0 raws)) [
                      | inr ((i, e), bad) ↦ absurd (
                          refuse_item-fails i e status b low
                            (ground (arith, let_in, named, read, cut, few, bad)))
                      | inl (items, parsed) ↦
                          let put = srv.vault.put_many r.client.name collection items s.vault in
                          elim (Result-cases put.0) [
                            | inr (e, failed) ↦
                                ground (arith, let_in, named, read, cut, few, parsed, failed)
                            | inl (ids, made) ↦ record {
                              raw = raw;
                              raws = raws;
                              items = items;
                              ids = ids;
                              may = may;
                              given = given;
                              cut = cut;
                              few = ground (arith, few);
                              parsed = parsed;
                              stored = ground (arith, let_in, named, read, cut, few, parsed, made);
                              answered =
                                  ground (arith, let_in, named, read, cut, few, parsed, made);
                            }
                          ]
                    ]
                  ]
                ]
          ]
        ]
      ]
