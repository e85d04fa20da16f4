-- ===== src/Store/Keeps.antt =====
-- What every step of a run keeps.
use sealbox.Base.{
  ℕ, ◌≡◌, sym, List, [], ◌++◌, Text, Result, ok, Bool, false, ◌&&◌, any, arith, Bool-cases,
  Result-cases, inl, inr,
}
use mathlib.Core.Path.{subst}
use sealbox.Store.Tables.{ObjectRow, Db, World, Store, StoreError}
use sealbox.Base.{length, Any, Dict, true, not, Option, Option-cases}
use sealbox.Envelope.{Bytes, Sealed, nonce_bytes, rewrap, open_value}
use sealbox.Store.Tables.{
  KeyRow, Statement, aad, update_key, select_page, read_index_key, update_index_key, index_key_aad,
}
use sealbox.Store.Tx.{has_id}
use sealbox.Store.Read.{or_nil, sealed_of}
use sealbox.Store.Maintain.{
  Outcome, is_bad_row, is_unmoved, rekey_where, rotate_row, reindex_row, rewrite_index,
}
use sealbox.Store.Upkeep.{reindexed, rewrite_index-cases}
use sealbox.Store.Pages.{
  page_of, page_in, needs_rotation, needs_index, as_state, find_key, rotate_index_key,
}
use sealbox.Store.Steps.{
  Running, during, Step, puts, deletes, erases, audits, rotates_key, rotate_reads, rotates,
  reindex_reads, reindexes, unanswered, Steps, done, next,
}
use sealbox.Store.Kept.{
  IsKeptByWrites, audit_many_keeps, put_many_keeps, delete_keeps, delete_subject_keeps,
}

abbrev key_of : KeyRow → Sealed
key_of k = record { key_id = k.key_id; wrapped_dek = k.wrapped_dek; ciphertext = k.ciphertext }

-- The wrapped key of a row, as `Rotate` reads it.
abbrev pub row_key : ObjectRow → Sealed
row_key r = record { key_id = r.key_id; wrapped_dek = or_nil r.wrapped_dek; ciphertext = [] }

-- `Rotate` changes nothing but the service keys when it re-wraps the blind-index key.
rotate_index_key-keys :
    (s : Store) (drawn : Bytes) (db db' : Db) (n : ℕ)
    → rotate_index_key s drawn db ≡ ok (n, db')
    → db' ≡ record db { keys = db'.keys }
unfolding rotate_index_key
rotate_index_key-keys s drawn db db' n h = elim (Bool-cases (s.fails read_index_key)) [
  | inl refused ↦ ground (arith, refused)
  | inr served ↦ elim (Option-cases (find_key s db.keys)) [
    | inl lacks ↦ ground (arith, served, lacks)
    | inr (k, found) ↦ elim (Result-cases (rewrap s.env drawn (key_of k) index_key_aad)) [
      | inr (e, fault) ↦ ground (arith, served, found, fault)
      | inl ((re, false), did) ↦ ground (arith, served, found, did)
      | inl ((re, true), did) ↦ elim (Bool-cases (s.fails update_index_key)) [
        | inl refused ↦ ground (arith, served, found, did, refused)
        | inr written ↦ ground (arith, served, found, did, written)
      ]
    ]
  ]
]

-- A property of the tables and the rows held that each step keeps.
pub record IsKept (s : Store) (P : Db → List ObjectRow → Type 0) : Type 0 where
  pub writes :
      (fails : Statement → Bool) (anyway : Bool) (held : List ObjectRow)
      → IsKeptByWrites (during s fails anyway) (λ db. P db held)
  pub keys :
      (keys : List KeyRow) (db : Db) (held : List ObjectRow)
      → P db held
      → P (record db { keys = keys }) held
  pub read :
      (fails : Statement → Bool) (anyway : Bool) (test : ObjectRow → Bool) (last : Text) (db : Db)
      (held : List ObjectRow)
      → P db held
      → P db (page_of (during s fails anyway) test last db.objects ++ held)
  pub rekey :
      (drawn : Bytes) (r : ObjectRow) (re : Sealed) (db : Db) (held : List ObjectRow)
      → length drawn ≡ nonce_bytes
      → Any (λ x. x ≡ r) held
      → rewrap s.env drawn (row_key r) (aad r.collection r.id) ≡ ok (re, true)
      → P db held
      → P (record db { objects = rekey_where (is_unmoved r.id r.key_id) re db.objects }) held
  pub index :
      (fails : Statement → Bool) (anyway : Bool) (actor : Text) (r : ObjectRow) (values : Dict Text)
      (db : Db) (held : List ObjectRow)
      → Any (λ x. x ≡ r) held
      → any (λ x. has_id r.id x && not x.deleted) db.objects ≡ true
      → P db held
      → P (reindexed (during s fails anyway) actor r.collection r.id values db) held

module _ (s : Store) (P : Db → List ObjectRow → Type 0) (kept : IsKept s P) where
  page_in_keeps :
      (fails : Statement → Bool) (anyway : Bool) (test : ObjectRow → Bool) (last : Text) (db : Db)
      (held rows : List ObjectRow)
      → page_in (during s fails anyway) test last db ≡ ok rows
      → P db held
      → P db (rows ++ held)
  page_in_keeps fails anyway test last db held rows h old =
      elim (Bool-cases (fails (select_page last))) [
        | inl refused ↦ ground (arith, refused, h)
        | inr served ↦
            let same : page_of (during s fails anyway) test last db.objects ≡ rows =
              ground (arith, served, h) in
            subst (λ x. P db (x ++ held)) same (kept.read fails anyway test last db held old)
      ]

  rotate_row_keeps :
      (fails : Statement → Bool) (anyway : Bool) (drawn : Bytes) (r : ObjectRow) (db db' : Db)
      (held : List ObjectRow) (out : Result StoreError Outcome)
      → length drawn ≡ nonce_bytes
      → Any (λ x. x ≡ r) held
      → as_state (rotate_row (during s fails anyway) drawn r db) db ≡ (out, db')
      → P db held
      → P db' held
  unfolding rotate_row
  rotate_row_keeps fails anyway drawn r db db' held out size among h old =
      elim (Result-cases (rewrap s.env drawn (row_key r) (aad r.collection r.id))) [
        | inl ((re, true), did) ↦ elim (Bool-cases (fails (update_key r.id))) [
          | inl refused ↦ subst (λ x. P x held) (ground (arith, did, refused, h)) old
          | inr served ↦
              let same : record db {
                objects = rekey_where (is_unmoved r.id r.key_id) re db.objects;
              }
                  ≡ db' =
                ground (arith, did, served, h) in
              subst (λ x. P x held) same (kept.rekey drawn r re db held size among did old)
        ]
        | inl ((re, false), did) ↦
            let same : db ≡ db' = ground (arith, did, h) in subst (λ x. P x held) same old
        | inr (e, fault) ↦ elim (Bool-cases (is_bad_row e)) [
          | inl bad ↦
              let same : db ≡ db' = ground (arith, fault, bad, h) in subst (λ x. P x held) same old
          | inr stop ↦
              let same : db ≡ db' = ground (arith, fault, stop, h) in subst (λ x. P x held) same old
        ]
      ]

  rotate_index_key_keeps :
      (fails : Statement → Bool) (anyway : Bool) (drawn : Bytes) (db db' : Db)
      (held : List ObjectRow) (n : ℕ)
      → rotate_index_key (during s fails anyway) drawn db ≡ ok (n, db')
      → P db held
      → P db' held
  rotate_index_key_keeps fails anyway drawn db db' held n h old =
      let same = rotate_index_key-keys (during s fails anyway) drawn db db' n h in
      subst (λ x. P x held) (sym same) (kept.keys db'.keys db held old)

  reindex_row_keeps :
      (fails : Statement → Bool) (anyway : Bool) (actor : Text)
      (indexed : Text → Bytes → Option (Dict Text)) (r : ObjectRow) (w w' : World)
      (held : List ObjectRow) (out : Result StoreError Outcome)
      → Any (λ x. x ≡ r) held
      → reindex_row (during s fails anyway) actor indexed r w ≡ (out, w')
      → P w.db held
      → P w'.db held
  unfolding reindex_row
  reindex_row_keeps fails anyway actor indexed r w w' held out among h old =
      let st = during s fails anyway in
      elim (Result-cases (open_value s.aead s.env (sealed_of r) (aad r.collection r.id))) [
        | inr (e, fault) ↦ elim (Bool-cases (is_bad_row e)) [
          | inl bad ↦
              let same : w ≡ w' = ground (arith, fault, bad, h) in
              subst (λ (x : World). P x.db held) same old
          | inr stop ↦
              let same : w ≡ w' = ground (arith, fault, stop, h) in
              subst (λ (x : World). P x.db held) same old
        ]
        | inl (p, opened) ↦ elim (Option-cases (indexed r.collection p)) [
          | inl unread ↦
              let same : w ≡ w' = ground (arith, opened, unread, h) in
              subst (λ (x : World). P x.db held) same old
          | inr (values, known) ↦
              let ran = rewrite_index st actor r.collection r.id values w in
              let at : ran.1 ≡ w' = elim (Result-cases ran.0) [
                | inl (u, did) ↦ ground (arith, opened, known, did, h)
                | inr (e, fault) ↦ ground (arith, opened, known, fault, h)
              ] in
              subst (λ (x : World). P x.db held) at
                (elim (rewrite_index-cases st actor r.collection r.id values w) [
                  | inl same ↦ subst (λ x. P x held) (sym same) old
                  | inr (live, all) ↦
                      subst (λ x. P x held) (sym all)
                        (kept.index fails anyway actor r values w.db held among live old)
                ])
        ]
      ]

  Step-keeps : (a b : Running) → Step s a b → P a.world.db a.held → P b.world.db b.held
  Step-keeps _ _ (puts f y actor c tape items w w' held r h) old =
      put_many_keeps (during s f y) (λ db. P db held) (kept.writes f y held) actor c tape items w w'
        r h old
  Step-keeps _ _ (deletes f y actor c id w w' held r h) old =
      delete_keeps (during s f y) (λ db. P db held) (kept.writes f y held) actor c id w w' r h old
  Step-keeps _ _ (erases f y actor subject w w' held r h) old =
      delete_subject_keeps (during s f y) (λ db. P db held) (kept.writes f y held) actor subject w
        w' r h old
  Step-keeps _ _ (audits f y entries w w' held r h) old =
      audit_many_keeps (during s f y) (λ db. P db held) (kept.writes f y held) entries w w' r h old
  Step-keeps _ _ (rotates_key f y drawn w db held n h) old =
      rotate_index_key_keeps f y drawn w.db db held n h old
  Step-keeps _ _ (rotate_reads f y last w held rows h) old =
      page_in_keeps f y (needs_rotation s) last w.db held rows h old
  Step-keeps _ _ (rotates f y drawn r w db held out size among h) old =
      rotate_row_keeps f y drawn r w.db db held out size among h old
  Step-keeps _ _ (reindex_reads f y collection last w held rows h) old =
      page_in_keeps f y (needs_index s collection) last w.db held rows h old
  Step-keeps _ _ (reindexes f y actor indexed r w w' held out among h) old =
      reindex_row_keeps f y actor indexed r w w' held out among h old
  Step-keeps _ _ (unanswered a b one) old = Step-keeps a b one old

  pub Steps-keeps : (a b : Running) → Steps s a b → P a.world.db a.held → P b.world.db b.held
  Steps-keeps _ _ (done a) old = old
  Steps-keeps _ _ (next a b c one more) old = Steps-keeps b c more (Step-keeps a b one old)
