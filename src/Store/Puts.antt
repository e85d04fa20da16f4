-- ===== src/Store/Puts.antt =====
-- `PutMany`: what it makes of the tables and of the abstract store.
use mathlib.Core.Path.{subst}
use sealbox.Base.{
  ℕ, suc, ◌≡◌, refl, ap, ◌∙◌, sym, none, some, List, [], ◌∷◌, ◌++◌, map, Text, ◌==◌, eq_iff, lookup,
  ok, true, false, ◌&&◌, any, if◌then◌else◌, arith, Bool-cases, Result-cases, inl, inr,
  append_assoc, append-nil, All, All-mono, eq_refl, ||-false,
}
use sealbox.Envelope.{open_value}
use sealbox.Envelope.Local.{IsHonest}
use sealbox.Envelope.RoundTrip.{IsDraw, open_value-seal}
use sealbox.Store.Tables.{AuditEntry, audit_row, Db, Item, Store, aad}
use sealbox.Store.Tx.{has_id}
use sealbox.Store.Write.{PutDraw, create_entry, put_one, put_loop}
use sealbox.Store.Read.{sealed_of, one_of}
use sealbox.Store.Shred.{is_target}
use sealbox.Store.Effect.{Put, put_one_effect, object_row}
use sealbox.Store.View.{
  find, view, view-find, HasDistinctIds, find-append_one, find-append_other, any-append_one,
  find-none_of_any, HasDistinctIds-append_one,
}

module _ (s : Store) where
  -- The store can seal: its current wrapper is honest and loaded.
  pub record CanSeal : Type 0 where
    pub honest : IsHonest s.env.current
    pub loaded : lookup s.env.current.id s.env.all ≡ some s.env.current

  -- Storing one item adds its plaintext to the abstract store and changes nothing else.
  Put-view :
      (actor c : Text) (d : PutDraw) (it : Item) (db last : Db) (i : Text)
      → CanSeal
      → IsDraw d.draw
      → Put s actor c d it db last i
      → (collection id : Text)
      → view s last collection id
        ≡ (if i == id && c == collection then some (ok it.plaintext) else view s db collection id)
  Put-view actor c d it db last i can sizes put collection id =
      let row = object_row c i put.sealed it.subject in
      let objects : last.objects ≡ db.objects ++ row ∷ [] = ap (λ (x : Db). x.objects) put.after in
      let back =
        open_value-seal s.aead s.env s.env d.draw it.plaintext (aad c i) put.sealed can.honest sizes
          can.loaded put.made in
      elim (Bool-cases (is_target collection id row)) [
        | inl hit ↦
            let named : i ≡ id = ground (arith, eq_iff i id) in
            let kept : c ≡ collection = ground (arith, eq_iff c collection) in
            let new : find (is_target collection id) db.objects ≡ none =
              find-none_of_any (is_target collection id) (has_id i) db.objects
                (λ r h. ground (arith, eq_iff r.id id, eq_iff r.id i)) put.fresh in
            let found : find (is_target collection id) last.objects ≡ some row =
              rw objects
                (ground (arith, find-append_one (is_target collection id) db.objects row new)) in
            let opened : open_value s.aead s.env (sealed_of row) (aad collection id)
                ≡ ok it.plaintext =
              rw (← named, ← kept) back in
            ground (arith, view-find s last collection id (some row) found, opened)
        | inr miss ↦
            let same : find (is_target collection id) last.objects
                ≡ find (is_target collection id) db.objects =
              rw objects (find-append_other (is_target collection id) db.objects row miss) in
            let kept =
              view-find s last collection id (find (is_target collection id) db.objects) same in
            let before =
              view-find s db collection id (find (is_target collection id) db.objects) refl in
            let unnamed : (i == id && c == collection) ≡ false = ground arith in
            rw unnamed (kept ∙ sym before)
      ]

  Put-HasDistinctIds :
      (actor c : Text) (d : PutDraw) (it : Item) (db last : Db) (i : Text)
      → Put s actor c d it db last i
      → HasDistinctIds db.objects
      → HasDistinctIds last.objects
  Put-HasDistinctIds actor c d it db last i put distinct =
      let row = object_row c i put.sealed it.subject in
      let objects : last.objects ≡ db.objects ++ row ∷ [] = ap (λ (x : Db). x.objects) put.after in
      subst HasDistinctIds (sym objects)
        (HasDistinctIds-append_one db.objects row distinct put.fresh)

  Put-others :
      (actor c : Text) (d : PutDraw) (it : Item) (db last : Db) (i : Text)
      → CanSeal
      → IsDraw d.draw
      → Put s actor c d it db last i
      → (collection id : Text) → (i == id) ≡ false
      → view s last collection id ≡ view s db collection id
  Put-others actor c d it db last i can sizes put collection id apart =
      let seen = Put-view actor c d it db last i can sizes put collection id in
      ground (arith, seen, apart)

  Put-kept :
      (actor c : Text) (d : PutDraw) (it : Item) (db last : Db) (i : Text)
      → Put s actor c d it db last i
      → (id : Text) → any (has_id id) db.objects ≡ true
      → any (has_id id) last.objects ≡ true
  Put-kept actor c d it db last i put id there =
      let row = object_row c i put.sealed it.subject in
      let objects : last.objects ≡ db.objects ++ row ∷ [] = ap (λ (x : Db). x.objects) put.after in
      rw objects (ground (arith, any-append_one (has_id id) db.objects row, there))

  Put-there :
      (actor c : Text) (d : PutDraw) (it : Item) (db last : Db) (i : Text)
      → Put s actor c d it db last i
      → any (has_id i) last.objects ≡ true
  Put-there actor c d it db last i put =
      let row = object_row c i put.sealed it.subject in
      let objects : last.objects ≡ db.objects ++ row ∷ [] = ap (λ (x : Db). x.objects) put.after in
      rw objects (ground (arith, any-append_one (has_id i) db.objects row, eq_iff i i))

  -- Each id holds its item's plaintext, in order.
  abbrev pub Holds : Db → Text → List Text → List Item → Type 0
  Holds db collection [] [] = Unit
  Holds db collection (id ∷ ids) (it ∷ items) =
      (view s db collection id ≡ some (ok it.plaintext)) × Holds db collection ids items
  Holds db collection _ _ = ⊥

  -- What the loop of `PutMany` did from one state of the tables to another.
  pub record Stored (actor collection : Text) (items : List Item) (ids : List Text)
      (entries : List AuditEntry) (db last : Db) : Type 0 where
    pub holds : Holds last collection ids items
    pub fresh : All (λ id. any (has_id id) db.objects ≡ false) ids
    pub kept : (id : Text) → any (has_id id) db.objects ≡ true → any (has_id id) last.objects ≡ true
    pub others : (c id : Text) → one_of ids id ≡ false → view s last c id ≡ view s db c id
    pub distinct : HasDistinctIds db.objects → HasDistinctIds last.objects
    pub logged : last.audit_log ≡ db.audit_log ++ map audit_row entries
    pub named : entries ≡ map (create_entry actor collection) ids

  one_of_fresh :
      (db : Db) (ids : List Text) (id : Text)
      → All (λ j. any (has_id j) db.objects ≡ false) ids
      → any (has_id id) db.objects ≡ true
      → one_of ids id ≡ false
  one_of_fresh db [] id fresh there = refl
  one_of_fresh db (j ∷ ids) id (gone, fresh) there = elim (Bool-cases (j == id)) [
    | inl same ↦
        let gone' : any (has_id id) db.objects ≡ false = rw (← (eq_iff j id).0 same) gone in
        cc (gone', there)
    | inr other ↦ ground (arith, other, one_of_fresh db ids id fresh there)
  ]

  fresh_before :
      (db mid : Db) (ids : List Text)
      → ((id : Text) → any (has_id id) db.objects ≡ true → any (has_id id) mid.objects ≡ true)
      → All (λ j. any (has_id j) mid.objects ≡ false) ids
      → All (λ j. any (has_id j) db.objects ≡ false) ids
  fresh_before db mid ids kept fresh =
      All-mono (λ j. any (has_id j) mid.objects ≡ false) (λ j. any (has_id j) db.objects ≡ false)
        (λ j gone. ground (arith, kept j, gone)) ids fresh

  module _ (can : CanSeal) (tape : ℕ → PutDraw) (sizes : (n : ℕ) → IsDraw (tape n).draw) where
    Stored-nil : (actor collection : Text) (db : Db) → Stored actor collection [] [] [] db db
    Stored-nil actor collection db = record {
      holds = tt;
      fresh = tt;
      kept = λ id there. there;
      others = λ c id gone. refl;
      distinct = λ d. d;
      logged = sym (append-nil db.audit_log);
      named = refl;
    }

    Stored-cons :
        (actor collection : Text) (n : ℕ) (it : Item) (items : List Item) (id : Text)
        (ids : List Text) (entries : List AuditEntry) (db mid last : Db)
        → Put s actor collection (tape n) it db mid id
        → Stored actor collection items ids entries mid last
        → Stored actor collection
            (it ∷ items)
            (id ∷ ids)
            (create_entry actor collection id ∷ entries)
            db
            last
    Stored-cons actor collection n it items id ids entries db mid last put rest =
        let there = Put-there actor collection (tape n) it db mid id put in
        let kept = Put-kept actor collection (tape n) it db mid id put in
        let seen =
          Put-view actor collection (tape n) it db mid id can (sizes n) put collection id in
        let later = rest.others collection id (one_of_fresh mid ids id rest.fresh there) in
        record {
          holds = (ground (arith, seen, later, eq_refl id, eq_refl collection), rest.holds);
          fresh = (put.fresh, fresh_before db mid ids kept rest.fresh);
          kept = λ j h. rest.kept j (kept j h);
          others = λ c j gone.
              let (apart, absent) = ||-false (id == j) (one_of ids j) gone in
              rest.others c j absent
              ∙ Put-others actor collection (tape n) it db mid id can (sizes n) put c j apart;
          distinct =
              λ d. rest.distinct (Put-HasDistinctIds actor collection (tape n) it db mid id put d);
          logged =
              let mid_log : mid.audit_log
                  ≡ db.audit_log ++ audit_row (create_entry actor collection id) ∷ [] =
                ap (λ (x : Db). x.audit_log) put.after in
              let joined =
                append_assoc db.audit_log (audit_row (create_entry actor collection id) ∷ [])
                  (map audit_row entries) in
              ground (arith, rest.logged, mid_log, joined);
          named = ap (λ (es : List AuditEntry). create_entry actor collection id ∷ es) rest.named;
        }

    pub put_loop-Stored :
        (actor collection : Text) (n : ℕ) (items : List Item) (ids : List Text)
        (entries : List AuditEntry) (db last : Db)
        → put_loop s actor collection tape n items db ≡ ok ((ids, entries), last)
        → Stored actor collection items ids entries db last
    unfolding put_loop
    put_loop-Stored actor collection n [] ids entries db last h =
        let no_ids : [] ≡ ids = cc (h) in
        let no_entries : [] ≡ entries = cc (h) in
        let same : db ≡ last = cc (h) in
        subst (λ is. Stored actor collection [] is entries db last) no_ids
          (subst (λ es. Stored actor collection [] [] es db last) no_entries
            (subst (λ d. Stored actor collection [] [] [] db d) same
              (Stored-nil actor collection db)))
    put_loop-Stored actor collection n (it ∷ items) ids entries db last h =
        elim (Result-cases (put_one s actor collection (tape n) it db)) [
          | inl ((id, mid), first) ↦
              elim (Result-cases (put_loop s actor collection tape (suc n) items mid)) [
                | inl (((ids', entries'), last'), later) ↦
                    let all_ids : id ∷ ids' ≡ ids = ground (arith, first, later) in
                    let all_entries : create_entry actor collection id ∷ entries' ≡ entries =
                      ground (arith, first, later) in
                    let same : last' ≡ last = ground (arith, first, later) in
                    let one = put_one_effect s actor collection (tape n) it db mid id first in
                    let more =
                      put_loop-Stored actor collection (suc n) items ids' entries' mid last'
                        later in
                    let whole =
                      Stored-cons actor collection n it items id ids' entries' db mid last' one
                        more in
                    subst (λ is. Stored actor collection (it ∷ items) is entries db last) all_ids
                      (subst (λ es. Stored actor collection (it ∷ items) (id ∷ ids') es db last)
                        all_entries
                        (subst
                          (λ d.
                            Stored actor collection (it ∷ items) (id ∷ ids')
                              (create_entry actor collection id ∷ entries') db d)
                          same whole))
                | inr (e, failed) ↦ ground (arith, first, failed)
              ]
          | inr (e, failed) ↦ ground (arith, failed)
        ]
