-- ===== src/Api/Loop.antt =====
-- The loop of `revealBatch`: what it shows, what it reports missing and what it will log.
use mathlib.Core.Path.{subst}
use sealbox.Base.{
  ◌≡◌, refl, ap, true, false, ◌||◌, none, some, List, [], ◌∷◌, map, Text, ◌==◌, eq_iff, eq_refl,
  Dict, lookup, ok, arith, Bool-cases, Option-cases, Result-cases, inl, inr, All, All-mono,
  ||-false,
}
use sealbox.Envelope.{Bytes}
use sealbox.Store.Tables.{AuditEntry}
use sealbox.Store.Read.{one_of}
use sealbox.Api.Action.{Server, Rendered}
use sealbox.Api.Objects.{render}
use sealbox.Api.Handlers.{is_full, reveal_action, entry_of, Revealed, reveal_loop}

-- No text stands twice.
abbrev pub IsOnce : List Text → Type 0
IsOnce [] = Unit
IsOnce (x ∷ xs) = (one_of xs x ≡ false) × IsOnce xs

abbrev pub keys : Dict Rendered → List Text
keys objects = map (λ (e : Text × Rendered). e.0) objects

one_of-absent :
    (x : Text) (seen xs : List Text)
    → All (λ y. one_of (x ∷ seen) y ≡ false) xs
    → one_of xs x ≡ false
one_of-absent x seen [] h = refl
one_of-absent x seen (y ∷ xs) (new, h) =
    ground (arith, new, eq_iff x y, eq_iff y x, one_of-absent x seen xs h)

more_asked :
    (x : Text) (ids xs : List Text)
    → All (λ id. one_of ids id ≡ true) xs
    → All (λ id. one_of (x ∷ ids) id ≡ true) xs
more_asked x ids =
    All-mono (λ id. one_of ids id ≡ true) (λ id. one_of (x ∷ ids) id ≡ true)
      (λ id h. ground (arith, h))

module _ {W L : Type 0} (srv : Server W L) (collection reveal : Text) (held : Dict Bytes) where
  -- An object that was shown is the rendering of what was held for its id, which was not seen before.
  abbrev pub IsShown : List Text → Text × Rendered → Type 0
  IsShown seen (id, shown) =
      (p : Bytes) × (lookup id held ≡ some p)
      × (render srv collection p (is_full reveal) ≡ ok (some shown))
      × (one_of seen id ≡ false)

  abbrev pub IsMissing : List Text → Text → Type 0
  IsMissing seen id = (lookup id held ≡ none) × (one_of seen id ≡ false)

  pub record Told (seen ids : List Text) (out : Revealed) : Type 0 where
    pub logged :
        out.entries
        ≡ map (λ id. entry_of (reveal_action reveal) collection id []) (keys out.objects)
    pub shown : All (IsShown seen) out.objects
    pub absent : All (IsMissing seen) out.missing
    pub among : All (λ id. one_of ids id ≡ true) out.missing
    pub covered :
        (id : Text)
        → one_of ids id ≡ true
        → one_of seen id ≡ false
        → (one_of (keys out.objects) id || one_of out.missing id) ≡ true
    pub once : IsOnce (keys out.objects)
    pub missing_once : IsOnce out.missing

  later_shown :
      (x : Text) (seen : List Text) (objects : Dict Rendered)
      → All (IsShown (x ∷ seen)) objects
      → All (IsShown seen) objects
  later_shown x seen =
      All-mono (IsShown (x ∷ seen)) (IsShown seen) (λ e (p, there, drawn, new).
        (p, there, drawn, (||-false (x == e.0) (one_of seen e.0) new).1))

  later-IsMissing :
      (x : Text) (seen missing : List Text)
      → All (IsMissing (x ∷ seen)) missing
      → All (IsMissing seen) missing
  later-IsMissing x seen =
      All-mono (IsMissing (x ∷ seen)) (IsMissing seen)
        (λ id (gone, new). (gone, (||-false (x == id) (one_of seen id) new).1))

  shown_new :
      (seen : List Text) (objects : Dict Rendered)
      → All (IsShown seen) objects
      → All (λ y. one_of seen y ≡ false) (keys objects)
  shown_new seen [] h = tt
  shown_new seen (e ∷ objects) ((p, there, drawn, new), h) = (new, shown_new seen objects h)

  Told-shown :
      (seen ids : List Text) (id : Text) (p : Bytes) (shown : Rendered) (out : Revealed)
      → one_of seen id ≡ false
      → lookup id held ≡ some p
      → render srv collection p (is_full reveal) ≡ ok (some shown)
      → Told (id ∷ seen) ids out
      → Told seen (id ∷ ids) (record {
        objects = (id, shown) ∷ out.objects;
        missing = out.missing;
        entries = entry_of (reveal_action reveal) collection id [] ∷ out.entries;
      })
  Told-shown seen ids id p shown out new there drawn rest = record {
    logged =
        ap (λ (es : List AuditEntry). entry_of (reveal_action reveal) collection id [] ∷ es)
          rest.logged;
    shown = ((p, there, drawn, new), later_shown id seen out.objects rest.shown);
    absent = later-IsMissing id seen out.missing rest.absent;
    among = more_asked id ids out.missing rest.among;
    covered = λ x asked unseen. ground (arith, rest.covered x);
    once = (
      one_of-absent id seen (keys out.objects) (shown_new (id ∷ seen) out.objects rest.shown),
      rest.once,
    );
    missing_once = rest.missing_once;
  }

  Told-missing :
      (seen ids : List Text) (id : Text) (out : Revealed)
      → one_of seen id ≡ false
      → lookup id held ≡ none
      → Told (id ∷ seen) ids out
      → Told seen (id ∷ ids) (record out { missing = id ∷ out.missing })
  Told-missing seen ids id out new gone rest = record {
    logged = rest.logged;
    shown = later_shown id seen out.objects rest.shown;
    absent = ((gone, new), later-IsMissing id seen out.missing rest.absent);
    among = (ground (arith, eq_refl id), more_asked id ids out.missing rest.among);
    covered = λ x asked unseen. ground (arith, rest.covered x);
    once = rest.once;
    missing_once = (
      one_of-absent id seen out.missing (
          All-mono (IsMissing (id ∷ seen)) (λ y. one_of (id ∷ seen) y ≡ false)
            (λ y (_, fresh). fresh) out.missing rest.absent),
      rest.missing_once,
    );
  }

  Told-again :
      (seen ids : List Text) (id : Text) (out : Revealed)
      → one_of seen id ≡ true
      → Told seen ids out
      → Told seen (id ∷ ids) out
  Told-again seen ids id out old rest = record {
    logged = rest.logged;
    shown = rest.shown;
    absent = rest.absent;
    among = more_asked id ids out.missing rest.among;
    covered = λ x asked unseen. elim (Bool-cases (id == x)) [
      | inl same ↦
          let clash : one_of seen id ≡ false = rw ((eq_iff id x).0 same) unseen in cc (clash, old)
      | inr apart ↦ rest.covered x (ground (arith, asked, apart)) unseen
    ];
    once = rest.once;
    missing_once = rest.missing_once;
  }

  pub reveal_loop-Told :
      (seen ids : List Text) (out : Revealed)
      → reveal_loop srv collection reveal held seen ids ≡ ok out
      → Told seen ids out
  unfolding reveal_loop
  reveal_loop-Told seen [] out h =
      let same : record { objects = []; missing = []; entries = [] } ≡ out = cc (h) in
      subst (Told seen []) same (record {
        logged = refl;
        shown = tt;
        absent = tt;
        among = tt;
        covered = λ id asked unseen. cc (asked);
        once = tt;
        missing_once = tt;
      })
  reveal_loop-Told seen (id ∷ ids) out h = elim (Bool-cases (one_of seen id)) [
    | inl old ↦ Told-again seen ids id out old (reveal_loop-Told seen ids out (ground (arith, old)))
    | inr new ↦ elim (Option-cases (lookup id held)) [
      | inl gone ↦ elim (Result-cases (reveal_loop srv collection reveal held (id ∷ seen) ids)) [
        | inl (rest, ran) ↦
            let same : record rest { missing = id ∷ rest.missing } ≡ out =
              ground (arith, new, gone, ran) in
            subst (Told seen (id ∷ ids)) same
              (Told-missing seen ids id rest new gone (reveal_loop-Told (id ∷ seen) ids rest ran))
        | inr (e, failed) ↦ ground (arith, new, gone, failed)
      ]
      | inr (p, there) ↦ elim (Result-cases (render srv collection p (is_full reveal))) [
        | inl (none, drawn) ↦ ground (arith, new, there, drawn)
        | inl (some shown, drawn) ↦
            elim (Result-cases (reveal_loop srv collection reveal held (id ∷ seen) ids)) [
              | inl (rest, ran) ↦
                  let same : record {
                    objects = (id, shown) ∷ rest.objects;
                    missing = rest.missing;
                    entries = entry_of (reveal_action reveal) collection id [] ∷ rest.entries;
                  }
                      ≡ out =
                    ground (arith, new, there, drawn, ran) in
                  subst (Told seen (id ∷ ids)) same (
                    Told-shown seen ids id p shown rest new there drawn
                      (reveal_loop-Told (id ∷ seen) ids rest ran))
              | inr (e, failed) ↦ ground (arith, new, there, drawn, failed)
            ]
        | inr (e, broke) ↦ ground (arith, new, there, broke)
      ]
    ]
  ]
