-- ===== src/Envelope/Rewrap.antt =====
-- Moving a key under the current wrapper keeps what the row opens to.
use mathlib.Core.Path.{subst}
use sealbox.Base.{
  ◌≡◌, ap, sym, ◌∙◌, Bool, true, false, some, ◌==◌, eq_iff, lookup, Result, ok, >>=-eq-ok, arith,
  length, Bool-cases, Option-cases, Result-cases, inl, inr,
}
use sealbox.Envelope.{
  Bytes, Error, Aead, Sealed, Envelope, nonce_bytes, is_key, unwrap, rewrap_in_place, rewrap,
  open_value, open_with_dek,
}
use sealbox.Envelope.Local.{IsHonest}
use sealbox.Envelope.RoundTrip.{unwrap_of}

pub is_key_of_unwrap :
    (e : Envelope) (s : Sealed) (aad dek : Bytes) → unwrap e s aad ≡ ok dek → is_key dek ≡ true
unfolding unwrap
is_key_of_unwrap e s aad dek h = elim (Option-cases (lookup s.key_id e.all)) [
  | inl missing ↦ cc (h, missing)
  | inr (w, found) ↦ elim (Result-cases (w.unwrap s.wrapped_dek aad)) [
    | inl (key, opened) ↦ elim (Bool-cases (is_key key)) [
      | inl right ↦ let same : key ≡ dek = ground (arith, found, opened, right) in rw (← same) right
      | inr wrong ↦ ground (arith, found, opened, wrong)
    ]
    | inr (x, failed) ↦ ground (arith, found, failed)
  ]
]

-- What a successful `Rewrap` returns.
data Rewrapped (e : Envelope) (drawn aad : Bytes) (s s' : Sealed) : Bool → Type 0 where
  kept : s.key_id ≡ e.current.id → s' ≡ s → Rewrapped e drawn aad s s' false
  in_place :
      (r : Bytes → Bytes → Result Error (Bytes × Bool)) (wrapped : Bytes)
      → s.key_id ≡ e.current.id
      → e.current.rewrap ≡ some r
      → r s.wrapped_dek aad ≡ ok (wrapped, true)
      → s' ≡ record s { wrapped_dek = wrapped }
      → Rewrapped e drawn aad s s' true
  moved :
      (dek wrapped : Bytes)
      → unwrap e s aad ≡ ok dek
      → e.current.wrap drawn dek aad ≡ ok wrapped
      → s' ≡ record s { key_id = e.current.id; wrapped_dek = wrapped }
      → Rewrapped e drawn aad s s' true

module _ (e : Envelope) where
  rewrap_in_place-Rewrapped :
      (drawn aad : Bytes) (s s' : Sealed) (changed : Bool)
      → s.key_id ≡ e.current.id
      → rewrap_in_place e s aad ≡ ok (s', changed)
      → Rewrapped e drawn aad s s' changed
  unfolding rewrap_in_place
  rewrap_in_place-Rewrapped drawn aad s s' changed named h = elim (Option-cases e.current.rewrap) [
    | inl fixed ↦
        let no : false ≡ changed = ground (arith, fixed) in
        subst (Rewrapped e drawn aad s s') no (kept named (ground (arith, fixed)))
    | inr (r, able) ↦ elim (Result-cases (r s.wrapped_dek aad)) [
      | inl ((wrapped, true), ran) ↦
          let done : true ≡ changed = ground (arith, able, ran) in
          subst (Rewrapped e drawn aad s s') done
            (in_place r wrapped named able ran (ground (arith, able, ran)))
      | inl ((wrapped, false), ran) ↦
          let no : false ≡ changed = ground (arith, able, ran) in
          subst (Rewrapped e drawn aad s s') no (kept named (ground (arith, able, ran)))
      | inr (x, failed) ↦ cc (h, able, failed)
    ]
  ]

  rewrap-Rewrapped :
      (drawn aad : Bytes) (s s' : Sealed) (changed : Bool)
      → rewrap e drawn s aad ≡ ok (s', changed)
      → Rewrapped e drawn aad s s' changed
  unfolding rewrap
  rewrap-Rewrapped drawn aad s s' changed h = elim (Bool-cases (s.key_id == e.current.id)) [
    | inl same ↦
        rewrap_in_place-Rewrapped drawn aad s s' changed ((eq_iff s.key_id e.current.id).0 same)
          (ground (arith, same))
    | inr other ↦ elim (Result-cases (unwrap e s aad)) [
      | inl (dek, opened) ↦ elim (Result-cases (e.current.wrap drawn dek aad)) [
        | inl (wrapped, made) ↦
            let done : true ≡ changed = ground (arith, other, opened, made) in
            subst (Rewrapped e drawn aad s s') done
              (moved dek wrapped opened made (ground (arith, other, opened, made)))
        | inr (x, failed) ↦ cc (h, other, opened, failed)
      ]
      | inr (x, failed) ↦ cc (h, other, failed)
    ]
  ]

  module _ (honest : IsHonest e.current) (rooted : lookup e.current.id e.all ≡ some e.current) where
    unwrap-Rewrapped :
        {drawn aad dek : Bytes} {s s' : Sealed} {changed : Bool}
        → length drawn ≡ nonce_bytes
        → unwrap e s aad ≡ ok dek
        → Rewrapped e drawn aad s s' changed
        → unwrap e s' aad ≡ ok dek
    unwrap-Rewrapped size opened (kept named same) = cc (opened, same)
    unwrap-Rewrapped {aad} {dek} {s} {s'} size opened (in_place r wrapped named able ran same) =
        let kept = honest.rewrap_keeps r s.wrapped_dek wrapped aad true able ran in
        let loaded : lookup s.key_id e.all ≡ some e.current = cc (named, rooted) in
        let by_current : unwrap e (record s { wrapped_dek = wrapped }) aad ≡ unwrap e s aad =
          unfold unwrap in ground (arith, loaded, kept) in
        cc (same, by_current, opened)
    unwrap-Rewrapped {drawn} {aad} {dek} {s} {s'} size opened
          (moved key wrapped opened' made same) =
        let one : key ≡ dek = cc (opened, opened') in
        let back = honest.unwrap-wrap drawn key aad wrapped size made in
        let loaded : lookup s'.key_id e.all ≡ some e.current = cc (same, rooted) in
        let answer : e.current.unwrap s'.wrapped_dek aad ≡ ok dek = cc (same, back) in
        unwrap_of e s' aad dek e.current loaded answer (is_key_of_unwrap e s aad dek opened)

    unwrap_same :
        (drawn aad : Bytes) (s s' : Sealed) (changed : Bool)
        → length drawn ≡ nonce_bytes
        → Rewrapped e drawn aad s s' changed
        → unwrap e s' aad ≡ unwrap e s aad
    unwrap_same drawn aad s s' _ size (kept named same) = ap (λ x. unwrap e x aad) same
    unwrap_same drawn aad s s' _ size (in_place r wrapped named able ran same) =
        let kept = honest.rewrap_keeps r s.wrapped_dek wrapped aad true able ran in
        let loaded : lookup s.key_id e.all ≡ some e.current = cc (named, rooted) in
        let by_current : unwrap e (record s { wrapped_dek = wrapped }) aad ≡ unwrap e s aad =
          unfold unwrap in ground (arith, loaded, kept) in
        cc (same, by_current)
    unwrap_same drawn aad s s' _ size (moved key wrapped opened made same) =
        unwrap-Rewrapped size opened (moved key wrapped opened made same) ∙ sym opened

    -- A re-wrapped key unwraps to what it unwrapped to.
    pub unwrap-rewrap :
        (drawn aad : Bytes) (s s' : Sealed) (changed : Bool)
        → length drawn ≡ nonce_bytes
        → rewrap e drawn s aad ≡ ok (s', changed)
        → unwrap e s' aad ≡ unwrap e s aad
    unwrap-rewrap drawn aad s s' changed size h =
        unwrap_same drawn aad s s' changed size (rewrap-Rewrapped drawn aad s s' changed h)

    same_ciphertext :
        {drawn aad : Bytes} {s s' : Sealed} {changed : Bool}
        → Rewrapped e drawn aad s s' changed
        → (s'.ciphertext ≡ s.ciphertext) × (s'.key_id ≡ e.current.id)
    same_ciphertext (kept named same) = (cc, cc)
    same_ciphertext (in_place r wrapped named able ran same) = (cc, cc)
    same_ciphertext (moved key wrapped opened made same) = (cc, cc)

    -- What a row opens to before a successful `Rewrap` it opens to afterwards: the ciphertext is
    -- untouched and the row is under the current wrapper, whether it came from another wrapper or
    -- was moved to a new version in place. The current wrapper is honest and loaded under its id.
    pub open_value-rewrap :
        (aead : Aead) (drawn aad plaintext : Bytes) (s s' : Sealed) (changed : Bool)
        → length drawn ≡ nonce_bytes
        → open_value aead e s aad ≡ ok plaintext
        → rewrap e drawn s aad ≡ ok (s', changed)
        → (open_value aead e s' aad ≡ ok plaintext)
          × (s'.ciphertext ≡ s.ciphertext)
          × (s'.key_id ≡ e.current.id)
    open_value-rewrap aead drawn aad plaintext s s' changed size opened done =
        let shape = rewrap-Rewrapped drawn aad s s' changed done in
        let (body, named) = same_ciphertext shape in
        let (dek, key, read) =
          >>=-eq-ok (unwrap e s aad) (λ dek. open_with_dek aead dek s.ciphertext aad)
            {b = plaintext} (unfold open_value in opened) in
        let key' = unwrap-Rewrapped size key shape in
        (unfold open_value in rw (key', body) read, body, named)
