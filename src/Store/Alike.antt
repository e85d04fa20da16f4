-- ===== src/Store/Alike.antt =====
-- A row now and the row as it was read: what it opens to is the same, unless its key is gone.
use mathlib.Core.Path.{subst}
use sealbox.Base.{◌≡◌, refl, ◌∙◌, sym, true, false, arith, inl, inr, ◌⊎◌, []}
use sealbox.Envelope.{Bytes, Sealed, Envelope, unwrap, open_value}
use sealbox.Envelope.Rewrap.{unwrap-rewrap}
use sealbox.Store.Tables.{ObjectRow, Store, aad}
use sealbox.Store.Read.{sealed_of}
use sealbox.Store.Puts.{CanSeal}
use sealbox.Store.Keeps.{row_key}
use sealbox.Store.Held.{IsKeptRelation}

unwrap_key :
    (e : Envelope) (a b : Sealed) (aad : Bytes)
    → a.key_id ≡ b.key_id
    → a.wrapped_dek ≡ b.wrapped_dek
    → unwrap e a aad ≡ unwrap e b aad
unfolding unwrap
unwrap_key e a b aad same_id same_key = rw same_id (rw same_key refl)

module _ (s : Store) where
  -- The collection is the same, a deleted row stays deleted, and a live one has the same ciphertext
  -- and a key that unwraps to the same.
  pub record IsAlike (x r : ObjectRow) : Type 0 where
    pub placed : x.collection ≡ r.collection
    pub final : r.deleted ≡ true → x.deleted ≡ true
    pub opens :
        (x.deleted ≡ true)
        ⊎ ((x.ciphertext ≡ r.ciphertext)
            × (unwrap s.env (row_key x) (aad r.collection r.id)
                ≡ unwrap s.env (row_key r) (aad r.collection r.id)))

  -- A live row that is alike opens to the same.
  pub IsAlike-open_value :
      (x r : ObjectRow)
      → IsAlike x r
      → x.deleted ≡ false
      → open_value s.aead s.env (sealed_of x) (aad r.collection r.id)
        ≡ open_value s.aead s.env (sealed_of r) (aad r.collection r.id)
  unfolding open_value
  IsAlike-open_value x r like live = elim like.opens [
    | inl gone ↦ cc (gone, live)
    | inr (text, key) ↦
        let place = aad r.collection r.id in
        let one =
          unwrap_key s.env (sealed_of x) (row_key x) place refl refl
          ∙ key
          ∙ unwrap_key s.env (row_key r) (sealed_of r) place refl refl in
        rw one (rw text refl)
  ]

  -- It is kept by erasure, and by a re-wrapped key when the current wrapper is honest and loaded.
  pub IsAlike-IsKept : CanSeal s → IsKeptRelation s IsAlike
  IsAlike-IsKept can = record {
    same = λ x. record { placed = refl; final = λ h. h; opens = inr (refl, refl) };
    shred = λ x r like. record { placed = like.placed; final = λ h. refl; opens = inl refl };
    rekey = λ drawn q re x r size did hit named of_q of_r.
        let live : x.deleted ≡ false = ground arith in
        record {
          placed = of_r.placed;
          final = of_r.final;
          opens = elim of_q.opens [
            | inl gone ↦ inl gone
            | inr (_, from) ↦ elim of_r.opens [
              | inl gone ↦ inl gone
              | inr (text, key) ↦
                  let there : q.collection ≡ r.collection = sym of_q.placed ∙ of_r.placed in
                  let place : aad q.collection q.id ≡ aad r.collection r.id = cc (there, named) in
                  let kept =
                    unwrap-rewrap s.env can.honest can.loaded drawn (aad q.collection q.id)
                      (row_key q) re true size did in
                  let new =
                    unwrap_key s.env
                      (record { key_id = re.key_id; wrapped_dek = re.wrapped_dek; ciphertext = [] })
                      re (aad r.collection r.id) refl refl in
                  let back : unwrap s.env re (aad r.collection r.id)
                      ≡ unwrap s.env (row_key x) (aad r.collection r.id) =
                    subst (λ (a : Bytes). unwrap s.env re a ≡ unwrap s.env (row_key x) a) place
                      (kept ∙ sym from) in
                  inr (text, new ∙ back ∙ key)
            ]
          ];
        };
  }
