-- ===== src/Examples/Fixtures.antt =====
-- A cipher, a wrapping key and an empty store for the runs. The cipher writes its associated data
-- before the plaintext: it has the laws that the model asks of the real one, and hides nothing.
use sealbox.Base.{
  ℕ, zero, suc, ◌+◌, ◌≡◌, refl, Option, none, some, [], ◌∷◌, ◌++◌, Text, Bool, true, false, ◌&&◌,
  eqb, eqb_iff, leb, ltb, Bool-cases, inl, inr, if◌then◌else◌, length, arith,
}
use sealbox.FieldType.{is_space}
use sealbox.Envelope.{Bytes, Aead, Draw, Wrapper, Envelope, new, local_wrapper}
use sealbox.Envelope.RoundTrip.{IsDraw}
use sealbox.Store.Tables.{World, Store, Statement}
use sealbox.Store.Write.{PutDraw}
use sealbox.Store.Pages.Order.{IsOrder}

abbrev pub strip : Bytes → Bytes → Option Bytes
strip [] s = some s
strip (b ∷ pre) [] = none
strip (b ∷ pre) (c ∷ s) = let rest = strip pre s in if eqb b c then rest else none

pub strip-append : (pre p : Bytes) → strip pre (pre ++ p) ≡ some p
strip-append [] p = refl
strip-append (b ∷ pre) p = ground (arith, strip-append pre p)

pub append-strip : (pre s p : Bytes) → strip pre s ≡ some p → s ≡ pre ++ p
append-strip [] s p h = ground arith
append-strip (b ∷ pre) [] p h = cc
append-strip (b ∷ pre) (c ∷ s) p h = ground (arith, append-strip pre s p)

same_prefix : (a b p q : Bytes) → length a ≡ length b → a ++ p ≡ b ++ q → a ≡ b
same_prefix [] [] p q l h = refl
same_prefix [] (c ∷ b) p q l h = ground arith
same_prefix (c ∷ a) [] p q l h = ground arith
same_prefix (c ∷ a) (d ∷ b) p q l h =
    let heads : c ≡ d = cc in
    let tails : a ++ p ≡ b ++ q = cc in
    let tail = same_prefix a b p q (ground arith) tails in cc (heads, tail)

abbrev pub cipher : Aead
cipher = record {
  seal = λ key nonce plaintext aad. (length aad ∷ aad) ++ plaintext;
  open_sealed = λ key nonce sealed aad. strip (length aad ∷ aad) sealed;
  open-seal = λ key nonce plaintext aad. strip-append (length aad ∷ aad) plaintext;
  open_only =
      λ key nonce sealed aad plaintext h. append-strip (length aad ∷ aad) sealed plaintext h;
}

pub cipher-binds :
    (key nonce p q a b : Bytes) → cipher.seal key nonce p a ≡ cipher.seal key nonce q b → a ≡ b
cipher-binds key nonce p q a b h =
    let sizes : length a ≡ length b = cc in
    let rest : a ++ p ≡ b ++ q = cc in same_prefix a b p q sizes rest

abbrev pub repeat : ℕ → ℕ → Bytes
repeat zero b = []
repeat (suc n) b = b ∷ repeat n b

abbrev pub master_key : Bytes
master_key = repeat 32 7

abbrev pub old_key : Bytes
old_key = repeat 32 9

abbrev pub fingerprint : Bytes → Text
fingerprint [] = []
fingerprint (b ∷ key) = b ∷ []

abbrev pub wrapper : Wrapper
wrapper = local_wrapper cipher fingerprint master_key

abbrev pub old_wrapper : Wrapper
old_wrapper = local_wrapper cipher fingerprint old_key

abbrev pub envelope : Envelope
envelope = new wrapper (old_wrapper ∷ [])

abbrev pub old_envelope : Envelope
old_envelope = new old_wrapper []

abbrev pub draw : Draw
draw = record { dek = repeat 32 1; wrap_nonce = repeat 24 2; nonce = repeat 24 3 }

pub draw-IsDraw : IsDraw draw
draw-IsDraw = record { dek = refl; wrap_nonce = refl; nonce = refl }

abbrev pub tape : ℕ → PutDraw
tape n = record { id_bytes = n ∷ []; draw = draw }

pub tape-IsDraw : (n : ℕ) → IsDraw (tape n).draw
tape-IsDraw n = draw-IsDraw

-- lower case on ASCII
abbrev pub to_lower : ℕ → ℕ
to_lower c = if leb 65 c && leb c 90 then c + 32 else c

pub lower_idem : (c : ℕ) → to_lower (to_lower c) ≡ to_lower c
lower_idem c = ground arith

pub lower_space : (c : ℕ) → is_space (to_lower c) ≡ is_space c
unfolding is_space
lower_space c = ground arith

abbrev pub never : Statement → Bool
never st = false

-- the order of the codes, from the left
unfoldable pub lexical : Text → Text → Bool
lexical [] [] = false
lexical [] (b ∷ t) = true
lexical (a ∷ s) [] = false
lexical (a ∷ s) (b ∷ t) = let rest = lexical s t in if eqb a b then rest else ltb a b

lexical_irrefl : (a : Text) → lexical a a ≡ false
unfolding lexical
lexical_irrefl [] = refl
lexical_irrefl (a ∷ s) = ground (arith, lexical_irrefl s)

lexical_trans : (a b d : Text) → lexical a b ≡ true → lexical b d ≡ true → lexical a d ≡ true
unfolding lexical
lexical_trans [] b [] h k = ground arith
lexical_trans [] b (z ∷ u) h k = refl
lexical_trans (x ∷ s) [] d h k = ground arith
lexical_trans (x ∷ s) (y ∷ t) [] h k = ground arith
lexical_trans (x ∷ s) (y ∷ t) (z ∷ u) h k = ground (arith, lexical_trans s t u)

lexical_total : (a b : Text) → lexical a b ≡ false → lexical b a ≡ false → a ≡ b
unfolding lexical
lexical_total [] [] h k = refl
lexical_total [] (y ∷ t) h k = ground arith
lexical_total (x ∷ s) [] h k = ground arith
lexical_total (x ∷ s) (y ∷ t) h k = elim (Bool-cases (eqb x y)) [
  | inl same ↦
      let heads : x ≡ y = (eqb_iff x y).0 same in
      let tails = lexical_total s t (ground (arith, heads)) (ground (arith, heads)) in
      cc (heads, tails)
  | inr other ↦ ground (arith, other)
]

lexical_empty : (a : Text) → lexical a [] ≡ false
unfolding lexical
lexical_empty [] = refl
lexical_empty (x ∷ s) = refl

pub lexical-IsOrder : IsOrder (record { less = lexical })
lexical-IsOrder = record {
  irreflexive = lexical_irrefl;
  transitive = lexical_trans;
  total = lexical_total;
  empty_first = lexical_empty;
}

abbrev pub store : Store
store = record {
  aead = cipher;
  hmac = λ key message. key ++ message;
  collation = record { less = lexical };
  fails = never;
  env = envelope;
  index_key = repeat 32 5;
  ships = true;
  commits_anyway = false;
}

abbrev pub empty_world : World
empty_world = record {
  db = record { objects = []; blind_index = []; keys = []; audit_log = [] };
  shipped = [];
}
