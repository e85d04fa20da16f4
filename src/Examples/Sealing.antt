-- ===== src/Examples/Sealing.antt =====
-- A value sealed under an old key, opened, moved and re-wrapped under a new one.
use sealbox.Base.{
  ℕ, ◌≡◌, ◌≢◌, refl, Text, codes, List, [], ◌∷◌, ◌++◌, Result, ok, err, Bool, true, false, length,
  Option, some, none, arith, lookup, All, All-lookup, map,
}
use sealbox.Envelope.{
  Bytes, Error, open_failed, Draw, Wrapper, Sealed, Envelope, new, seal, seal_blob, open_value,
  open_many, new_local, rewrap,
}
use sealbox.Envelope.Local.{IsHonest, new_local-IsHonest}
use sealbox.Envelope.RoundTrip.{new-lookup, open_value-seal, open_value_moved, open_value_shredded}
use sealbox.Envelope.Rewrap.{open_value-rewrap}
use sealbox.Envelope.Batch.{open_many-open_value}
use sealbox.Examples.Fixtures.{
  cipher, cipher-binds, master_key, old_key, fingerprint, wrapper, old_wrapper, envelope,
  old_envelope, draw, draw-IsDraw,
}

abbrev row : Bytes
row = codes "r1"

abbrev other_row : Bytes
other_row = codes "r2"

abbrev message : Bytes
message = codes "hi"

abbrev sealed_under : Bytes → Sealed
sealed_under key = record {
  key_id = fingerprint key;
  wrapped_dek = seal_blob cipher key draw.wrap_nonce draw.dek row;
  ciphertext = seal_blob cipher draw.dek draw.nonce message row;
}

pub wrapper-IsHonest : IsHonest wrapper
unfolding new_local
wrapper-IsHonest = new_local-IsHonest cipher fingerprint master_key wrapper refl

pub old_wrapper-IsHonest : IsHonest old_wrapper
unfolding new_local
old_wrapper-IsHonest = new_local-IsHonest cipher fingerprint old_key old_wrapper refl

made : seal cipher old_envelope draw message row ≡ ok (sealed_under old_key)
unfolding seal new
made = refl

pub current_loaded : lookup wrapper.id envelope.all ≡ some wrapper
current_loaded = new-lookup wrapper (old_wrapper ∷ [])

old_loaded : lookup old_wrapper.id envelope.all ≡ some old_wrapper
unfolding lookup new sealbox.Base.◌==◌ sealbox.Base.insert
old_loaded = refl

rows_apart : row ≢ other_row
rows_apart e = ground arith

all-IsHonest : All (λ (e : Text × Wrapper). IsHonest e.1) envelope.all
unfolding new lookup sealbox.Base.◌==◌ sealbox.Base.insert
all-IsHonest = (wrapper-IsHonest, (old_wrapper-IsHonest, tt))

pub loaded-IsHonest : (k : Text) (w : Wrapper) → lookup k envelope.all ≡ some w → IsHonest w
loaded-IsHonest k w found = All-lookup IsHonest envelope.all k w all-IsHonest found

open_value-seal_example : open_value cipher envelope (sealed_under old_key) row ≡ ok message
unfolding new
open_value-seal_example =
    open_value-seal cipher old_envelope envelope draw message row (sealed_under old_key)
      old_wrapper-IsHonest draw-IsDraw old_loaded made

open_value_moved_example :
    open_value cipher envelope (sealed_under master_key) other_row ≡ err open_failed
unfolding seal new
open_value_moved_example =
    open_value_moved cipher fingerprint master_key (old_wrapper ∷ []) draw message row other_row
      (sealed_under master_key) cipher-binds draw-IsDraw rows_apart refl

open_value_shredded_example :
    open_value cipher envelope (record (sealed_under master_key) { wrapped_dek = [] }) row
    ≡ err open_failed
open_value_shredded_example =
    open_value_shredded cipher fingerprint master_key (old_wrapper ∷ []) row
      (record (sealed_under master_key) { wrapped_dek = [] }) refl refl

open_value-rewrap_example :
    (open_value cipher envelope (sealed_under master_key) row ≡ ok message)
    × ((sealed_under master_key).ciphertext ≡ (sealed_under old_key).ciphertext)
    × ((sealed_under master_key).key_id ≡ envelope.current.id)
unfolding new rewrap sealbox.Base.◌==◌ sealbox.Envelope.unwrap lookup sealbox.Base.insert
    sealbox.Envelope.open_blob seal_blob
open_value-rewrap_example =
    open_value-rewrap envelope wrapper-IsHonest current_loaded cipher draw.wrap_nonce row message
      (sealed_under old_key) (sealed_under master_key) true refl open_value-seal_example refl

open_many-open_value_example :
    (ok message ∷ err open_failed ∷ [])
    ≡ map
        (λ (r : Sealed × Bytes). open_value cipher envelope r.0 r.1)
        ((sealed_under master_key, row) ∷ (sealed_under old_key, other_row) ∷ [])
unfolding open_many sealbox.Envelope.open_groups sealbox.Envelope.group sealbox.Envelope.number
    sealbox.Envelope.add_to_group sealbox.Base.◌==◌ sealbox.Envelope.open_group lookup new
    sealbox.Base.insert sealbox.Envelope.unwrap_group sealbox.Envelope.unwrap_each
    sealbox.Envelope.open_blob seal_blob sealbox.Envelope.fill_group sealbox.Envelope.is_open_failed
    sealbox.Envelope.read_slots sealbox.Envelope.fail_group sealbox.Envelope.open_with_dek
    sealbox.Envelope.set_slot
open_many-open_value_example =
    open_many-open_value cipher envelope
      ((sealed_under master_key, row) ∷ (sealed_under old_key, other_row) ∷ [])
      (ok message ∷ err open_failed ∷ []) loaded-IsHonest refl
