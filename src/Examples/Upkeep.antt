-- ===== src/Examples/Upkeep.antt =====
-- One row re-indexed and one row re-wrapped.
use sealbox.Base.{
  ℕ, ◌≡◌, ◌≢◌, ◌⊎◌, inl, inr, refl, Text, codes, List, [], ◌∷◌, ◌++◌, Result, ok, err, Bool, true,
  false, Option, some, none, arith, lookup, All, map, keep, any, not, if◌then◌else◌, ◌&&◌, ◌||◌,
  ◌==◌,
}
use sealbox.Envelope.{Bytes}
use sealbox.Store.Tables.{
  ObjectRow, Db, World, Item, Ref, Store, StoreError, not_found, database, AuditRow, AuditEntry,
  audit_row, aad, hash_input, new_id, Statement, commit, index_key_name, index_key_aad,
}
use sealbox.Store.Tx.{has_id, of_object}
use sealbox.Store.Write.{create_entry, put_many}
use sealbox.Envelope.{seal_blob}
use sealbox.Store.Maintain.{changed, rotate_row, rewrite_index, reindex_entry}
use sealbox.Store.Upkeep.{rotate_row_deleted}
use sealbox.Examples.Fixtures.{
  cipher, draw, fingerprint, master_key, old_key, store, lexical-IsOrder, lexical,
}
use sealbox.Store.Pages.{exhausted, finished, rotate, reindex}
use sealbox.Store.Pages.Complete.{rotate_done}
use sealbox.Envelope.{current_key_id}
use sealbox.Store.Pages.Ending.{rotate_ends, reindex_ends}
use sealbox.Examples.Stores.{name, client, first_id, filled}

abbrev rewritten : World
rewritten = (rewrite_index store client name first_id ((codes "e", codes "z") ∷ []) filled).1

rewrites :
    rewrite_index store client name first_id ((codes "e", codes "z") ∷ []) filled
    ≡ (ok tt, rewritten)
unfolding rewrite_index sealbox.Store.Maintain.tx_lock sealbox.Store.Maintain.rewrite_tx
    sealbox.Store.Tx.tx_delete_index put_many sealbox.Store.Tx.transact sealbox.Store.Write.put_loop
    sealbox.Store.Write.put_one sealbox.Envelope.seal sealbox.Envelope.new
    sealbox.Store.Tx.tx_insert_object sealbox.Store.Write.insert_indexed
    sealbox.Store.Tx.tx_insert_index ◌==◌ new_id sealbox.Store.Tables.hex
    sealbox.Store.Tables.hex_digit sealbox.Store.Tx.tx_audit sealbox.Store.Tables.emit
rewrites = refl

-- a store that moves rows from the old key to the new one
abbrev old_row : ObjectRow
old_row = record {
  id = first_id;
  collection = name;
  key_id = fingerprint old_key;
  wrapped_dek = some (seal_blob cipher old_key draw.wrap_nonce draw.dek (aad name first_id));
  ciphertext = seal_blob cipher draw.dek draw.nonce (codes "hi") (aad name first_id);
  subject_id = none;
  deleted = false;
}

abbrev old_db : Db
old_db = record { objects = old_row ∷ []; blind_index = []; keys = []; audit_log = [] }

abbrev moved_db : Db
moved_db = record old_db {
  objects =
      record old_row {
        key_id = fingerprint master_key;
        wrapped_dek =
            some (seal_blob cipher master_key draw.wrap_nonce draw.dek (aad name first_id));
      }
      ∷ [];
}

rotates : rotate_row store draw.wrap_nonce old_row old_db ≡ ok (changed 1, moved_db)
unfolding rotate_row sealbox.Envelope.rewrap ◌==◌ sealbox.Envelope.new sealbox.Envelope.unwrap
    lookup sealbox.Base.insert sealbox.Envelope.open_blob seal_blob aad sealbox.Store.Maintain.count
    sealbox.Store.Maintain.rekey_where
rotates = refl

rotate_row_deleted_example :
    (keep (λ x. x.deleted) moved_db.objects ≡ keep (λ x. x.deleted) old_db.objects)
    × (moved_db.blind_index ≡ old_db.blind_index)
    × (moved_db.keys ≡ old_db.keys)
    × (moved_db.audit_log ≡ old_db.audit_log)
rotate_row_deleted_example =
    rotate_row_deleted store draw.wrap_nonce old_row old_db moved_db (changed 1) rotates

abbrev nobody : ℕ → ObjectRow → Bool
nobody n r = false

-- the index key under the old key, before the row
abbrev keyed_db : Db
keyed_db = record old_db {
  keys =
      record {
        name = index_key_name;
        key_id = fingerprint old_key;
        wrapped_dek = seal_blob cipher old_key draw.wrap_nonce draw.dek index_key_aad;
        ciphertext = [];
      }
      ∷ [];
}

rotate_ends_example :
    rotate store draw.wrap_nonce (λ n. draw.wrap_nonce) nobody 2 keyed_db ≢ exhausted
rotate_ends_example =
    rotate_ends store draw.wrap_nonce (λ n. draw.wrap_nonce) nobody 2 keyed_db lexical-IsOrder
      (omega arith)

abbrev filled_again : World
filled_again = record { db = keyed_db; shipped = [] }

reindex_ends_example : reindex store client name (λ c p. some []) nobody 2 filled_again ≢ exhausted
reindex_ends_example =
    reindex_ends store client name (λ c p. some []) nobody 2 filled_again lexical-IsOrder
      (omega arith)

abbrev rotated_db : Db
rotated_db = record moved_db {
  keys =
      record {
        name = index_key_name;
        key_id = fingerprint master_key;
        wrapped_dek = seal_blob cipher master_key draw.wrap_nonce draw.dek index_key_aad;
        ciphertext = [];
      }
      ∷ [];
}

rotates_all :
    rotate store draw.wrap_nonce (λ n. draw.wrap_nonce) nobody 2 keyed_db
    ≡ finished (record { done = 2; skipped = 0 }) rotated_db
unfolding rotate sealbox.Store.Pages.rotate_index_key ◌==◌ sealbox.Envelope.rewrap
    sealbox.Envelope.new sealbox.Envelope.unwrap lookup sealbox.Base.insert
    sealbox.Envelope.open_blob seal_blob index_key_aad sealbox.Store.Pages.rotate_pages
    sealbox.Store.Pages.page_loop sealbox.Store.Pages.page_of sealbox.Store.Pages.sort_rows
    sealbox.Store.Pages.insert_row sealbox.Store.Pages.row_loop rotate_row
    sealbox.Envelope.is_open_failed sealbox.Envelope.rewrap_in_place
    sealbox.Envelope.rewraps_in_place sealbox.Store.Maintain.count
    sealbox.Store.Maintain.rekey_where sealbox.Store.Pages.count_key sealbox.Store.Pages.rekey_key
    sealbox.Store.Shred.shred_where aad lexical
rotates_all = refl

rotate_done_example :
    All
      (λ (x : ObjectRow). (x.deleted || x.key_id == current_key_id store.env) ≡ true)
      rotated_db.objects
unfolding ◌==◌
rotate_done_example =
    rotate_done store draw.wrap_nonce (λ n. draw.wrap_nonce) nobody 2
      (record { done = 2; skipped = 0 }) keyed_db rotated_db lexical-IsOrder (refl, tt) (refl, tt)
      rotates_all refl
