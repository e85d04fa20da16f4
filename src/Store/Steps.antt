-- ===== src/Store/Steps.antt =====
-- The writes of running stores as a step relation. `Rotate` and `Reindex` are broken up into reads of a
-- page and steps for one row, so the calls of other clients come between any two of them.
use sealbox.Base.{ℕ, ◌≡◌, List, ◌++◌, Text, Option, Dict, Result, ok, Bool, Any}
use sealbox.Envelope.{Bytes, nonce_bytes}
use sealbox.Base.{length}
use sealbox.Store.Tables.{ObjectRow, AuditEntry, Db, World, Ref, Item, Store, Statement, StoreError}
use sealbox.Store.Write.{PutDraw, put_many, audit_many}
use sealbox.Store.Shred.{delete, delete_subject}
use sealbox.Store.Maintain.{Outcome, rotate_row, reindex_row}
use sealbox.Store.Pages.{page_in, needs_rotation, needs_index, as_state, rotate_index_key}

-- The world, and the rows that runs of `Rotate` and `Reindex` have read.
pub record Running : Type 0 where
  pub world : World
  pub held : List ObjectRow

-- The store during one call: which statements fail, and what becomes of a failed commit, is
-- another matter in each.
abbrev pub during : Store → (Statement → Bool) → Bool → Store
during s fails anyway = record s { fails = fails; commits_anyway = anyway }

-- One call, or one step of `Rotate` or `Reindex`, whatever it returned.
pub data Step (s : Store) : Running → Running → Type 0 where
  puts :
      (fails : Statement → Bool) (anyway : Bool) (actor c : Text) (tape : ℕ → PutDraw)
      (items : List Item) (w w' : World) (held : List ObjectRow) (r : Result StoreError (List Text))
      → put_many (during s fails anyway) actor c tape items w ≡ (r, w')
      → Step s (record { world = w; held = held }) (record { world = w'; held = held })
  deletes :
      (fails : Statement → Bool) (anyway : Bool) (actor c id : Text) (w w' : World)
      (held : List ObjectRow) (r : Result StoreError (Unit {0}))
      → delete (during s fails anyway) actor c id w ≡ (r, w')
      → Step s (record { world = w; held = held }) (record { world = w'; held = held })
  erases :
      (fails : Statement → Bool) (anyway : Bool) (actor subject : Text) (w w' : World)
      (held : List ObjectRow) (r : Result StoreError (List Ref))
      → delete_subject (during s fails anyway) actor subject w ≡ (r, w')
      → Step s (record { world = w; held = held }) (record { world = w'; held = held })
  audits :
      (fails : Statement → Bool) (anyway : Bool) (entries : List AuditEntry) (w w' : World)
      (held : List ObjectRow) (r : Result StoreError (Unit {0}))
      → audit_many (during s fails anyway) entries w ≡ (r, w')
      → Step s (record { world = w; held = held }) (record { world = w'; held = held })
  -- `Rotate` re-wraps the blind-index key
  rotates_key :
      (fails : Statement → Bool) (anyway : Bool) (drawn : Bytes) (w : World) (db : Db)
      (held : List ObjectRow) (n : ℕ)
      → rotate_index_key (during s fails anyway) drawn w.db ≡ ok (n, db)
      → Step s
          (record { world = w; held = held })
          (record { world = record w { db = db }; held = held })
  -- `Rotate` reads a page
  rotate_reads :
      (fails : Statement → Bool) (anyway : Bool) (last : Text) (w : World)
      (held rows : List ObjectRow)
      → page_in (during s fails anyway) (needs_rotation s) last w.db ≡ ok rows
      → Step s (record { world = w; held = held }) (record { world = w; held = rows ++ held })
  -- `Rotate` re-wraps the key of a row that was read
  rotates :
      (fails : Statement → Bool) (anyway : Bool) (drawn : Bytes) (r : ObjectRow) (w : World)
      (db : Db) (held : List ObjectRow) (out : Result StoreError Outcome)
      → length drawn ≡ nonce_bytes
      → Any (λ x. x ≡ r) held
      → as_state (rotate_row (during s fails anyway) drawn r w.db) w.db ≡ (out, db)
      → Step s
          (record { world = w; held = held })
          (record { world = record w { db = db }; held = held })
  -- `Reindex` reads a page
  reindex_reads :
      (fails : Statement → Bool) (anyway : Bool) (collection last : Text) (w : World)
      (held rows : List ObjectRow)
      → page_in (during s fails anyway) (needs_index s collection) last w.db ≡ ok rows
      → Step s (record { world = w; held = held }) (record { world = w; held = rows ++ held })
  -- `Reindex` works on a row that was read
  reindexes :
      (fails : Statement → Bool) (anyway : Bool) (actor : Text)
      (indexed : Text → Bytes → Option (Dict Text)) (r : ObjectRow) (w w' : World)
      (held : List ObjectRow) (out : Result StoreError Outcome)
      → Any (λ x. x ≡ r) held
      → reindex_row (during s fails anyway) actor indexed r w ≡ (out, w')
      → Step s (record { world = w; held = held }) (record { world = w'; held = held })
  -- a step whose writes took effect, and whose answer was lost before anything was emitted
  unanswered :
      (a b : Running)
      → Step s a b
      → Step s a (record b { world = record b.world { shipped = a.world.shipped } })

-- Steps in any order and any number.
pub data Steps (s : Store) : Running → Running → Type 0 where
  done : (a : Running) → Steps s a a
  next : (a b c : Running) → Step s a b → Steps s b c → Steps s a c

-- One run after another.
pub joined : (s : Store) {a b c : Running} → Steps s a b → Steps s b c → Steps s a c
joined s (done a) later = later
joined s (next a b c one more) later = next a b _ one (joined s more later)
