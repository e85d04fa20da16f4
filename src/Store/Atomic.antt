-- ===== src/Store/Atomic.antt =====
-- What a write that returned an error did: nothing, or all of it.
use sealbox.Base.{
  ℕ, ◌≡◌, List, [], ◌∷◌, map, Text, Dict, Result, ok, err, true, ◌&&◌, not, any, keep,
}
use sealbox.Envelope.RoundTrip.{IsDraw}
use sealbox.Store.Tables.{AuditEntry, World, Item, Store, StoreError}
use sealbox.Store.Tx.{has_id}
use sealbox.Store.Write.{PutDraw, put_many, audit_many}
use sealbox.Store.Read.{is_about, ref_of}
use sealbox.Store.Shred.{is_target, delete, delete_subject}
use sealbox.Store.Maintain.{rewrite_index}
use sealbox.Store.Upkeep.{reindexed}
use sealbox.Store.Puts.{Stored}
use sealbox.Store.Deletes.{erased}

-- A call that writes several tables, or several rows, at once.
pub data Write : Type 0 where
  put_all : (actor collection : Text) (tape : ℕ → PutDraw) (items : List Item) → Write
  remove : (actor collection id : Text) → Write
  forget : (actor subject : Text) → Write
  log_all : (entries : List AuditEntry) → Write
  index_again : (actor collection id : Text) (values : Dict Text) → Write

abbrev without_value :
    {A : Type 0} → Result StoreError A × World → Result StoreError (Unit {0}) × World
without_value (ok a, w) = (ok tt, w)
without_value (err e, w) = (err e, w)

-- The call, without the value that it returns.
abbrev pub perform : Store → Write → World → Result StoreError (Unit {0}) × World
perform s (put_all actor collection tape items) w =
    without_value (put_many s actor collection tape items w)
perform s (remove actor collection id) w = delete s actor collection id w
perform s (forget actor subject) w = without_value (delete_subject s actor subject w)
perform s (log_all entries) w = audit_many s entries w
perform s (index_again actor collection id values) w = rewrite_index s actor collection id values w

-- Every draw of a put has the sizes that the code asks for.
abbrev pub AreDraws : Write → Type 0
AreDraws (put_all actor collection tape items) = (n : ℕ) → IsDraw (tape n).draw
AreDraws _ = Unit {0}

-- The call did all it does to the tables, and sent nothing to the audit logger.
abbrev pub IsWhole : Store → Write → World → World → Type 0
IsWhole s (put_all actor collection tape items) w w' =
    (ids : List Text) × (entries : List AuditEntry) × Stored s actor collection items ids entries
      w.db w'.db
    × (w'.shipped ≡ w.shipped)
IsWhole s (remove actor collection id) w w' =
    (any (is_target collection id) w.db.objects ≡ true)
    × (w' ≡ record w {
      db =
          erased (is_target collection id) actor (record { collection = collection; id = id } ∷ [])
            w.db;
    })
IsWhole s (forget actor subject) w w' = w' ≡ record w {
  db = erased (is_about subject) actor (map ref_of (keep (is_about subject) w.db.objects)) w.db;
}
IsWhole s (log_all entries) w w' = ⊥
IsWhole s (index_again actor collection id values) w w' =
    (any (λ r. has_id id r && not r.deleted) w.db.objects ≡ true)
    × (w' ≡ record w { db = reindexed s actor collection id values w.db })
