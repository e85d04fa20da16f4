-- ===== src/Examples/Stores.antt =====
-- A store that is filled, read and erased.
use mathlib.Core.Path.{subst}
use sealbox.Base.{
  ℕ, ◌≡◌, ◌≢◌, ◌⊎◌, inl, inr, refl, Text, codes, List, [], ◌∷◌, ◌++◌, Result, ok, err, Bool, true,
  false, Option, some, none, Dict, Any, append-nil, arith, lookup, All, map, keep, any, not,
  if◌then◌else◌, ◌&&◌, ◌||◌, ◌==◌,
}
use sealbox.Envelope.{Bytes}
use sealbox.Store.Identity.{IsPlain, aad_injective, aad_shift}
use sealbox.Store.Tables.{
  ObjectRow, Db, World, Item, Ref, Store, StoreError, not_found, AuditRow, AuditEntry, audit_row,
  aad, hash_input, new_id, Statement, commit,
}
use sealbox.Store.Tx.{has_id, of_object}
use sealbox.Store.Write.{create_entry, put_many}
use sealbox.Store.Read.{one_of, is_about, ref_of, get_many}
use sealbox.Store.Shred.{is_target, delete_entry, delete, delete_subject}
use sealbox.Store.View.{find, view, HasDistinctIds}
use sealbox.Store.Puts.{CanSeal, Holds}
use sealbox.Store.PutAll.{put_many-view}
use sealbox.Store.Reads.{as_opened, get_many-view}
use sealbox.Store.Deletes.{erased_entries, delete-view, delete_subject-view}
use sealbox.Store.Sound.{IsSound}
use sealbox.Store.Steps.{
  Running, puts, deletes, reindex_reads, reindexes, Step, Steps, done, next, joined,
}
use sealbox.Store.Pages.{page_in, needs_index}
use sealbox.Store.Maintain.{reindex_row}
use sealbox.Store.Forever.{Steps-audit_log, delete_final}
use sealbox.Store.Runs.{at_rest, Steps-IsSound}
use sealbox.Store.Contents.{Steps-view}
use sealbox.Envelope.{seal_blob}
use sealbox.Examples.Fixtures.{store, empty_world, tape, tape-IsDraw}
use sealbox.Examples.Sealing.{wrapper-IsHonest, current_loaded, loaded-IsHonest}

abbrev refuses : Statement → Bool
refuses commit = true
refuses _ = false

abbrev pub name : Text
name = codes "p"

abbrev row_of : Text → World → ObjectRow
row_of id w = elim (find (is_target name id) w.db.objects) [
  | none ↦ record {
    id = [];
    collection = [];
    key_id = [];
    wrapped_dek = none;
    ciphertext = [];
    subject_id = none;
    deleted = false;
  }
  | some r ↦ r
]

abbrev pub client : Text
client = codes "app"

abbrev subject : Text
subject = codes "ann"

abbrev pub items : List Item
items =
    record { plaintext = codes "hi"; indexed = (codes "e", codes "x") ∷ []; subject = subject }
    ∷ record { plaintext = codes "yo"; indexed = []; subject = [] }
    ∷ []

abbrev pub first_id : Text
first_id = codes "tok_00"

abbrev second_id : Text
second_id = codes "tok_01"

abbrev pub filled : World
filled = (put_many store client name tape items empty_world).1

abbrev cleared : World
cleared = (delete store client name first_id filled).1

abbrev erased_world : World
erased_world = (delete_subject store client subject filled).1

can_seal : CanSeal store
unfolding sealbox.Envelope.new
can_seal = record { honest = wrapper-IsHonest; loaded = current_loaded }

fills : put_many store client name tape items empty_world ≡ (ok (first_id ∷ second_id ∷ []), filled)
unfolding put_many sealbox.Store.Tx.transact sealbox.Store.Write.put_loop
    sealbox.Store.Write.put_one sealbox.Envelope.seal sealbox.Envelope.new
    sealbox.Store.Tx.tx_insert_object sealbox.Store.Write.insert_indexed
    sealbox.Store.Tx.tx_insert_index ◌==◌ new_id sealbox.Store.Tables.hex
    sealbox.Store.Tables.hex_digit sealbox.Store.Tx.tx_audit
fills = refl

clears : delete store client name first_id filled ≡ (ok tt, cleared)
unfolding delete sealbox.Store.Tx.transact sealbox.Store.Shred.delete_tx
    sealbox.Store.Shred.tx_shred put_many sealbox.Store.Write.put_loop sealbox.Store.Write.put_one
    sealbox.Envelope.seal sealbox.Envelope.new sealbox.Store.Tx.tx_insert_object
    sealbox.Store.Write.insert_indexed sealbox.Store.Tx.tx_insert_index ◌==◌ new_id
    sealbox.Store.Tables.hex sealbox.Store.Tables.hex_digit sealbox.Store.Tx.tx_audit
    sealbox.Base.insert lookup sealbox.Envelope.seal_blob sealbox.Store.Shred.shred_where aad
    sealbox.Store.Tables.emit hash_input sealbox.Store.Tx.tx_delete_index
clears = refl

erases_ann :
    delete_subject store client subject filled
    ≡ (ok (record { collection = name; id = first_id } ∷ []), erased_world)
unfolding delete_subject sealbox.Store.Shred.delete_subject_tx sealbox.Store.Shred.tx_shred_subject
    sealbox.Store.Shred.erase_loop sealbox.Store.Shred.shred_where sealbox.Store.Tx.tx_delete_index
    put_many sealbox.Store.Tx.transact sealbox.Store.Write.put_loop sealbox.Store.Write.put_one
    sealbox.Envelope.seal sealbox.Envelope.new sealbox.Store.Tx.tx_insert_object
    sealbox.Store.Write.insert_indexed sealbox.Store.Tx.tx_insert_index ◌==◌ new_id
    sealbox.Store.Tables.hex sealbox.Store.Tables.hex_digit sealbox.Store.Tx.tx_audit
    sealbox.Base.insert lookup sealbox.Envelope.seal_blob aad sealbox.Store.Tables.emit hash_input
erases_ann = refl

reads :
    get_many store name (first_id ∷ codes "tok_99" ∷ []) filled.db
    ≡ ok ((first_id, codes "hi") ∷ [])
unfolding get_many sealbox.Envelope.open_many sealbox.Envelope.open_groups sealbox.Envelope.group
    sealbox.Envelope.number sealbox.Envelope.add_to_group sealbox.Envelope.open_group
    sealbox.Envelope.unwrap_group sealbox.Envelope.unwrap_each sealbox.Envelope.open_blob
    sealbox.Envelope.fill_group sealbox.Envelope.is_open_failed sealbox.Envelope.read_slots
    sealbox.Envelope.fail_group sealbox.Envelope.open_with_dek sealbox.Envelope.set_slot
    sealbox.Store.Read.collect put_many sealbox.Store.Tx.transact sealbox.Store.Write.put_loop
    sealbox.Store.Write.put_one sealbox.Envelope.seal sealbox.Envelope.new
    sealbox.Store.Tx.tx_insert_object sealbox.Store.Write.insert_indexed
    sealbox.Store.Tx.tx_insert_index ◌==◌ new_id sealbox.Store.Tables.hex
    sealbox.Store.Tables.hex_digit sealbox.Store.Tx.tx_audit sealbox.Base.insert lookup
    sealbox.Envelope.seal_blob aad sealbox.Store.Tables.emit hash_input
reads = refl

filling : Steps store (at_rest empty_world) (at_rest filled)
filling =
    next (at_rest empty_world) (at_rest filled) (at_rest filled)
      (puts store.fails false client name tape items empty_world filled []
        (ok (first_id ∷ second_id ∷ [])) fills)
      (done (at_rest filled))

-- a run of `Reindex` that read the objects before the first one was deleted
abbrev in_reindex : World → Running
in_reindex w = record { world = w; held = filled.db.objects }

-- the function that is given to `Reindex`: nothing is indexed
abbrev no_values : Text → Bytes → Option (Dict Text)
no_values collection plaintext = some []

abbrev first_row : ObjectRow
first_row = row_of first_id filled

abbrev reindexed_world : World
reindexed_world = (reindex_row store client no_values first_row cleared).1

page_read : page_in store (needs_index store []) [] filled.db ≡ ok filled.db.objects
unfolding put_many sealbox.Store.Tx.transact sealbox.Store.Write.put_loop
    sealbox.Store.Write.put_one sealbox.Envelope.seal sealbox.Envelope.new
    sealbox.Store.Tx.tx_insert_object sealbox.Store.Write.insert_indexed
    sealbox.Store.Tx.tx_insert_index ◌==◌ new_id sealbox.Store.Tables.hex
    sealbox.Store.Tables.hex_digit sealbox.Store.Tx.tx_audit sealbox.Store.Tables.emit
    sealbox.Store.Pages.page_of sealbox.Store.Pages.sort_rows sealbox.Store.Pages.insert_row
    sealbox.Examples.Fixtures.lexical
page_read = refl

first_held : Any (λ (x : ObjectRow). x ≡ first_row) filled.db.objects
unfolding put_many sealbox.Store.Tx.transact sealbox.Store.Write.put_loop
    sealbox.Store.Write.put_one sealbox.Envelope.seal sealbox.Envelope.new
    sealbox.Store.Tx.tx_insert_object sealbox.Store.Write.insert_indexed
    sealbox.Store.Tx.tx_insert_index ◌==◌ new_id sealbox.Store.Tables.hex
    sealbox.Store.Tables.hex_digit sealbox.Store.Tx.tx_audit sealbox.Store.Tables.emit
first_held = inl refl

reading : Steps store (at_rest filled) (in_reindex filled)
reading =
    next (at_rest filled) (in_reindex filled) (in_reindex filled)
      (subst (λ l. Step store (at_rest filled) (record { world = filled; held = l }))
        (append-nil filled.db.objects)
        (reindex_reads store.fails false [] [] filled [] filled.db.objects page_read))
      (done (in_reindex filled))

late : Steps store (in_reindex cleared) (in_reindex reindexed_world)
late =
    next (in_reindex cleared) (in_reindex reindexed_world) (in_reindex reindexed_world)
      (reindexes store.fails false client no_values first_row cleared reindexed_world
        filled.db.objects (reindex_row store client no_values first_row cleared).0 first_held refl)
      (done (in_reindex reindexed_world))

clearing : Steps store (in_reindex filled) (in_reindex reindexed_world)
clearing =
    next (in_reindex filled) (in_reindex cleared) (in_reindex reindexed_world)
      (deletes store.fails false client name first_id filled cleared filled.db.objects (ok tt)
        clears)
      late

empty-IsSound : IsSound empty_world.db
empty-IsSound = record { distinct = tt; keyed = tt; linked = tt }

filled-IsSound : IsSound filled.db
filled-IsSound = Steps-IsSound store empty_world (at_rest filled) filling empty-IsSound

first_used : any (has_id first_id) filled.db.objects ≡ true
unfolding put_many sealbox.Store.Tx.transact sealbox.Store.Write.put_loop
    sealbox.Store.Write.put_one sealbox.Envelope.seal sealbox.Envelope.new
    sealbox.Store.Tx.tx_insert_object sealbox.Store.Write.insert_indexed
    sealbox.Store.Tx.tx_insert_index ◌==◌ new_id sealbox.Store.Tables.hex
    sealbox.Store.Tables.hex_digit sealbox.Store.Tx.tx_audit sealbox.Store.Tables.emit
first_used = refl

put_many-view_example :
    Holds store filled.db name (first_id ∷ second_id ∷ []) items
    × HasDistinctIds filled.db.objects
    × (filled.db.audit_log
        ≡ map audit_row (map (create_entry client name) (first_id ∷ second_id ∷ [])))
    × (filled.shipped ≡ map (create_entry client name) (first_id ∷ second_id ∷ []))
put_many-view_example =
    put_many-view store client name tape items empty_world filled (first_id ∷ second_id ∷ [])
      can_seal tape-IsDraw tt fills

-- a store whose commits take effect without an answer
abbrev broken : Store
broken = record store { fails = refuses; commits_anyway = true }

abbrev unlucky : World
unlucky = (put_many broken client name tape items empty_world).1

get_many-view_example :
    as_opened (lookup first_id ((first_id, codes "hi") ∷ [])) ≡ view store filled.db name first_id
unfolding view ◌==◌
get_many-view_example =
    get_many-view store name (first_id ∷ codes "tok_99" ∷ []) filled.db
      ((first_id, codes "hi") ∷ []) loaded-IsHonest filled-IsSound.distinct reads first_id

delete-view_example :
    (any (is_target name first_id) filled.db.objects ≡ true)
    × ((c i : Text)
        → view store cleared.db c i
          ≡ (if i == first_id && c == name then none else view store filled.db c i))
    × (cleared.db.blind_index ≡ keep (λ r. not (of_object name first_id r)) filled.db.blind_index)
    × (cleared.db.audit_log
        ≡ filled.db.audit_log ++ audit_row (delete_entry client name first_id) ∷ [])
delete-view_example = delete-view store client name first_id filled cleared clears

delete_subject-view_example :
    ((record { collection = name; id = first_id } ∷ [])
      ≡ map ref_of (keep (is_about subject) filled.db.objects))
    × (keep (is_about subject) erased_world.db.objects ≡ [])
    × (erased_world.db.audit_log
        ≡ filled.db.audit_log
          ++ map audit_row
              (erased_entries client (record { collection = name; id = first_id } ∷ [])))
delete_subject-view_example =
    delete_subject-view store client subject filled erased_world
      (record { collection = name; id = first_id } ∷ []) erases_ann

abbrev second_row : ObjectRow
second_row = row_of second_id filled

second_found : find (is_target name second_id) filled.db.objects ≡ some second_row
unfolding put_many sealbox.Store.Tx.transact sealbox.Store.Write.put_loop
    sealbox.Store.Write.put_one sealbox.Envelope.seal sealbox.Envelope.new
    sealbox.Store.Tx.tx_insert_object sealbox.Store.Write.insert_indexed
    sealbox.Store.Tx.tx_insert_index ◌==◌ new_id sealbox.Store.Tables.hex
    sealbox.Store.Tables.hex_digit sealbox.Store.Tx.tx_audit sealbox.Store.Tables.emit
second_found = refl

second_other : is_about subject second_row ≡ false
unfolding put_many sealbox.Store.Tx.transact sealbox.Store.Write.put_loop
    sealbox.Store.Write.put_one sealbox.Envelope.seal sealbox.Envelope.new
    sealbox.Store.Tx.tx_insert_object sealbox.Store.Write.insert_indexed
    sealbox.Store.Tx.tx_insert_index ◌==◌ new_id sealbox.Store.Tables.hex
    sealbox.Store.Tables.hex_digit sealbox.Store.Tx.tx_audit sealbox.Store.Tables.emit
second_other = refl

-- a whole run: objects are stored, read by `Reindex`, and one is deleted before its row is worked on
abbrev last_moment : Running
last_moment = in_reindex reindexed_world

whole_run : Steps store (at_rest empty_world) last_moment
whole_run = joined store (joined store filling reading) clearing

Steps-IsSound_example : IsSound reindexed_world.db
Steps-IsSound_example = Steps-IsSound store empty_world last_moment whole_run empty-IsSound

Steps-audit_log_example :
    (rest : List AuditRow) × (reindexed_world.db.audit_log ≡ filled.db.audit_log ++ rest)
Steps-audit_log_example = Steps-audit_log store (in_reindex filled) last_moment clearing

Steps-view_example :
    (view store reindexed_world.db name first_id ≡ view store filled.db name first_id)
    ⊎ (view store reindexed_world.db name first_id ≡ none)
Steps-view_example =
    Steps-view store empty_world (in_reindex filled) last_moment name first_id can_seal tt
      (joined store filling reading) first_used clearing

delete_final_example : view store reindexed_world.db name first_id ≡ none
delete_final_example =
    delete_final store name first_id client filled cleared filled.db.objects last_moment clears late

name_plain : ◌≢◌ {A = ℕ} b'p' 0
name_plain = omega arith

plain : IsPlain name
plain = (name_plain, tt)

aad_injective_example : (name ≡ name) × (first_id ≡ first_id)
aad_injective_example = aad_injective name name first_id first_id plain plain refl

aad_shift_example :
    (codes "a" ≢ codes "a" ++ (0 ∷ codes "b"))
    × (codes "b" ++ (0 ∷ codes "c") ≢ codes "c")
    × (aad (codes "a") (codes "b" ++ (0 ∷ codes "c"))
        ≡ aad (codes "a" ++ (0 ∷ codes "b")) (codes "c"))
aad_shift_example = aad_shift (codes "a") (codes "b") (codes "c")
