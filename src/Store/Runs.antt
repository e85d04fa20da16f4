-- ===== src/Store/Runs.antt =====
-- The invariant of the tables, and what an id names, over a run of the store.
use sealbox.Base.{
  ◌≡◌, refl, ◌∙◌, List, [], ◌∷◌, Text, eq_iff, Dict, Bool, true, false, ◌&&◌, not, any, All,
  All-append, All-mono, keep, arith, Bool-cases, inl, inr,
}
use sealbox.Envelope.{Sealed}
use sealbox.Store.Tables.{ObjectRow, IndexRow, Db, World, Store}
use sealbox.Store.Tx.{has_id, of_object}
use sealbox.Store.Shred.{is_target}
use sealbox.Store.Maintain.{is_unmoved, rekey_where}
use sealbox.Store.Effect.{index_rows}
use sealbox.Store.Sound.{
  IsKeyed, IsLinked, IsSound, Put-IsSound, erased-IsSound, index_rows-IsLinked, keep_missed,
}
use sealbox.Store.Upkeep.{reindexed}
use sealbox.Store.Steps.{Running, Steps, during}
use sealbox.Store.Keeps.{IsKept, Steps-keeps}
use sealbox.Store.Held.{
  All-Any, Held, IsHolding, HasDistinctIds-rekey_where, IsKeptRelation, Holding-IsKept,
}

-- A store in which no `Rotate` and no `Reindex` is under way.
abbrev pub at_rest : World → Running
at_rest w = record { world = w; held = [] }

rekey_where-IsKeyed :
    (id key_id : Text) (re : Sealed) (rows : List ObjectRow)
    → All IsKeyed rows
    → All IsKeyed (rekey_where (is_unmoved id key_id) re rows)
unfolding rekey_where
rekey_where-IsKeyed id key_id re [] all = tt
rekey_where-IsKeyed id key_id re (r ∷ rows) (here, all) =
    (ground (arith, here), rekey_where-IsKeyed id key_id re rows all)

any_target-rekey_where :
    (p : ObjectRow → Bool) (re : Sealed) (c id : Text) (rows : List ObjectRow)
    → any (is_target c id) (rekey_where p re rows) ≡ any (is_target c id) rows
unfolding rekey_where
any_target-rekey_where p re c id [] = refl
any_target-rekey_where p re c id (r ∷ rows) = ground (arith, any_target-rekey_where p re c id rows)

-- A live row of the id that a row was read under is a target of its collection.
live_target :
    (c id : Text) (rows : List ObjectRow)
    → All (λ x. has_id id x ≡ true → x.collection ≡ c) rows
    → any (λ x. has_id id x && not x.deleted) rows ≡ true
    → any (is_target c id) rows ≡ true
live_target c id [] all h = cc
live_target c id (r ∷ rows) (here, all) h = elim (Bool-cases (has_id id r && not r.deleted)) [
  | inl hit ↦
      let placed = here (ground (arith, hit)) in
      ground (arith, hit, (eq_iff r.collection c).1 placed)
  | inr miss ↦ let rest = live_target c id rows all (ground (arith, miss)) in ground (arith, rest)
]

-- A row and the row as it was read are of one collection.
abbrev IsPlaced : ObjectRow → ObjectRow → Type 0
IsPlaced x r = x.collection ≡ r.collection

module _ (s : Store) where
  IsPlaced-IsKept : IsKeptRelation s IsPlaced
  IsPlaced-IsKept = record {
    same = λ x. refl;
    shred = λ x r at. at;
    rekey = λ drawn q re x r size did hit named of_q of_r. of_r;
  }

  -- Sound tables, and rows read from them.
  record IsRunning (db : Db) (held : List ObjectRow) : Type 0 where
    sound : IsSound db
    holds : IsHolding IsPlaced db held

  reindexed-IsSound :
      (st : Store) (actor : Text) (r : ObjectRow) (values : Dict Text) (db : Db)
      → Held IsPlaced db.objects r
      → any (λ x. has_id r.id x && not x.deleted) db.objects ≡ true
      → IsSound db
      → IsSound (reindexed st actor r.collection r.id values db)
  reindexed-IsSound st actor r values db of_row live old =
      let hit : IndexRow → Bool = of_object r.collection r.id in
      let left = keep (λ x. not (hit x)) db.blind_index in
      let there = live_target r.collection r.id db.objects of_row.like live in
      record {
        distinct = old.distinct;
        keyed = old.keyed;
        linked =
            All-append (IsLinked db.objects) left (index_rows st r.collection r.id values)
              (All-mono (λ x. IsLinked db.objects x × (hit x ≡ false)) (IsLinked db.objects)
                (λ x (at, missed). at) left
                (keep_missed (IsLinked db.objects) hit db.blind_index old.linked))
              (index_rows-IsLinked st r.collection r.id values db.objects there);
      }

  rekeyed-IsSound :
      (id key_id : Text) (re : Sealed) (db : Db)
      → IsSound db
      → IsSound (record db { objects = rekey_where (is_unmoved id key_id) re db.objects })
  rekeyed-IsSound id key_id re db old =
      let p = is_unmoved id key_id in
      record {
        distinct = HasDistinctIds-rekey_where p re db.objects old.distinct;
        keyed = rekey_where-IsKeyed id key_id re db.objects old.keyed;
        linked =
            All-mono (IsLinked db.objects) (IsLinked (rekey_where p re db.objects))
              (λ x at. any_target-rekey_where p re x.collection x.object_id db.objects ∙ at)
              db.blind_index old.linked;
      }

  IsRunning-IsKept : IsKept s IsRunning
  IsRunning-IsKept =
      let holding = Holding-IsKept s IsPlaced IsPlaced-IsKept in
      record {
        writes = λ fails anyway held. record {
          put = λ actor c d it db last i put old. record {
            sound = Put-IsSound _ actor c d it db last i put old.sound;
            holds = (holding.writes fails anyway held).put actor c d it db last i put old.holds;
          };
          erase = λ p actor refs db covers old. record {
            sound = erased-IsSound p actor refs db covers old.sound;
            holds = (holding.writes fails anyway held).erase p actor refs db covers old.holds;
          };
          audit = λ entries db old. record {
            sound = record {
              distinct = old.sound.distinct;
              keyed = old.sound.keyed;
              linked = old.sound.linked;
            };
            holds = (holding.writes fails anyway held).audit entries db old.holds;
          };
        };
        keys = λ keys db held old. record {
          sound = record {
            distinct = old.sound.distinct;
            keyed = old.sound.keyed;
            linked = old.sound.linked;
          };
          holds = holding.keys keys db held old.holds;
        };
        read = λ fails anyway test last db held old. record {
          sound = old.sound;
          holds = holding.read fails anyway test last db held old.holds;
        };
        rekey = λ drawn r re db held size among did old. record {
          sound = rekeyed-IsSound r.id r.key_id re db old.sound;
          holds = holding.rekey drawn r re db held size among did old.holds;
        };
        index = λ fails anyway actor r values db held among live old. record {
          sound =
              reindexed-IsSound (during s fails anyway) actor r values db
                (All-Any (Held IsPlaced db.objects) r held old.holds.rows among) live old.sound;
          holds = holding.index fails anyway actor r values db held among live old.holds;
        };
      }

  -- From sound tables, and with no `Rotate` or `Reindex` under way, any sequence of `PutMany`,
  -- `Delete`, `DeleteSubject` and `AuditMany` calls and of steps of `Rotate` and `Reindex`,
  -- interleaved in any order, each with its own failures and whatever it returned, leads to sound
  -- tables: ids distinct, a key gone exactly when the row is deleted, and every index row naming a
  -- live row.
  pub Steps-IsSound :
      (w : World) (b : Running) → Steps s (at_rest w) b → IsSound w.db → IsSound b.world.db
  Steps-IsSound w b steps sound =
      let start : IsRunning w.db [] = record {
        sound = sound;
        holds = record { distinct = sound.distinct; rows = tt };
      } in
      let last : IsRunning b.world.db b.held =
        Steps-keeps s IsRunning IsRunning-IsKept (at_rest w) b steps start in
      last.sound
