-- ===== src/Store.antt =====
-- internal/store: sealed objects in Postgres. The tables and the statements of store.go are in
-- Tables, a transaction in Tx, the methods of `Store` in Write, Read, Shred and Maintain.
pub mod Tables
pub mod Tx
pub mod Write
pub mod Read
pub mod Shred
pub mod Effect
pub mod View
pub mod Reads
pub mod Puts
pub mod PutAll
pub mod Deletes
pub mod Sound
pub mod Steps
pub mod Kept
pub mod Keeps
pub mod Held
pub mod Alike
pub mod Forever
pub mod Runs
pub mod Contents
pub mod Atomic
pub mod Identity
pub mod Maintain
pub mod Upkeep
pub mod Pages
pub mod Found
