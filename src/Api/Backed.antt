-- ===== src/Api/Backed.antt =====
-- The store as the `Vault` of the handlers.
use sealbox.Base.{ℕ}
use sealbox.Store.Tables.{World, Store}
use sealbox.Store.Write.{PutDraw, put_many, audit_many}
use sealbox.Store.Read.{get_many, search, subject}
use sealbox.Store.Shred.{delete, delete_subject}
use sealbox.Api.Action.{Vault, Server}

-- `*store.Store` satisfies `Vault`; the tape is the randomness of one request
abbrev pub backed : Store → (ℕ → PutDraw) → Vault World
backed s tape = record {
  put_many = λ actor collection items w. put_many s actor collection tape items w;
  get_many = λ collection ids w. get_many s collection ids w.db;
  delete = λ actor collection id w. delete s actor collection id w;
  search = λ collection field normalized after w. search s collection field normalized after w.db;
  subject = λ name w. subject s name w.db;
  delete_subject = λ actor name w. delete_subject s actor name w;
  audit_many = λ entries w. audit_many s entries w;
}

-- a server that runs on the store
abbrev pub on_store : {L : Type 0} → Server World L → Store → (ℕ → PutDraw) → Server World L
on_store srv s tape = record srv { vault = backed s tape }
