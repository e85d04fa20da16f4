-- ===== src/Api.antt =====
-- internal/api/api.go: the handlers under /v1. `encoding/json`'s parser and printer, the rate limiter
-- of golang.org/x/time/rate and the storage are parameters: the storage is the interface `Vault`
-- of the source, which Api/Backed fills with the store.
pub mod Names
pub mod Action
pub mod Objects
pub mod Handlers
pub mod Serve
pub mod Roles
pub mod Ends
pub mod Backed
pub mod Reveal
pub mod Loop
pub mod Logged
pub mod Batch
pub mod Stored
pub mod Created
pub mod Erase
pub mod Searched
