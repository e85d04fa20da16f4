-- ===== src/Lib.antt =====
-- Sealbox: a vault that seals JSON objects under one key each, keeps them in Postgres, and finds
-- them again by keyed hashes of their fields.
--
-- FieldType is internal/schema/types.go: `validate_*`, `mask_*`, `normalize_email`, `digits`, `luhn`.
-- Schema is internal/schema/schema.go: `Parse`, `Indexed`, `Normalize`, `Validate`, `Mask`, over the
-- JSON values of Json. A Go map is an association list, and what is shown holds in every order.
-- Envelope is internal/envelope/envelope.go: an interface `Wrapper`, its local implementation, and
-- `Seal`, `Open` (here `open_value`), `OpenMany`, `Rewrap`. XChaCha20-Poly1305 is the parameter
-- `Aead` with its two laws, and the fingerprint of a key is a parameter. What a key service must
-- do is `IsHonest` in Envelope/Local; randomness enters as an argument.
-- Store is internal/store/store.go. Store/Tables has the tables of internal/store/migrations as lists
-- of rows, Store/Tx a transaction as a function that returns a new copy of the tables or an error,
-- in which case the copy is dropped. `fails` says which statements the database refuses, and
-- `commits_anyway` whether a commit that returns an error took effect. Store/Write,
-- Store/Read and Store/Shred are the methods: `PutMany`, `AuditMany`, `GetMany`, `Search`, `Subject`,
-- `Delete`, `DeleteSubject`. Store/View is the abstract store, a partial map from a collection and
-- an id to the content. Store/Steps is a run of the store: whole writing calls, and the reads of a page
-- and the row steps of `Rotate` and `Reindex`, with the rows they hold, in any order. Each has its own
-- failing statements, and a failed commit may have taken effect. Store/Kept, Store/Keeps and Store/Held say what a
-- property of the tables and of the rows held has to satisfy to last through a run, Store/Forever,
-- Store/Runs and Store/Contents use it, and Store/Atomic is about calls that fail.
-- Store/Maintain is one row of `Rotate` and of `Reindex`, and `rewriteIndex`.
-- Store/Pages is the whole of `Rotate` and `Reindex`: pages of 500 rows by id, with the deletes that
-- other clients make between two rows.
-- Store/Found is about `Search`.
-- Transit is internal/envelope/transit.go: a key service behind HTTP as a `Wrapper`. The engine is the
-- parameter `Engine`, what it documents is `IsEngine`, and base64 is a parameter. The rounds
-- of `UnwrapMany` have fuel, one for each key, and that is enough.
-- Auth is internal/api/auth.go: `ValidateClients`, `authenticate`, `require`, with SHA-256 a parameter.
-- Api is internal/api/api.go: Api/Names its limits and regular expressions, Api/Action the interface
-- `Vault`, the answers, and `allow`, `readBody`, `require`, `auditMany` as steps that may answer at
-- once, Api/Objects `parseObject` and `render`, Api/Handlers the handlers, and Api/Serve
-- `requireKey` before the routes. Api/Backed fills `Vault` with the store. The JSON parser and printer
-- and the UTF-8 test are the parameter `Codec`, and so is the rate limiter. A panic is the answer
-- `dropped`. Error answers carry what they say, not the words of it.
-- Base has what they share; Examples runs the code.
--
-- Two loops have fuel: `page_loop`, where one page more than there are rows is enough, and that of
-- `UnwrapMany`. Every other loop is a recursion on a list. Text is a list of code points and a byte string a list of
-- numbers; a row identity is made of code points, not of their UTF-8 bytes.
-- Not modelled: the AWS key service (internal/envelope/awskms.go), start-up, `Grant`, the creation of
-- the blind-index key and migrations, metrics, the command line and the client: most of these are input and output.
pub mod Base
pub mod FieldType
pub mod Json
pub mod Schema
pub mod Envelope
pub mod Store
pub mod Transit
pub mod Auth
pub mod Api
pub mod Examples
