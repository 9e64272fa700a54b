-- ===== src/Lib.antt =====
-- CISS: a server that stores content-addressed blobs for customers, meters every transfer with a
-- signed receipt, keeps the customers' signed settings, and bills from what it measured.
--
-- The program's parts and the files that model them, with paths from the repository's root.
-- - Crypto (src/crypto.rs, src/identity.rs): sha256_hex, keypairs, sign_message, verify_message and
--   derive_id. The crates sha2, hex and ed25519-dalek are the parameter `Primitives`, with the round
--   trip of a signature's text and the acceptance of an honest signature as its laws. That a signature
--   cannot be forged or a hash cannot collide is never assumed: where a result depends on it, the
--   collision is named in the statement.
-- - Serde: the derived encoders and decoders of serde, as parameters; what is written reads back.
-- - Identifiers (src/identifiers.rs): Did::parse and ContentAddr::parse over the bytes of the text.
-- - KindSpec (src/kind_spec.rs), Policy (src/policy.rs), Dials (src/dials.rs, src/kv.rs): the registry
--   of the kinds of settings, their bodies, folds and checks.
-- - Assertion (src/assertion.rs): the signed envelope of a setting, with its two authorities.
-- - Chain (src/chain_kind.rs): the accounts that are kept as hash-linked steps and checkpoints.
-- - Receipts (src/receipts.rs), Statements (src/statements.rs), Manifest (src/manifest.rs) and Pricing
--   (src/pricing.rs, the tariff of src/dial.rs): the papers of the metering and their prices. Manifest/Merkle
--   relates the loop of merkle_root to the levels of the tree.
-- - Store (src/persist.rs): each SQLite table is a list of rows, a query is a function over it, and an
--   upsert or insert writes out the key and the WHERE clause of its statement. Store/Meter holds the
--   receipts and the cached totals, Store/Assertions the settings, Store/Chains the chain entries,
--   Store/Dials the settings as the server reads them back, Store/Manifests the manifests.
-- - Blobs (src/blobstore.rs): the trait BlobStore as an interface, and the backend in memory.
-- - Server (src/server.rs): AppState, ServerError, and one function for each op_ function of the
--   source. Server/Access is authorize and authorize_read, Server/Objects the objects, Server/Manifests
--   the manifests, Server/KindFold and Server/Assertions the writing of settings and chain entries,
--   Server/Lifecycle their erasure, listing and compaction, Server/Listing the listing of blobs, the
--   meter and du, Server/Dispatch the reading of one assertion, the countersignature and dispatch,
--   through which every request goes. The test of SQL's LIKE is the parameter `like`.
-- - Compute (src/compute.rs): the bounded table of what each caller's requests cost.
-- - Auth (crates/ciss-auth, and authenticate and verify_service_auth_full of src/server.rs): sessions,
--   service tokens and the guard against their replay. Base64, JSON, multibase and the two curves are
--   the parameter `Curves`, about which nothing is assumed; the resolver of DIDs is a function.
-- - Sync (crates/ciss-sync): the client that keeps a directory on a server. Sync/Tree is chunk.rs and
--   manifest.rs, Sync/Heads device_head.rs, Sync/Transport transport.rs, Sync/Spend ledger.rs,
--   Sync/Cache cache.rs, Sync/Working evict.rs, hydrate.rs, placeholder.rs and materialize.rs,
--   Sync/Backup the push of backup.rs with price.rs and the ledgers of state.rs, Sync/Fold fold.rs and
--   Sync/Frontier frontier.rs. The CBOR crate, the cutter and blake3 are the parameters `Formats` and
--   `HeadFormat`, whose laws say that what is written reads back. A server is a state with functions
--   on it; `Honest` is what the result on a push asks of it. The
--   mode and the time that a write gives a new file are a parameter.
-- - Prelude: shared types, arithmetic, texts, ordered maps and their lemmas. Examples: stand-ins for
--   the crates that keep the laws of the parameters, and the theorems at concrete inputs.
--
-- How the parts interact: an operation reads the settings through Store/Dials, is let through or
-- refused by the gates, moves bytes in Blobs, and writes a receipt whose total comes from Store/Meter.
-- A setting comes in as an Assertion, is checked through KindFold, and lands in Store/Assertions or,
-- for a chain kind, behind the checks of Chain in Store/Chains.
--
-- Numbers are ℕ. The sums that saturate in the source saturate at 2^64 - 1 here, and the columns that
-- the source clamps at 2^63 - 1 are clamped here; a sum that would stop the program on overflow is
-- exact. The functions are structurally recursive, but for two loops. The eviction loop of the cache
-- runs on fuel, one round for each row and one more; it is proved to end within it, whatever the rows
-- are. The commit loop of the frontier runs on the retries that the source allows, three. An operation
-- that fails leaves the state it had at the point where the source gives up: the transactions of the
-- store roll back, and a blob that was written stays.
--
-- Not modelled: HTTP and process start-up, logging, the file backend, failures of SQLite and of the
-- file system, DID resolution, the event ledger, audits, grace and sealing, the command line and the
-- mesh; of the sync client, the two flows that compose the modelled parts (converge and restore), the
-- commit of a keep-set without heads, the index of the scan, the aliases and the walk of directories. A
-- call takes the store's lock for each of
-- its steps; an operation here runs with no other one between its steps, but for the commit loop, where
-- the server may change between any two calls.

pub mod Prelude
pub mod Crypto
pub mod Chain
pub mod Identifiers
pub mod KindSpec
pub mod Policy
pub mod Dials
pub mod Pricing
pub mod Receipts
pub mod Statements
pub mod Manifest
pub mod Assertion
pub mod Serde
pub mod Store
pub mod Blobs
pub mod Server
pub mod Compute
pub mod Sync
pub mod Auth
pub mod Examples
