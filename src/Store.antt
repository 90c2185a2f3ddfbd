-- ===== src/Store.antt =====
-- internal/store: the data model of the SQLite source of truth and the operations on it.
pub mod Model
pub mod Table
pub mod Tx
pub mod Rows
pub mod Pointer
pub mod Stages
pub mod Ledger
pub mod Runs
pub mod Events
pub mod Hash
pub mod Versions
pub mod Drafts
pub mod Files
pub mod Projects
pub mod Provenance
pub mod Recovery
pub mod Reconcile
pub mod Snapshot
pub mod Reads
pub mod Operation
pub mod Follow
pub mod Frame
pub mod Sound
pub mod Scenario
mod Tests
