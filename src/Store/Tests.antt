-- ===== src/Store/Tests.antt =====
-- internal/store: instances of the theorems on a small history.
mod Commits
mod Life
mod Requests
mod Snapshot
mod Reads
