-- ===== src/Store/Sound.antt =====
-- The stable version of a project over histories of operations (internal/store).
pub mod Tables
pub mod Steps
pub mod Commits
pub mod Drafts
pub mod Edits
pub mod Life
pub mod Reads
pub mod History
