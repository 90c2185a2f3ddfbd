-- ===== src/Compile.antt =====
-- internal/compile/compile.go: the structural compile gate for /src/App.tsx.
pub mod Lexical
pub mod Strip
pub mod Report
pub mod Braces
pub mod Jsx
pub mod Forbidden
pub mod Validate
mod Tests
