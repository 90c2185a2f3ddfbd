-- ===== src/Agent.antt =====
-- internal/agent: the agent loop, its scaffold and its model client.
pub mod Scaffold
pub mod Client
pub mod Runner
pub mod Turns
pub mod Rounds
pub mod Loop
pub mod Quiet
pub mod Spares
mod Tests
