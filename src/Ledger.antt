-- ===== src/Ledger.antt =====
-- internal/state/recovery_ledger.go: the durable recovery ledger.
pub mod Vocabulary
pub mod Frame
pub mod Transition
pub mod Replay
pub mod Records
pub mod Sources
pub mod Histories
pub mod Service
pub mod Port
mod Tests
