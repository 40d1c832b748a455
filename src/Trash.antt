-- ===== src/Trash.antt =====
-- internal/trash: moving content to the Trash and reconciling what was left open.
pub mod Facts
pub mod Program
pub mod Move
pub mod Metadata
pub mod Reconcile
pub mod Write
pub mod Admit
mod Tests
