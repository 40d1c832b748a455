-- ===== src/Domain.antt =====
-- internal/domain: the dependency-free facts that plans and results are made of.
pub mod Size
pub mod Identifiers
pub mod Graph
pub mod Plan
pub mod Outcomes
mod Tests
