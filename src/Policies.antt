-- ===== src/Policies.antt =====
-- Policies (apps/policies): effects of rules and the risk score.
pub mod Effect
pub mod Engine
pub mod Evaluation
pub mod Registry
pub mod Risk
pub mod Context
pub mod Accounting
mod Tests
mod PackTests
