-- ===== src/Tests.antt =====
-- Concrete runs of the model, one or more for each component.
pub mod Samples
pub mod Shares
pub mod Secrets
pub mod Handlers
pub mod Wire
pub mod Traffic
pub mod Program
pub mod Commands
pub mod Sharing
use secretstash.Base.{ℕ}
