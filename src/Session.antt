-- ===== src/Session.antt =====
-- pkg/session: the errors of the package, and its modules.
pub mod Sentinel
pub mod Ansi
pub mod Wrap
pub mod Wire
pub mod Drive
pub mod Framed
pub mod Streaming
pub mod Pump
use ptyrelay.Base.{ℕ}
