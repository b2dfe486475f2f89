-- ===== src/Channel.antt =====
-- pkg/channel: the transports under the session, and their capabilities.
pub mod Subprocess
pub mod Tmux
pub mod Websocket
use ptyrelay.Base.{ℕ, Bool}

-- `Caps`.
pub record Caps : Type 0 where
  pub binary_safe : Bool
  pub separate_stderr : Bool
  pub scrollback_limited : Bool
  pub max_write_chunk : ℕ
  pub concurrent : Bool
