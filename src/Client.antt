-- ===== src/Client.antt =====
-- pkg/backend/agent: the client of the agent. `Errors` is mapErrKind, `Repl` the long-lived mode.
pub mod Errors
pub mod Repl
pub mod OneShot
pub mod Files
