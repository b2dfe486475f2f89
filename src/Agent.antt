-- ===== src/Agent.antt =====
-- cmd/ptyrelay-agent: the helper process on the remote. `Os` has its file and process calls,
-- `Handlers` the operations, `Dispatch` the table of handlers and the two modes of main.go.
pub mod Os
pub mod Handlers
pub mod Dispatch
