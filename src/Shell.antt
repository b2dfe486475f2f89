-- ===== src/Shell.antt =====
-- pkg/backend/shell: the backend that works by shell commands. `Probe` is probe.go, `Ops` fs.go and
-- exec.go, `Write` io.go.
pub mod State
pub mod Probe
pub mod Stat
pub mod Ops
pub mod Write
