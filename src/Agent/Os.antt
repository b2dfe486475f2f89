-- ===== src/Agent/Os.antt =====
-- What cmd/ptyrelay-agent/handlers.go calls of package os, os/exec and path/filepath, as an interface
-- over a state, and the computations that may fail there.
pub use ptyrelay.Base.Step.{and_then, ◌>>=◌, ◌>>◌, return, lift}
use ptyrelay.Base.Step.{Step}
use ptyrelay.Base.{ℕ, ℤ, Bool, false, Bytes, List, Option}

-- An error: its text, and what `errors.Is` says of `os.ErrNotExist` and `os.ErrPermission`.
pub record Failure : Type 0 where
  pub text : Bytes
  pub is_not_exist : Bool
  pub is_permission : Bool

abbrev pub new_error : Bytes → Failure
new_error text = record { text = text; is_not_exist = false; is_permission = false }

-- A computation that reads and changes the state and may fail.
abbrev pub M : Type 0 → Type 0 → Type 0
M S A = Step S Failure A

-- `fs.FileInfo`, less its time.
pub record FileInfo : Type 0 where
  pub name : Bytes
  pub size : ℕ
  pub mode : ℕ
  pub is_dir : Bool

-- `cmd.Run` with its buffers: the command has ended, with an exit code that is -1 if a signal ended it, or could not
-- be run.
pub data Ran : Type 0 where
  exited : Bytes → Bytes → ℤ → Ran
  not_run : Failure → Ran

-- The calls. A file that is open is named by its path; `cleanup` is `os.Remove` and `run_sh` is
-- `exec.Command("sh", "-c", cmd)` with its input, if there is any.
pub record Os (S : Type 0) : Type 0 where
  pub read_file : Bytes → M S Bytes
  pub create_temp : Bytes → Bytes → M S Bytes
  pub write_temp : Bytes → Bytes → M S Unit
  pub chmod_temp : Bytes → ℕ → M S Unit
  pub close_temp : Bytes → M S Unit
  pub remove : Bytes → M S Unit
  pub rename : Bytes → Bytes → M S Unit
  pub mkdir_all : Bytes → ℕ → M S Unit
  pub chmod : Bytes → ℕ → M S Unit
  pub stat : Bytes → M S FileInfo
  pub lstat : Bytes → M S FileInfo
  pub readlink : Bytes → M S Bytes
  pub read_dir : Bytes → M S (List Bytes)
  pub run_sh : Bytes → Option Bytes → S → S × Ran
  pub join : Bytes → Bytes → Bytes
