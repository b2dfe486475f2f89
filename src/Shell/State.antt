-- ===== src/Shell/State.antt =====
-- `Backend`, its options, and `runShell` of pkg/backend/shell/shell.go. The session is a parameter.
pub use ptyrelay.Base.Step.{and_then, ◌>>=◌, ◌>>◌, return, throw}
use ptyrelay.Base.Step.{Step}
use ptyrelay.Base.{
  ℕ, Bool, false, Bytes, [], Option, none, ◌⊎◌, inl, inr, ltb, if◌then◌else◌, ℤ, pos, negsuc, ◌==◌,
}
use ptyrelay.Backend.{Op}
use ptyrelay.Session.Drive.{RunResult, SessionError}

-- `probeResult`.
pub record ProbeResult : Type 0 where
  pub os_name : Bytes
  pub has_base64 : Bool
  pub base64_wrap : Bool
  pub has_gzip : Bool
  pub sha256_cmd : Bytes
  pub stat_style : Bytes
  pub has_find_printf : Bool

-- The errors of the backend; `ErrTooLarge` has the size and the limit, `ErrCorrupted` both digests.
pub data ShellError : Type 0 where
  backend_closed lacks_base64 random_failed bad_base64 writer_closed : ShellError
  session : SessionError → ShellError
  probe_exited : ℤ → Bytes → ShellError
  exited : Op → ℤ → Bytes → ShellError
  readlink_exited : ℤ → ShellError
  too_large : ℕ → ℕ → ShellError
  corrupted : Bytes → Bytes → ShellError
  malformed : Bytes → ShellError

-- `Backend`, less the session and the log; `probe` is set where `probed` is.
pub record Shell : Type 0 where
  pub probe : Option ProbeResult
  pub closed_flag : Bool
  pub chunk_size : ℕ
  pub max_shell_file_size : ℕ

-- `New` with the defaults.
abbrev pub new_shell : Shell
new_shell = record {
  probe = none;
  closed_flag = false;
  chunk_size = 32768;
  max_shell_file_size = 4194304;
}

abbrev pub with_chunk_size : ℕ → Shell → Shell
with_chunk_size n b = if ltb 0 n then record b { chunk_size = n } else b

abbrev pub with_max_shell_file_size : ℕ → Shell → Shell
with_max_shell_file_size n b = if ltb 0 n then record b { max_shell_file_size = n } else b

-- `Session.RunFramed`: the command and its input, over the remote's state.
abbrev pub Session : Type 0 → Type 0
Session S = Bytes → Bytes → S → S × (SessionError ⊎ RunResult)

-- A computation over the remote's state that may fail.
abbrev pub Run : Type 0 → Type 0 → Type 0
Run S A = Step S ShellError A

abbrev pub is_zero : ℤ → Bool
is_zero (pos n) = n == 0
is_zero (negsuc n) = false

abbrev pub lifted : SessionError ⊎ RunResult → ShellError ⊎ RunResult
lifted (inl e) = inl (session e)
lifted (inr r) = inr r

module _ {S : Type 0} (run_framed : Session S) where
  -- `runShell`.
  abbrev pub run_shell : Bytes → Bytes → Run S RunResult
  run_shell cmd stdin s = let (t, r) = run_framed cmd stdin s in (t, lifted r)

  -- A result whose exit code is 0, or `shellError`.
  abbrev pub must_be_zero : Op → RunResult → Run S RunResult
  must_be_zero op r =
      if is_zero r.exit_code then return r else throw (exited op r.exit_code r.output)

  -- `runMustSucceed`.
  unfoldable pub run_must_succeed : Op → Bytes → Run S Unit
  run_must_succeed op cmd = run_shell cmd [] >>= λ r. must_be_zero op r >> return tt
