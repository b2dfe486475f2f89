-- ===== src/Channel/Subprocess.antt =====
-- pkg/channel/subprocess: a channel over the standard streams of a process. The calls of package os/exec are an
-- interface over a state, and what a wait of `Close` sees first is an argument.
use ptyrelay.Base.{
  Bool, true, false, Bytes, List, [], ◌∷◌, Option, none, some, ◌⊎◌, inl, inr, if◌then◌else◌,
}
use ptyrelay.Base.Step.{Step}
use ptyrelay.Channel.{Caps}

-- `Options`.
pub record Options : Type 0 where
  pub command : List Bytes
  pub env : Option (List Bytes)
  pub dir : Bytes
  pub caps : Option Caps

-- `Channel`; `closed` is `closeOnce`.
pub record Process : Type 0 where
  pub caps : Caps
  pub closed : Bool

pub data StartError (E : Type 0) : Type 0 where
  command_required : StartError E
  stdin_pipe stdout_pipe : E → StartError E
  start_failed : Bytes → E → StartError E

-- `launch` is `cmd.Start` with the name, the arguments, the environment and the directory.
pub record Exec (S E : Type 0) : Type 0 where
  pub open_stdin : S → S × Option E
  pub open_stdout : S → S × Option E
  pub launch : Bytes → List Bytes → Option (List Bytes) → Bytes → S → S × Option E
  pub close_stdin : S → S
  pub close_stdout : S → S
  pub sigterm : S → S
  pub kill : S → S

abbrev pub default_caps : Caps
default_caps = record {
  binary_safe = true;
  separate_stderr = false;
  scrollback_limited = false;
  max_write_chunk = 0;
  concurrent = false;
}

abbrev pub or_default : Option Caps → Caps
or_default none = default_caps
or_default (some c) = c

module _ {S E : Type 0} (exec : Exec S E) where
  abbrev pub launched : Options → Bytes → S → Option E → S × (StartError E ⊎ Process)
  launched opts name s none = (s, inr (record { caps = or_default opts.caps; closed = false }))
  launched opts name s (some e) =
      (exec.close_stdout (exec.close_stdin s), inl (start_failed name e))

  abbrev pub with_stdout :
      Options → Bytes → List Bytes → S → Option E → S × (StartError E ⊎ Process)
  with_stdout opts name args s (some e) = (exec.close_stdin s, inl (stdout_pipe e))
  with_stdout opts name args s none =
      let (t, e) = exec.launch name args opts.env opts.dir s in launched opts name t e

  abbrev pub with_stdin : Options → Bytes → List Bytes → S → Option E → S × (StartError E ⊎ Process)
  with_stdin opts name args s (some e) = (s, inl (stdin_pipe e))
  with_stdin opts name args s none =
      let (t, e) = exec.open_stdout s in with_stdout opts name args t e

  abbrev pub start_command : Options → List Bytes → Step S (StartError E) Process
  start_command opts [] s = (s, inl command_required)
  start_command opts (name ∷ args) s =
      let (t, e) = exec.open_stdin s in with_stdin opts name args t e

  -- `Start`.
  unfoldable pub start : Options → Step S (StartError E) Process
  start opts = start_command opts opts.command

  -- The signals of `Close`: whether the process exits within the first grace, and within the second.
  abbrev pub escalate : Bool → Bool → S → S
  escalate true later s = s
  escalate false true s = exec.sigterm s
  escalate false false s = exec.kill (exec.sigterm s)

  -- `Close`, whose error is always nil.
  unfoldable pub close : Bool → Bool → Process → S → Process × S
  close exits exits_later c s = if c.closed then (c, s) else (
    record c { closed = true },
    exec.close_stdout (escalate exits exits_later (exec.close_stdin s)),
  )
