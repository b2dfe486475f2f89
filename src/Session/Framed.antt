-- ===== src/Session/Framed.antt =====
-- `RunFramed`, `runFramedLocked` and `runPreludeLocked` of pkg/session/framed.go, and pkg/session/
-- prelude.go. The nonces and the events of a command are parameters; the lock is held throughout.
pub mod Delivered
pub mod Gate
use ptyrelay.Base.{
  ℕ, ◌==◌, Bool, true, false, Bytes, List, [], ◌∷◌, ◌++◌, Option, none, some, if◌then◌else◌, codes,
  ℤ, pos, negsuc,
}
use ptyrelay.Bytes.{join}
use ptyrelay.Session.Sentinel.{new_sentinel_parser}
use ptyrelay.Session.Wrap.{wrap_command}
use ptyrelay.Session.Wire.{Wire, write_all}
use ptyrelay.Session.Drive.{
  SessionError, session_dead, RunResult, Return, Drive, Event, drive_parser, start,
}

-- `ShellKind`.
pub data ShellKind : Type 0 where
  shell_unknown shell_bash shell_zsh shell_dash shell_sh : ShellKind

abbrev common : Bytes
common =
    join
      (codes "stty -echo -onlcr -icanon 2>/dev/null"
        ∷ codes "export LC_ALL=C LANG=C"
        ∷ codes "PS1=''"
        ∷ codes "unset PROMPT_COMMAND 2>/dev/null"
        ∷ [])
      (codes "; ")

-- `Prelude`.
unfoldable pub prelude : ShellKind → Bytes
unfolding join
prelude shell_bash = common ++ codes "; set +o history 2>/dev/null; HISTFILE=/dev/null"
prelude shell_zsh = common ++ codes "; set +o history 2>/dev/null; HISTFILE=/dev/null"
prelude shell_dash = common ++ codes "; HISTFILE=/dev/null"
prelude shell_sh = common ++ codes "; HISTFILE=/dev/null"
prelude shell_unknown = common

-- The errors of a call: a random number that failed, an input that holds the delimiter, a write that
-- failed, the session's own, one of the prelude's run, and the prelude's exit code.
pub data RunError : Type 0 where
  nonce_failed stdin_has_delimiter write_command : RunError
  driven : SessionError → RunError
  in_prelude : RunError → RunError
  prelude_exited : ℤ → Bytes → RunError

-- `FramedSession`, as far as a call reads and changes it.
pub record Framed : Type 0 where
  pub shell : ShellKind
  pub preluded : Bool
  pub dead : Bool
  pub max_output : ℕ
  pub wire : Wire

-- What a call leaves: the session, the result and the error; `none` for both is a call that waits.
pub record Ran : Type 0 where
  pub session : Framed
  pub result : Option RunResult
  pub error : Option RunError

abbrev pub failed_with : Framed → RunError → Ran
failed_with s e = record { session = s; result = none; error = some e }

abbrev pub lift_error : Option SessionError → Option RunError
lift_error none = none
lift_error (some e) = some (driven e)

-- What `driveParser` leaves and returns.
abbrev pub driven_to : Framed → Drive × Option Return → Ran
driven_to s (d, none) = record {
  session = record s { dead = d.dead; wire = d.wire };
  result = none;
  error = none;
}
driven_to s (d, some r) = record {
  session = record s { dead = d.dead; wire = d.wire };
  result = r.result;
  error = lift_error r.error;
}

-- `runFramedLocked`, at the two outcomes of `writeAll`.
abbrev pub drive_written : Framed → Bytes → List Event → Wire × Bool → Ran
drive_written s nonce es (w, true) =
    driven_to s (
      drive_parser (record (start (new_sentinel_parser nonce s.max_output) w) { dead = s.dead }) es)
drive_written s nonce es (w, false) = failed_with (record s { wire = w }) write_command

-- `runFramedLocked`, at what `wrapCommand` returned.
abbrev pub run_wrapped : Framed → Bytes → List Event → Option Bytes → Ran
run_wrapped s nonce es none = failed_with s stdin_has_delimiter
run_wrapped s nonce es (some line) = drive_written s nonce es (write_all s.wire line)

-- `runFramedLocked`; the nonce is `none` where it could not be made.
unfoldable pub run_framed_locked : Framed → Bytes → Bytes → Option Bytes → List Event → Ran
run_framed_locked s cmd stdin none es = failed_with s nonce_failed
run_framed_locked s cmd stdin (some nonce) es =
    run_wrapped s nonce es (wrap_command cmd stdin nonce)

abbrev pub is_zero : ℤ → Bool
is_zero (pos n) = n == 0
is_zero (negsuc n) = false

-- `runPreludeLocked`, and what `RunFramed` makes of it; `next` is the call's own command.
abbrev pub after_prelude : (Framed → Ran) → Framed → Option RunResult → Option RunError → Ran
after_prelude next s r (some e) = failed_with s (in_prelude e)
after_prelude next s none none = record { session = s; result = none; error = none }
after_prelude next s (some r) none =
    if is_zero r.exit_code
    then next (record s { preluded = true })
    else failed_with s (in_prelude (prelude_exited r.exit_code r.output))

-- `RunFramed`, with the nonces and the events of the prelude and of the command.
unfoldable pub run_framed :
    Framed → Bytes → Bytes → Option Bytes × List Event → Option Bytes × List Event → Ran
run_framed s cmd stdin (first, early) (nonce, es) =
    if s.dead
    then failed_with s (driven session_dead)
    else if s.preluded
    then run_framed_locked s cmd stdin nonce es
    else (let p = run_framed_locked s (prelude s.shell ++ codes "; true") [] first early in
        after_prelude (λ t. run_framed_locked t cmd stdin nonce es) p.session p.result p.error)
