-- ===== src/Client/Repl/Close.antt =====
-- `closeREPL` of pkg/backend/agent/repl.go and `Close` of agent.go: the end of a long-lived agent.
use ptyrelay.Base.{Bool, Bytes, [], Option, none, some, if◌then◌else◌}
use ptyrelay.Proto.{bye, Request, version}
use ptyrelay.Client.Repl.{Peer, ReplState, Client}

-- The error of the pipe's result: `io.EOF`, which is dropped, or another.
pub data PipeError : Type 0 where
  end_of_file : PipeError
  pipe_failed : Bytes → PipeError

-- The end of a pipe: its input is closed, and its result is waited for.
pub record PipeEnd (P : Type 0) : Type 0 where
  pub close_input : P → P
  pub wait : P → P × Option PipeError

abbrev pub bye_request : Request
bye_request = record { v = version; id = []; op = bye; args = [] }

abbrev pub dropped_eof : Option PipeError → Option Bytes
dropped_eof none = none
dropped_eof (some end_of_file) = none
dropped_eof (some (pipe_failed e)) = some e

module _ {P : Type 0} (peer : Peer P) (far_end : PipeEnd P) where
  -- The farewell, whose errors are dropped; it is skipped where the pipe was closed.
  unfoldable pub say_bye : ReplState → P → P
  say_bye r p = if r.closed then p else (peer.receive (peer.send bye_request p).0).0

  abbrev pub end_pipe : Client → Option ReplState → P → Client × P × Option Bytes
  end_pipe c none p = (c, p, none)
  end_pipe c (some r) p =
      let (q, e) = far_end.wait (far_end.close_input (say_bye r p)) in (c, q, dropped_eof e)

  -- `closeREPL`: the pipe is taken out first, so a second call does nothing.
  unfoldable pub close_repl : Client → P → Client × P × Option Bytes
  close_repl c p = end_pipe (record c { repl = none }) c.repl p

  -- `Close`; the flag says that the mode is that of the REPL.
  unfoldable pub close_client : Bool → Client → P → Client × P × Option Bytes
  close_client is_repl c p = if is_repl then close_repl c p else (c, p, none)
