-- ===== src/Session/Pump.antt =====
-- `Pipe` and `pipePump` of pkg/session/framed.go: the loop that feeds the streaming parser from the
-- session's reader, and that answers the end of the context as `driveParser` does. Its `select` is the
-- same list of events.
pub mod Agrees
use ptyrelay.Base.{
  ℕ, Bool, true, false, Bytes, ℤ, pos, List, [], ◌∷◌, ◌++◌, ◌==◌, ltb, if◌then◌else◌, Option, none,
  some, map_option, codes,
}
use ptyrelay.Session.Sentinel.{Fed, more, complete, out_of_fuel, broken}
use ptyrelay.Session.Wire.{Wire, write_channel, write_all}
use ptyrelay.Session.Wrap.{wrap_command}
use ptyrelay.Session.Drive.{
  SessionError, channel_closed, read_failed, write_failed, canceled, session_dead, protocol, Event,
  chunk, read_eof, read_error, reader_closed, ctx_done, phase, RunResult,
}
use ptyrelay.Session.Streaming.{PipeWriter, StreamingParser, new_streaming_parser, stream_feed}
use ptyrelay.Session.Framed.{
  Framed, RunError, nonce_failed, stdin_has_delimiter, write_command, driven, in_prelude,
  prelude_exited, prelude, is_zero, run_framed_locked,
}

-- What the pump reports: an error of the session, or of the pipe's writer.
pub data PumpError : Type 0 where
  session : SessionError → PumpError
  stdout_closed : PumpError

-- `PipeResult`.
pub record PipeResult : Type 0 where
  pub exit_code : ℤ
  pub err : Option PumpError

-- The variables of the loop, and what it changes of the session. `closed` is what the pipe's writer was
-- closed with: nothing yet, no error, or an error.
pub record Pump : Type 0 where
  pub parser : StreamingParser
  pub ctx_armed : Bool
  pub cancel_stage : ℕ
  pub timer_armed : Bool
  pub dead : Bool
  pub wire : Wire
  pub closed : Option (Option PumpError)

-- `finalize`.
abbrev pub finalize : Pump → PipeResult → Pump × Option PipeResult
finalize p r = (record p { closed = some r.err }, some r)

abbrev pub finalize_error : Pump → PumpError → Pump × Option PipeResult
finalize_error p e = finalize p (record { exit_code = pos 0; err = some e })

-- The parser is done: the writer is closed, and a cancellation that was under way is reported.
abbrev pub drained : Pump → Pump × Option PipeResult
drained p = (
  record p { closed = some none },
  some (record {
    exit_code = p.parser.exit_code;
    err = if ltb 0 p.cancel_stage then some (session canceled) else none;
  }),
)

-- What the loop does on the parser's answer; the last clause is never met.
abbrev pub on_stream : Pump → Option Fed → Pump × Option PipeResult
on_stream p none = finalize_error p stdout_closed
on_stream p (some more) = (p, none)
on_stream p (some complete) = drained p
on_stream p (some (broken e)) = finalize_error p (session (protocol e))
on_stream p (some out_of_fuel) = (p, none)

abbrev pub feed_pump : Pump → Bytes → Pump × Option PipeResult
feed_pump p b = let (q, r) = stream_feed p.parser b in on_stream (record p { parser = q }) r

abbrev pub kill_pump : Pump → SessionError → Pump × Option PipeResult
kill_pump p e = finalize_error (record p { dead = true }) (session e)

-- Sends a control byte; a failed write kills the session, another starts stage `stage` and its timer.
abbrev pub send_control : Pump → ℕ → ℕ → Pump × Option PipeResult
send_control p byte stage =
    let (w, _, fine) = write_channel p.wire (byte ∷ []) in
    if fine
    then (record p { wire = w; cancel_stage = stage; timer_armed = true }, none)
    else kill_pump (record p { wire = w }) write_failed

abbrev pub pump_ctx_done : Pump → Pump × Option PipeResult
pump_ctx_done p =
    let q = record p { ctx_armed = false } in
    if p.ctx_armed
    then (if p.cancel_stage == 0 then send_control q 0x03 1 else (q, none))
    else (p, none)

abbrev pub pump_phase : Pump → Pump × Option PipeResult
pump_phase p =
    let q = record p { timer_armed = false } in
    if p.timer_armed
    then (if p.cancel_stage == 1
        then send_control q 0x1C 2
        else if p.cancel_stage == 2
        then kill_pump q session_dead
        else (q, none))
    else (p, none)

unfoldable pub pump_step : Pump → Event → Pump × Option PipeResult
pump_step p (chunk b) = feed_pump p b
pump_step p read_eof = kill_pump p channel_closed
pump_step p read_error = kill_pump p read_failed
pump_step p reader_closed = kill_pump p channel_closed
pump_step p ctx_done = pump_ctx_done p
pump_step p phase = pump_phase p

-- The loop ends when a step returns.
abbrev pub pump_on : Pump × Option PipeResult → Pump → Option PipeResult → Pump × Option PipeResult
pump_on rest p none = rest
pump_on rest p (some r) = (p, some r)

unfoldable pub pipe_pump : Pump → List Event → Pump × Option PipeResult
pipe_pump p [] = (p, none)
pipe_pump p (e ∷ es) = let (q, r) = pump_step p e in let rest = pipe_pump q es in pump_on rest q r

-- The state at the loop's start.
abbrev pub start_pump : StreamingParser → Wire → Pump
start_pump q w = record {
  parser = q;
  ctx_armed = true;
  cancel_stage = 0;
  timer_armed = false;
  dead = false;
  wire = w;
  closed = none;
}

-- What `Pipe` returns: a pump that runs, with the session as it was left to it, or an error.
pub data Piped : Type 0 where
  piping : Framed → Pump → Piped
  refused : Framed → RunError → Piped
  blocked : Framed → Piped

abbrev pub pipe_written : Framed → Bytes → PipeWriter → Wire × Bool → Piped
pipe_written s nonce out (w, true) =
    piping (record s { wire = w }) (start_pump (new_streaming_parser nonce out) w)
pipe_written s nonce out (w, false) = refused (record s { wire = w }) write_command

abbrev pub pipe_wrapped : Framed → Bytes → PipeWriter → Option Bytes → Piped
pipe_wrapped s nonce out none = refused s stdin_has_delimiter
pipe_wrapped s nonce out (some line) = pipe_written s nonce out (write_all s.wire line)

-- `Pipe`, behind the prelude.
abbrev pub pipe_locked : Framed → Bytes → PipeWriter → Option Bytes → Piped
pipe_locked s cmd out none = refused s nonce_failed
pipe_locked s cmd out (some nonce) = pipe_wrapped s nonce out (wrap_command cmd [] nonce)

-- `Pipe`, at what the prelude's run returned; a run that has not returned blocks the call.
abbrev pub pipe_prepared : (Framed → Piped) → Framed → Option RunResult → Option RunError → Piped
pipe_prepared next s r (some e) = refused s (in_prelude e)
pipe_prepared next s none none = blocked s
pipe_prepared next s (some r) none =
    if is_zero r.exit_code
    then next (record s { preluded = true })
    else refused s (in_prelude (prelude_exited r.exit_code r.output))

-- `Pipe`, with the nonces, the events of the prelude, and the pipe that it makes.
unfoldable pub pipe : Framed → Bytes → PipeWriter → Option Bytes × List Event → Option Bytes → Piped
pipe s cmd out (first, early) nonce =
    if s.dead
    then refused s (driven session_dead)
    else if s.preluded
    then pipe_locked s cmd out nonce
    else (let p = run_framed_locked s (prelude s.shell ++ codes "; true") [] first early in
        pipe_prepared (λ t. pipe_locked t cmd out nonce) p.session p.result p.error)
