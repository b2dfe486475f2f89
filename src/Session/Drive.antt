-- ===== src/Session/Drive.antt =====
-- `driveParser` of pkg/session/framed.go: the loop that feeds the parser from the session's reader,
-- and that escalates from ^C to ^\ to a dead session when the caller's context ends. The `select` of
-- the loop is a list of events; an event whose channel is nil or not armed there does nothing.
pub mod Escalate
pub mod Output
use ptyrelay.Base.{
  ℕ, zero, suc, ◌+◌, Bool, true, false, ◌&&◌, Bytes, ℤ, List, [], ◌∷◌, ◌++◌, ◌==◌, ltb,
  if◌then◌else◌, Option, none, some,
}
use ptyrelay.Session.Sentinel.{
  ProtocolError, SentinelParser, Fed, more, complete, out_of_fuel, broken, feed,
}
use ptyrelay.Session.Wire.{Wire, write_channel}

-- The errors of the session: `ErrChannelClosed`, a failed read, an error that wraps `ErrProtocol`, a
-- failed write, `ErrCanceled` and `ErrSessionDead`.
pub data SessionError : Type 0 where
  channel_closed read_failed write_failed canceled session_dead : SessionError
  protocol : ProtocolError → SessionError

-- `Result`, less its duration.
pub record RunResult : Type 0 where
  pub output : Bytes
  pub exit_code : ℤ

-- `(*Result, error)`.
pub record Return : Type 0 where
  pub result : Option RunResult
  pub error : Option SessionError

-- The variables of the loop, and what it changes of the session.
pub record Drive : Type 0 where
  pub parser : SentinelParser
  pub ctx_armed : Bool
  pub cancel_stage : ℕ
  pub timer_armed : Bool
  pub dead : Bool
  pub wire : Wire

-- What `select` may receive: a chunk of the reader, its error (`io.EOF` or another), the closed
-- reader, the end of the context, and the end of the phase.
pub data Event : Type 0 where
  chunk : Bytes → Event
  read_eof read_error reader_closed ctx_done phase : Event

abbrev pub fail_with : SessionError → Option Return
fail_with e = some (record { result = none; error = some e })

-- The parser is done: a cancellation that was under way is reported beside the result.
abbrev pub deliver : Drive → Option Return
deliver d = some (record {
  result = some (record { output = d.parser.output; exit_code = d.parser.exit_code });
  error = if ltb 0 d.cancel_stage then some canceled else none;
})

-- What the loop does on the parser's answer; the last clause is never met.
abbrev pub on_fed : Drive → Fed → Drive × Option Return
on_fed d more = (d, none)
on_fed d complete = (d, deliver d)
on_fed d (broken e) = (d, fail_with (protocol e))
on_fed d out_of_fuel = (d, none)

abbrev pub feed_drive : Drive → Bytes → Drive × Option Return
feed_drive d b = let (q, r) = feed d.parser b in on_fed (record d { parser = q }) r

-- Sends a control byte; a failed write kills the session, another starts stage `stage` and its timer.
abbrev pub escalate : Drive → ℕ → ℕ → Drive × Option Return
escalate d byte stage =
    let (w, _, fine) = write_channel d.wire (byte ∷ []) in
    if fine
    then (record d { wire = w; cancel_stage = stage; timer_armed = true }, none)
    else (record d { wire = w; dead = true }, fail_with write_failed)

abbrev pub kill : Drive → SessionError → Drive × Option Return
kill d e = (record d { dead = true }, fail_with e)

abbrev pub on_ctx_done : Drive → Drive × Option Return
on_ctx_done d =
    let e = record d { ctx_armed = false } in
    if d.ctx_armed
    then (if d.cancel_stage == 0 then escalate e 0x03 1 else (e, none))
    else (d, none)

abbrev pub on_phase : Drive → Drive × Option Return
on_phase d =
    let e = record d { timer_armed = false } in
    if d.timer_armed
    then (if d.cancel_stage == 1
        then escalate e 0x1C 2
        else if d.cancel_stage == 2
        then kill e session_dead
        else (e, none))
    else (d, none)

unfoldable pub step : Drive → Event → Drive × Option Return
step d (chunk b) = feed_drive d b
step d read_eof = kill d channel_closed
step d read_error = kill d read_failed
step d reader_closed = kill d channel_closed
step d ctx_done = on_ctx_done d
step d phase = on_phase d

-- The loop ends when a step returns.
abbrev pub continue : Drive × Option Return → Drive → Option Return → Drive × Option Return
continue rest d none = rest
continue rest d (some r) = (d, some r)

unfoldable pub drive_parser : Drive → List Event → Drive × Option Return
drive_parser d [] = (d, none)
drive_parser d (e ∷ es) =
    let (d', r) = step d e in let rest = drive_parser d' es in continue rest d' r

-- The state at the loop's start. The context can end if it is not the background context.
abbrev pub start : SentinelParser → Wire → Drive
start p w = record {
  parser = p;
  ctx_armed = true;
  cancel_stage = 0;
  timer_armed = false;
  dead = false;
  wire = w;
}
