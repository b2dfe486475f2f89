-- ===== src/Session/Pump/Agrees.antt =====
-- The pump of a pipe and the loop of a framed command do the same to the session.
use ptyrelay.Base.{
  ℕ, Bool, true, false, Bytes, ℤ, pos, List, [], ◌∷◌, ◌==◌, ltb, if◌then◌else◌, Option, none, some,
  map_option, ◌≡◌, ◌≢◌, refl, ap, inl, inr, Bool-cases, Lacks,
}
use ptyrelay.Session.Sentinel.{Fed, more, complete, out_of_fuel, broken, feed, new_sentinel_parser}
use ptyrelay.Session.Sentinel.Chunks.{feed-ne-out_of_fuel}
use ptyrelay.Session.Wire.{Wire, write_channel}
use ptyrelay.Session.Drive.{
  canceled, RunResult, Return, Drive, Event, chunk, read_eof, read_error, reader_closed, ctx_done,
  phase, step, drive_parser, start, on_fed, escalate, continue,
}
use ptyrelay.Session.Streaming.{new_streaming_parser, StreamingParser, stream_feed}
use ptyrelay.Session.Streaming.Similar.{Alike, IsPlain}
use ptyrelay.Session.Streaming.Feed.{feed-SameFeed}
use ptyrelay.Session.Streaming.Fresh.{fresh_pipe, fresh-IsPlain, fresh-Alike}
use ptyrelay.Session.Pump.{
  PumpError, session, PipeResult, Pump, on_stream, send_control, pump_step, pump_on, pipe_pump,
  start_pump,
}

-- The same outcome of a command, without its output.
abbrev exit_code_of : Option RunResult → ℤ
exit_code_of none = pos 0
exit_code_of (some r) = r.exit_code

abbrev pub piped : Return → PipeResult
piped r = record { exit_code = exit_code_of r.result; err = map_option session r.error }

-- How the writer of the pipe is closed: with no error if the command ended.
abbrev pub closed_with : Option Return → Option (Option PumpError)
closed_with none = none
closed_with (some r) = some (elim r.result [ some _ ↦ none | none ↦ map_option session r.error ])

abbrev Whatever : Bytes → Type 0
Whatever b = Unit

-- The pump with parser `q` whose other variables are those of the loop.
abbrev mirror : Drive → StreamingParser → Option Return → Pump
mirror d q o = record {
  parser = q;
  ctx_armed = d.ctx_armed;
  cancel_stage = d.cancel_stage;
  timer_armed = d.timer_armed;
  dead = d.dead;
  wire = d.wire;
  closed = closed_with o;
}

abbrev Ready : Drive → StreamingParser → Type 0
Ready d q = IsPlain d.parser × Alike Whatever d.parser q

-- The pump returns what the loop returns, and leaves what the loop leaves.
abbrev SameOutcome : Drive × Option Return → Pump × Option PipeResult → Type 0
SameOutcome (d, o) (u, o') =
    (q : StreamingParser) × (u ≡ mirror d q o) × (o' ≡ map_option piped o) × (o ≡ none → Ready d q)

reported_cancel :
    (b : Bool)
    → (if b then some (session canceled) else none)
      ≡ map_option session (if b then some canceled else none)
reported_cancel true = refl
reported_cancel false = refl

on_stream-SameOutcome :
    (d : Drive) (q : StreamingParser) (r : Fed)
    → r ≢ out_of_fuel
    → q.exit_code ≡ d.parser.exit_code
    → (r ≡ more → Ready d q)
    → SameOutcome (on_fed d r) (on_stream (mirror d q none) (some r))
on_stream-SameOutcome d q more n c k = (q, refl, refl, λ e. k refl)
on_stream-SameOutcome d q complete n c k = (
  q,
  refl,
  λ i. some (record { exit_code = c i; err = reported_cancel (ltb 0 d.cancel_stage) i }),
  λ e. absurd (cc),
)
on_stream-SameOutcome d q out_of_fuel n c k = absurd (n refl)
on_stream-SameOutcome d q (broken e) n c k = (q, refl, refl, λ e. absurd (cc))

chunk-SameOutcome :
    (d : Drive) (q : StreamingParser) (b : Bytes)
    → Ready d q
    → SameOutcome (step d (chunk b)) (pump_step (mirror d q none) (chunk b))
unfolding step pump_step
chunk-SameOutcome d q b (v, a) =
    let (o, alike, on, _) =
      feed-SameFeed Whatever (λ p. Unit {0}) (λ x y e j. tt) (λ x y e j. tt) (λ x i j e f. tt)
        d.parser q b v a tt in
    rw o (
      on_stream-SameOutcome (record d { parser = (feed d.parser b).0 }) (stream_feed q b).0
        (feed d.parser b).1 (feed-ne-out_of_fuel d.parser b) alike.common.2
        (λ e. ((on e).0, alike)))

escalate-SameOutcome :
    (d : Drive) (q : StreamingParser) (byte stage : ℕ)
    → Ready d q
    → SameOutcome (escalate d byte stage) (send_control (mirror d q none) byte stage)
escalate-SameOutcome d q byte stage k = elim (Bool-cases (write_channel d.wire (byte ∷ [])).2) [
  | inl fine ↦ rw fine (q, refl, refl, λ e. k)
  | inr bad ↦ rw bad (q, refl, refl, λ e. absurd (cc))
]

ctx_done-SameOutcome :
    (d : Drive) (q : StreamingParser)
    → Ready d q
    → SameOutcome (step d ctx_done) (pump_step (mirror d q none) ctx_done)
unfolding step pump_step
ctx_done-SameOutcome d q k = elim (Bool-cases d.ctx_armed) [
  | inl armed ↦ elim (Bool-cases (d.cancel_stage == 0)) [
    | inl first ↦
        simp (armed, first) (escalate-SameOutcome (record d { ctx_armed = false }) q 0x03 1 k)
    | inr later ↦ simp (armed, later) (q, refl, refl, λ e. k)
  ]
  | inr off ↦ simp off (q, refl, refl, λ e. k)
]

phase-SameOutcome :
    (d : Drive) (q : StreamingParser)
    → Ready d q
    → SameOutcome (step d phase) (pump_step (mirror d q none) phase)
unfolding step pump_step
phase-SameOutcome d q k = elim (Bool-cases d.timer_armed) [
  | inl armed ↦ elim (Bool-cases (d.cancel_stage == 1)) [
    | inl first ↦
        simp (armed, first) (escalate-SameOutcome (record d { timer_armed = false }) q 0x1C 2 k)
    | inr later ↦ elim (Bool-cases (d.cancel_stage == 2)) [
      | inl second ↦ simp (armed, later, second) (q, refl, refl, λ e. absurd (cc))
      | inr neither ↦ simp (armed, later, neither) (q, refl, refl, λ e. k)
    ]
  ]
  | inr off ↦ simp off (q, refl, refl, λ e. k)
]

step-SameOutcome :
    (d : Drive) (q : StreamingParser) (e : Event)
    → Ready d q
    → SameOutcome (step d e) (pump_step (mirror d q none) e)
step-SameOutcome d q (chunk b) k = chunk-SameOutcome d q b k
step-SameOutcome d q read_eof k = unfold step pump_step in (q, refl, refl, λ e. absurd (cc))
step-SameOutcome d q read_error k = unfold step pump_step in (q, refl, refl, λ e. absurd (cc))
step-SameOutcome d q reader_closed k = unfold step pump_step in (q, refl, refl, λ e. absurd (cc))
step-SameOutcome d q ctx_done k = ctx_done-SameOutcome d q k
step-SameOutcome d q phase k = phase-SameOutcome d q k

-- The loops go on after a step, or end with it.
continue-SameOutcome :
    (d : Drive) (u : Pump) (o : Option Return) (o' : Option PipeResult)
    (rest : Drive × Option Return) (later : Pump × Option PipeResult)
    → SameOutcome (d, o) (u, o')
    → ((q : StreamingParser) → u ≡ mirror d q none → Ready d q → SameOutcome rest later)
    → SameOutcome (continue rest d o) (pump_on later u o')
continue-SameOutcome d u none o' rest later (q, e, f, k) h = rw f (h q e (k refl))
continue-SameOutcome d u (some r) o' rest later (q, e, f, k) h = rw f (q, e, refl, λ x. absurd (cc))

run-SameOutcome :
    (d : Drive) (q : StreamingParser) (es : List Event)
    → Ready d q
    → SameOutcome (drive_parser d es) (pipe_pump (mirror d q none) es)
unfolding drive_parser pipe_pump
run-SameOutcome d q [] k = (q, refl, refl, λ e. k)
run-SameOutcome d q (e ∷ es) k =
    continue-SameOutcome (step d e).0 (pump_step (mirror d q none) e).0 (step d e).1
      (pump_step (mirror d q none) e).1 _ _ (step-SameOutcome d q e k)
      λ q' same ready. rw same (run-SameOutcome (step d e).0 q' es ready)

fresh-Ready :
    (nonce : Bytes) (w : Wire)
    → Lacks b'\n' nonce
    → Ready (start (new_sentinel_parser nonce 0) w) (new_streaming_parser nonce fresh_pipe)
unfolding new_sentinel_parser new_streaming_parser
fresh-Ready nonce w plain = (fresh-IsPlain nonce plain, fresh-Alike nonce)

-- For the same events and the same channel, and where the reader of the pipe does not close, the pump
-- writes the same control bytes, declares the session dead in the same cases, reports the exit code and the
-- error of the loop of a framed command without a cap, and has closed the pipe exactly if it has returned: with no
-- error if the command ended, with the reported one if not. The nonce stays in one line.
pub pipe_pump-drive_parser :
    (nonce : Bytes) (w : Wire) (es : List Event)
    → Lacks b'\n' nonce
    → let (d, o) = drive_parser (start (new_sentinel_parser nonce 0) w) es in
      let (u, r) = pipe_pump (start_pump (new_streaming_parser nonce fresh_pipe) w) es in
      (r ≡ map_option piped o) × (u.wire ≡ d.wire) × (u.dead ≡ d.dead) × (u.closed ≡ closed_with o)
pipe_pump-drive_parser nonce w es plain =
    let p = new_sentinel_parser nonce 0 in
    let q = new_streaming_parser nonce fresh_pipe in
    let (_, e, f, _) = run-SameOutcome (start p w) q es (fresh-Ready nonce w plain) in
    (f, ap (λ (u : Pump). u.wire) e, ap (λ (u : Pump). u.dead) e, ap (λ (u : Pump). u.closed) e)
