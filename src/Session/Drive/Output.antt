-- ===== src/Session/Drive/Output.antt =====
-- What the loop returns when no cancellation is under way, and that a cancelled command ends.
use ptyrelay.Base.{
  ℕ, zero, suc, true, false, Bytes, List, [], ◌∷◌, ◌++◌, Option, none, some, ◌≡◌, ◌≢◌, refl, arith,
  inl, inr, map, Bool-cases, ltb, if◌then◌else◌, ap, ◌∙◌,
}
use ptyrelay.Session.Sentinel.{
  SentinelParser, Fed, more, complete, out_of_fuel, broken, feed, feed_all, feed_next,
}
use ptyrelay.Session.Sentinel.Chunks.{feed-ne-out_of_fuel}
use ptyrelay.Session.Wire.{Wire, write_channel}
use ptyrelay.Session.Drive.{
  Return, Drive, Event, chunk, ctx_done, phase, step, drive_parser, continue, start, on_fed,
  escalate, SessionError, canceled, protocol,
}

-- The reader's chunks, as events.
abbrev pub chunks : List Bytes → List Event
chunks = map chunk

-- What is reported beside a result, by the stage of the cancellation.
abbrev pub late : ℕ → Option SessionError
late zero = none
late (suc stage) = some canceled

-- The answer of the loop to what the parser answered to all chunks: it goes on, or returns the output and exit
-- code that the parser holds, or the parser's error and no result. Nothing but the parser changes.
abbrev pub answer : Drive → SentinelParser × Fed → Drive × Option Return
answer d (q, more) = (record d { parser = q }, none)
answer d (q, out_of_fuel) = (record d { parser = q }, none)
answer d (q, complete) = (
  record d { parser = q },
  some (record {
    result = some (record { output = q.output; exit_code = q.exit_code });
    error = late d.cancel_stage;
  }),
)
answer d (q, broken e) =
    (record d { parser = q }, some (record { result = none; error = some (protocol e) }))

late_lem : (stage : ℕ) → (if ltb 0 stage then some canceled else none) ≡ late stage
late_lem zero = refl
late_lem (suc stage) =
    let some_stage : ltb 0 (suc stage) ≡ true = ground arith in rw some_stage refl

on_fed-answer :
    (d : Drive) (q : SentinelParser) (r : Fed)
    → on_fed (record d { parser = q }) r ≡ answer d (q, r)
on_fed-answer d q more = refl
on_fed-answer d q complete =
    ap
      (λ (e : Option SessionError). (
        record d { parser = q },
        some (record {
          result = some (record { output = q.output; exit_code = q.exit_code });
          error = e;
        }),
      ))
      (late_lem d.cancel_stage)
on_fed-answer d q out_of_fuel = refl
on_fed-answer d q (broken e) = refl

-- The events behind those chunks are reached only if the parser wants more.
abbrev pub then_events : List Event → Drive × Option Return → Drive × Option Return
then_events es (d, none) = drive_parser d es
then_events es (d, some r) = (d, some r)

continue_chunks :
    (d : Drive) (q : SentinelParser) (r : Fed) (rest : SentinelParser × Fed) (es later : List Event)
    → r ≢ out_of_fuel
    → drive_parser (record d { parser = q }) later
      ≡ then_events es (answer (record d { parser = q }) rest)
    → let (u, o) = answer d (q, r) in
      continue (drive_parser u later) u o ≡ then_events es (answer d (feed_next rest q r))
continue_chunks d q more rest es later n h = h
continue_chunks d q complete rest es later n h = refl
continue_chunks d q out_of_fuel rest es later n h = absurd (n refl)
continue_chunks d q (broken e) rest es later n h = refl

-- Chunks that come while nothing else happens are fed to the parser, as `feed_all` does: the loop goes on with the
-- later events if the parser wants more; it returns the parser's output and exit code, with `ErrCanceled`
-- beside them if a cancellation is under way and no error if none is; or it returns the parser's error alone.
pub drive_parser-chunks :
    (d : Drive) (cs : List Bytes) (es : List Event)
    → drive_parser d (chunks cs ++ es) ≡ then_events es (answer d (feed_all d.parser cs))
unfolding drive_parser feed_all step
drive_parser-chunks d [] es = refl
drive_parser-chunks d (c ∷ cs) es =
    let q = (feed d.parser c).0 in
    ap (λ (p : Drive × Option Return). continue (drive_parser p.0 (chunks cs ++ es)) p.0 p.1)
      (on_fed-answer d q (feed d.parser c).1)
    ∙ continue_chunks d q (feed d.parser c).1 (feed_all q cs) es (chunks cs ++ es)
        (feed-ne-out_of_fuel d.parser c) (drive_parser-chunks (record d { parser = q }) cs es)

-- The loop has returned.
abbrev pub Returns : Drive × Option Return → Type 0
Returns (d, r) = r ≢ none

answer-Returns :
    (d : Drive) (es : List Event) (q : SentinelParser) (r : Fed)
    → ((p : SentinelParser) → Returns (drive_parser (record d { parser = p }) es))
    → Returns (then_events es (answer d (q, r)))
answer-Returns d es q more h = h q
answer-Returns d es q out_of_fuel h = h q
answer-Returns d es q complete h = λ e. cc
answer-Returns d es q (broken x) h = λ e. cc

chunks-Returns :
    (d : Drive) (cs : List Bytes) (es : List Event)
    → ((p : SentinelParser) → Returns (drive_parser (record d { parser = p }) es))
    → Returns (drive_parser d (chunks cs ++ es))
chunks-Returns d cs es h =
    rw (drive_parser-chunks d cs es)
      (answer-Returns d es (feed_all d.parser cs).0 (feed_all d.parser cs).1 h)

-- A control byte that cannot be sent ends the loop; another starts its stage.
escalate-Returns :
    (d : Drive) (byte stage : ℕ) (es : List Event)
    → ((u : Drive) → u.cancel_stage ≡ stage → u.timer_armed ≡ true → Returns (drive_parser u es))
    → let (u, o) = escalate d byte stage in Returns (continue (drive_parser u es) u o)
escalate-Returns d byte stage es h = elim (Bool-cases (write_channel d.wire (byte ∷ [])).2) [
  | inl fine ↦ rw fine (h _ refl refl)
  | inr failed ↦ rw failed (λ e. cc)
]

-- The second phase ends the loop.
phase_two-Returns :
    (d : Drive) (es : List Event)
    → d.cancel_stage ≡ 2
    → d.timer_armed ≡ true
    → Returns (drive_parser d (phase ∷ es))
unfolding drive_parser step
phase_two-Returns d es s t = rw (s, t) (λ e. cc)

step-phase_one :
    (d : Drive)
    → d.cancel_stage ≡ 1
    → d.timer_armed ≡ true
    → step d phase ≡ escalate (record d { timer_armed = false }) 0x1C 2
unfolding step
step-phase_one d s t = simp (s, t)

step-ctx_done :
    (d : Drive)
    → d.cancel_stage ≡ 0
    → d.ctx_armed ≡ true
    → step d ctx_done ≡ escalate (record d { ctx_armed = false }) 0x03 1
unfolding step
step-ctx_done d s t = simp (s, t)

-- The first phase ends it, or starts the second.
phase_one-Returns :
    (d : Drive) (es : List Event)
    → d.cancel_stage ≡ 1
    → d.timer_armed ≡ true
    → ((u : Drive) → u.cancel_stage ≡ 2 → u.timer_armed ≡ true → Returns (drive_parser u es))
    → Returns (drive_parser d (phase ∷ es))
unfolding drive_parser
phase_one-Returns d es s t h =
    rw (step-phase_one d s t) (escalate-Returns (record d { timer_armed = false }) 0x1C 2 es h)

ctx_done-Returns :
    (d : Drive) (es : List Event)
    → d.cancel_stage ≡ 0
    → d.ctx_armed ≡ true
    → ((u : Drive) → u.cancel_stage ≡ 1 → u.timer_armed ≡ true → Returns (drive_parser u es))
    → Returns (drive_parser d (ctx_done ∷ es))
unfolding drive_parser
ctx_done-Returns d es s t h =
    rw (step-ctx_done d s t) (escalate-Returns (record d { ctx_armed = false }) 0x03 1 es h)

-- A cancelled command ends: after the end of the context and two phases the loop has returned,
-- whatever chunks come in between, and whichever writes fail.
pub drive_parser_cancelled :
    (p : SentinelParser) (w : Wire) (before soft hard : List Bytes) (es : List Event)
    → Returns (
        drive_parser
          (start p w)
          (chunks before ++ ctx_done ∷ (chunks soft ++ phase ∷ (chunks hard ++ phase ∷ es))))
drive_parser_cancelled p w before soft hard es = chunks-Returns (start p w) before _ λ a.
    ctx_done-Returns (record (start p w) { parser = a }) _ refl refl
      λ d s t. chunks-Returns d soft _ λ b.
        phase_one-Returns (record d { parser = b }) _ s t
          λ u s' t'.
            chunks-Returns u hard _ λ c. phase_two-Returns (record u { parser = c }) es s' t'
