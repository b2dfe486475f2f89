-- ===== src/Session/Drive/Escalate.antt =====
-- The cancellation chain: what it has sent, and why the session dies.
use ptyrelay.Base.{
  ℕ, zero, suc, ◌<◌, ◌≤◌, Bool, true, false, Bytes, List, [], ◌∷◌, ◌++◌, ltb, if◌then◌else◌, Option,
  none, some, ◌≡◌, ◌≢◌, refl, sym, arith, ◌⊎◌, inl, append_assoc, append-nil,
}
use ptyrelay.Session.Sentinel.{SentinelParser, Fed, more, complete, out_of_fuel, broken, feed}
use ptyrelay.Session.Wire.{Wire, write_channel}
use ptyrelay.Session.Drive.{
  SessionError, channel_closed, read_failed, write_failed, canceled, session_dead, protocol, Return,
  Drive, Event, chunk, ctx_done, phase, step, drive_parser, continue, start, on_fed,
}

abbrev pub interrupt : Bytes
interrupt = 0x03 ∷ []

abbrev pub quit : Bytes
quit = 0x1C ∷ []

-- The control bytes that stand for a stage of the cancellation.
abbrev pub sent_by : ℕ → List Bytes
sent_by zero = []
sent_by (suc zero) = interrupt ∷ []
sent_by (suc (suc _)) = interrupt ∷ quit ∷ []

-- What holds of the loop after it began with the writes `before`.
pub record Inv (before : List Bytes) (d : Drive) : Type 0 where
  pub stage : d.cancel_stage ≤ 2
  pub sent : d.wire.sent ≡ before ++ sent_by d.cancel_stage
  pub armed : (d.timer_armed ≡ false) ⊎ (0 < d.cancel_stage)
  pub alive : d.dead ≡ false

pub on_fed_drive : (d : Drive) (r : Fed) → (on_fed d r).0 ≡ d
on_fed_drive d more = refl
on_fed_drive d complete = refl
on_fed_drive d out_of_fuel = refl
on_fed_drive d (broken e) = refl

sent_interrupt :
    (before now : List Bytes)
    → now ≡ before ++ sent_by 0
    → now ++ interrupt ∷ [] ≡ before ++ sent_by 1
sent_interrupt before now h = rw h (append_assoc before [] (interrupt ∷ []))

sent_quit :
    (before now : List Bytes) → now ≡ before ++ sent_by 1 → now ++ quit ∷ [] ≡ before ++ sent_by 2
sent_quit before now h = rw h (append_assoc before (interrupt ∷ []) (quit ∷ []))

pub step-Inv :
    {before : List Bytes} (d : Drive) (e : Event)
    → Inv before d
    → (step d e).1 ≡ none
    → Inv before (step d e).0
unfolding step write_channel
step-Inv {before} d (chunk b) v n =
    rw (on_fed_drive (record d { parser = (feed d.parser b).0 }) (feed d.parser b).1)
      (record { stage = v.stage; sent = v.sent; armed = v.armed; alive = v.alive })
step-Inv {before} d ctx_done v n = ground (arith, sent_interrupt before d.wire.sent)
step-Inv {before} d phase v n = ground (arith, sent_quit before d.wire.sent)
step-Inv {before} d _ v n = ground arith

-- The errors with which the session does not go on.
abbrev pub is_fatal : Option SessionError → Bool
is_fatal (some channel_closed) = true
is_fatal (some read_failed) = true
is_fatal (some write_failed) = true
is_fatal (some session_dead) = true
is_fatal (some canceled) = false
is_fatal (some (protocol e)) = false
is_fatal none = false

-- What holds of the loop when it has returned `r`.
pub record Ended (before : List Bytes) (d : Drive) (r : Return) : Type 0 where
  pub wrote :
      (d.wire.sent ≡ before ++ sent_by d.cancel_stage)
      ⊎ ((r.error ≡ some write_failed) × (d.wire.sent ≡ before ++ sent_by (suc d.cancel_stage)))
  pub staged : d.cancel_stage ≤ 2
  pub dead_if_fatal : d.dead ≡ is_fatal r.error
  pub dead_after_quit :
      (r.error ≢ some session_dead) ⊎ (d.wire.sent ≡ before ++ interrupt ∷ quit ∷ [])
  pub reported :
      (r.result ≡ none) ⊎ (r.error ≡ (if ltb 0 d.cancel_stage then some canceled else none))

fed-Ended :
    {before : List Bytes} (d : Drive) (f : Fed) (r : Return)
    → Inv before d
    → (on_fed d f).1 ≡ some r
    → Ended before d r
fed-Ended {before} d complete r v e = ground arith
fed-Ended d more r v e = absurd (cc)
fed-Ended d out_of_fuel r v e = absurd (cc)
fed-Ended d (broken x) r v e = ground arith

step-Ended :
    {before : List Bytes} (d : Drive) (e : Event) (r : Return)
    → Inv before d
    → (step d e).1 ≡ some r
    → Ended before (step d e).0 r
unfolding step write_channel
step-Ended {before} d (chunk b) r v n =
    let d' = record d { parser = (feed d.parser b).0 } in
    rw (on_fed_drive d' (feed d.parser b).1) (
      fed-Ended d' (feed d.parser b).1 r
        (record { stage = v.stage; sent = v.sent; armed = v.armed; alive = v.alive }) n)
step-Ended {before} d ctx_done r v n = ground (arith, sent_interrupt before d.wire.sent)
step-Ended {before} d phase r v n = ground (arith, sent_quit before d.wire.sent)
step-Ended {before} d _ r v n = ground arith

-- What holds of the loop in both cases: it goes on, or it has returned.
abbrev pub Holds : List Bytes → Drive × Option Return → Type 0
Holds before (d, none) = Inv before d
Holds before (d, some r) = Ended before d r

step-Holds :
    {before : List Bytes} (d : Drive) (e : Event) (o : Option Return)
    → Inv before d
    → (step d e).1 ≡ o
    → Holds before ((step d e).0, o)
step-Holds d e none v n = step-Inv d e v n
step-Holds d e (some r) v n = step-Ended d e r v n

continue-Holds :
    (before : List Bytes) (rest : Drive × Option Return) (d : Drive) (o : Option Return)
    → Holds before (d, o)
    → (o ≡ none → Holds before rest)
    → Holds before (continue rest d o)
continue-Holds before rest d none h k = k refl
continue-Holds before rest d (some r) h k = h

drive_parser-Holds :
    {before : List Bytes} (d : Drive) (es : List Event)
    → Inv before d
    → Holds before (drive_parser d es)
unfolding drive_parser
drive_parser-Holds d [] v = v
drive_parser-Holds {before} d (e ∷ es) v =
    continue-Holds before (drive_parser (step d e).0 es) (step d e).0 (step d e).1
      (step-Holds d e (step d e).1 v refl)
      (λ n. drive_parser-Holds (step d e).0 es (step-Inv d e v n))

start-Inv : (p : SentinelParser) (w : Wire) → Inv w.sent (start p w)
start-Inv p w = record {
  stage = omega arith;
  sent = sym (append-nil w.sent);
  armed = inl refl;
  alive = refl;
}

-- Along every sequence of events the loop sends ^C before ^\, each of them once at most. When it
-- returns, the session is dead exactly if the error is a closed channel, a failed read or write, or
-- a dead session; a dead session has been sent both; and a result comes with `ErrCanceled` exactly
-- if the cancellation was under way.
pub drive_parser-start :
    (p : SentinelParser) (w : Wire) (es : List Event) → Holds w.sent (drive_parser (start p w) es)
drive_parser-start p w es = drive_parser-Holds (start p w) es (start-Inv p w)
