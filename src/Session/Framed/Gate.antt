-- ===== src/Session/Framed/Gate.antt =====
-- What `RunFramed` sends depends on the exit of the prelude.
use ptyrelay.Base.{
  Bool, true, false, Bytes, List, ◌++◌, Option, none, some, ◌≡◌, refl, ◌∙◌, ◌⊎◌, inl, inr,
  Bool-cases, codes, [],
}
use ptyrelay.Session.Wire.{Wire, write_all}
use ptyrelay.Session.Wrap.{wrap_command}
use ptyrelay.Session.Sentinel.{new_sentinel_parser}
use ptyrelay.Session.Drive.{RunResult, Return, Drive, Event, drive_parser, start}
use ptyrelay.Session.Framed.{
  Framed, Ran, RunError, driven_to, run_framed_locked, run_wrapped, drive_written, after_prelude,
  is_zero, run_framed, prelude,
}

driven_to-preluded :
    (s : Framed) (t : Drive × Option Return) → (driven_to s t).session.preluded ≡ s.preluded
driven_to-preluded s (d, none) = refl
driven_to-preluded s (d, some r) = refl

drive_written-preluded :
    (s : Framed) (nonce : Bytes) (es : List Event) (t : Wire × Bool)
    → (drive_written s nonce es t).session.preluded ≡ s.preluded
drive_written-preluded s nonce es (w, true) =
    driven_to-preluded s (
      drive_parser (record (start (new_sentinel_parser nonce s.max_output) w) { dead = s.dead }) es)
drive_written-preluded s nonce es (w, false) = refl

run_wrapped-preluded :
    (s : Framed) (nonce : Bytes) (es : List Event) (line : Option Bytes)
    → (run_wrapped s nonce es line).session.preluded ≡ s.preluded
run_wrapped-preluded s nonce es none = refl
run_wrapped-preluded s nonce es (some line) =
    drive_written-preluded s nonce es (write_all s.wire line)

run_framed_locked-preluded :
    (s : Framed) (cmd stdin : Bytes) (nonce : Option Bytes) (es : List Event)
    → (run_framed_locked s cmd stdin nonce es).session.preluded ≡ s.preluded
unfolding run_framed_locked
run_framed_locked-preluded s cmd stdin none es = refl
run_framed_locked-preluded s cmd stdin (some nonce) es =
    run_wrapped-preluded s nonce es (wrap_command cmd stdin nonce)

after_prelude-gate :
    (next other : Framed → Ran) (s : Framed) (r : Option RunResult) (e : Option RunError)
    → ((t : Framed) → (next t).session.preluded ≡ t.preluded)
    → (after_prelude next s r e).session.preluded ≡ false
    → (after_prelude other s r e ≡ after_prelude next s r e)
      × ((after_prelude next s r e).result ≡ none)
after_prelude-gate next other s r (some e) keeps = λ h. (refl, refl)
after_prelude-gate next other s none none keeps = λ h. (refl, refl)
after_prelude-gate next other s (some r) none keeps = elim (Bool-cases (is_zero r.exit_code)) [
  | inl passed ↦ rw passed (λ h. absurd (let k = keeps (record s { preluded = true }) in cc))
  | inr failed ↦ rw failed (λ h. (refl, refl))
]

-- A session that is not prepared when the call ends has not been sent the command of the call.
run_framed-unprepared :
    (s : Framed) (cmd stdin other input : Bytes) (first call calls : Option Bytes × List Event)
    → let ran = run_framed s cmd stdin first call in
      ran.session.preluded ≡ false
      → (run_framed s other input first calls ≡ ran) × (ran.result ≡ none)
unfolding run_framed
run_framed-unprepared s cmd stdin other input (a, early) (n, es) (n', es') =
    elim (Bool-cases s.dead) [
      | inl dead ↦ rw dead (λ h. (refl, refl))
      | inr live ↦ elim (Bool-cases s.preluded) [
        | inl ready ↦
            rw (live, ready)
              (λ h. absurd (
                let k =
                  run_framed_locked-preluded (record s { dead = false; preluded = true }) cmd stdin
                    n es in
                cc))
        | inr fresh ↦
            let t = record s { dead = false; preluded = false } in
            let p = run_framed_locked t (prelude s.shell ++ codes "; true") [] a early in
            rw (live, fresh)
              (after_prelude-gate (λ u. run_framed_locked u cmd stdin n es)
                (λ u. run_framed_locked u other input n' es') p.session p.result p.error
                (λ u. run_framed_locked-preluded u cmd stdin n es))
      ]
    ]

-- The prelude's run has a result, with exit code 0.
abbrev pub passed : Option RunResult → Bool
passed none = false
passed (some r) = is_zero r.exit_code

-- The prelude's run, as `RunFramed` makes it.
abbrev pub prelude_run : Framed → Option Bytes × List Event → Ran
prelude_run s (nonce, es) = run_framed_locked s (prelude s.shell ++ codes "; true") [] nonce es

after_prelude_failed :
    (next : Framed → Ran) (s : Framed) (r : Option RunResult) (e : Option RunError)
    → s.preluded ≡ false
    → passed r ≡ false
    → (after_prelude next s r e).session.preluded ≡ false
after_prelude_failed next s r (some e) h p = h
after_prelude_failed next s none none h p = h
after_prelude_failed next s (some r) none h p = rw p h

run_framed_failed :
    (s : Framed) (cmd stdin : Bytes) (first call : Option Bytes × List Event)
    → s.preluded ≡ false
    → passed (prelude_run s first).result ≡ false
    → (run_framed s cmd stdin first call).session.preluded ≡ false
unfolding run_framed
run_framed_failed s cmd stdin (a, early) (n, es) h p = elim (Bool-cases s.dead) [
  | inl dead ↦ rw dead h
  | inr live ↦
      let q = prelude_run s (a, early) in
      simp (live, h)
        (after_prelude_failed (λ u. run_framed_locked u cmd stdin n es) q.session q.result q.error
          (run_framed_locked-preluded s (prelude s.shell ++ codes "; true") [] a early ∙ h) p)
]

-- If the prelude's run has no result with exit code 0 for a session that is not prepared, or the
-- session is not prepared when the call ends, then the call's command was not sent: another
-- command, with any input, nonce and events, would have left the same, and there is no result.
pub run_framed-gate :
    (s : Framed) (cmd stdin other input : Bytes) (first call calls : Option Bytes × List Event)
    → let ran = run_framed s cmd stdin first call in
      (ran.session.preluded ≡ false)
        ⊎ ((s.preluded ≡ false) × (passed (prelude_run s first).result ≡ false))
      → (run_framed s other input first calls ≡ ran) × (ran.result ≡ none)
run_framed-gate s cmd stdin other input first call calls (inl h) =
    run_framed-unprepared s cmd stdin other input first call calls h
run_framed-gate s cmd stdin other input first call calls (inr (h, p)) =
    run_framed-unprepared s cmd stdin other input first call calls
      (run_framed_failed s cmd stdin first call h p)
