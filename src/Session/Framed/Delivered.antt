-- ===== src/Session/Framed/Delivered.antt =====
-- A command from `runFramedLocked` to its result.
use ptyrelay.Base.{
  ℕ, ◌<◌, ◌≤◌, true, false, Bytes, List, [], ◌++◌, Option, none, some, ◌≡◌, refl, sym, ap, ◌⊎◌,
  Lacks, flatten, length, append-nil, ℤ, pos,
}
use ptyrelay.Bytes.{contains}
use ptyrelay.Session.Sentinel.{
  SentinelParser, Fed, complete, more, out_of_fuel, broken, beg_marker_of, end_marker_of,
  new_sentinel_parser, feed_all,
}
use ptyrelay.Session.Sentinel.Chunks.{observe}
use ptyrelay.Session.Sentinel.Frame.{wrapper_prints, strip_cr}
use ptyrelay.Session.Sentinel.Delivery.{feed_all-wrapper}
use ptyrelay.Session.Wrap.{wrap_command}
use ptyrelay.Session.Wire.{Wire, write_all}
use ptyrelay.Session.Drive.{Drive, RunResult, start}
use ptyrelay.Session.Drive.Output.{chunks, then_events, answer, late, drive_parser-chunks}
use ptyrelay.Session.Framed.{Framed, lift_error, driven_to, run_framed_locked}

-- The result that an observed capture stands for.
abbrev result_of : Fed × Bytes × ℤ → Option RunResult
result_of (r, out, code) = some (record { output = out; exit_code = code })

calm_error : (n : ℕ) → n ≡ 0 → lift_error (late n) ≡ none
calm_error n h = rw h refl

-- The answer of the loop to a parser that is done, when no cancellation is under way.
answer_complete :
    (s : Framed) (d : Drive) (t : SentinelParser × Fed) (out : Bytes) (code : ℤ)
    → d.cancel_stage ≡ 0
    → observe t ≡ (complete, out, code)
    → let ran = driven_to s (then_events [] (answer d t)) in
      (ran.result ≡ some (record { output = out; exit_code = code })) × (ran.error ≡ none)
answer_complete s d (q, complete) out code calm h = (ap result_of h, calm_error d.cancel_stage calm)
answer_complete s d (q, more) out code calm h = absurd (cc)
answer_complete s d (q, out_of_fuel) out code calm h = absurd (cc)
answer_complete s d (q, broken e) out code calm h = absurd (cc)

-- A command whose line was written whole, and behind whose noise the shell prints the frame of its
-- output and status, in whatever chunks: the call returns that output, less one CR at its very end, that status,
-- and no error; provided that the noise holds no BEG marker and the output no END marker, the
-- status is below 256, and there is no cap or all that was read is within it.
pub run_framed_locked-delivered :
    (s : Framed) (cmd stdin nonce line : Bytes) (w : Wire) (pre body post : Bytes) (status : ℕ)
    (cs : List Bytes)
    → wrap_command cmd stdin nonce ≡ some line
    → write_all s.wire line ≡ (w, true)
    → Lacks b'\n' nonce
    → contains pre (beg_marker_of nonce) ≡ false
    → contains body (end_marker_of nonce) ≡ false
    → status < 256
    → (s.max_output ≡ 0) ⊎ (length (flatten cs) ≤ s.max_output)
    → flatten cs ≡ pre ++ (wrapper_prints nonce body status ++ post)
    → let ran = run_framed_locked s cmd stdin (some nonce) (chunks cs) in
      (ran.result ≡ some (record { output = strip_cr body; exit_code = pos status }))
      × (ran.error ≡ none)
unfolding run_framed_locked
run_framed_locked-delivered s cmd stdin nonce line w pre body post status cs wrapped sent plain
      no_beg no_end small room e =
    let d = record (start (new_sentinel_parser nonce s.max_output) w) { dead = s.dead } in
    rw (wrapped, sent, sym (append-nil (chunks cs)), drive_parser-chunks d cs [])
      (answer_complete s d (feed_all d.parser cs) (strip_cr body) (pos status) refl (
        feed_all-wrapper nonce pre body post status s.max_output cs plain no_beg no_end small room
          e))
