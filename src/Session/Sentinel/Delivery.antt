-- ===== src/Session/Sentinel/Delivery.antt =====
-- A framed command, from the bytes that its wrapper prints to the result that the parser reports.
use ptyrelay.Base.{
  ℕ, ◌<◌, ◌≤◌, true, false, Bytes, List, ◌++◌, ◌∷◌, flatten, length, ◌≡◌, sym, ap, ◌∙◌, arith, ◌⊎◌,
  inl, inr, none, Lacks, pos,
}
use ptyrelay.Bytes.{contains, index}
use ptyrelay.Session.Sentinel.{
  SentinelParser, Fed, over_cap, advance_in, capturing, failed, new_sentinel_parser, feed_all, feed,
  complete, broken, output_exceeded, beg_marker_of, end_marker_of,
}
use ptyrelay.Bytes.Index.{contains-index}
use ptyrelay.Session.Sentinel.Advance.{push}
use ptyrelay.Session.Sentinel.Status.{printf_d}
use ptyrelay.Session.Sentinel.Markers.{Lacks-beg_marker, length-beg_marker}
use ptyrelay.Session.Sentinel.Uncapped.{feed_all-uncap}
use ptyrelay.Session.Sentinel.Chunks.{observe, Runs, next, break, Runs-feed_loop}
use ptyrelay.Session.Sentinel.Frame.{
  wrapper_prints, strip_cr, feed_all-frame, frame, wrapper_prints-frame, advance_beg,
}

-- The parser gives back the output and the exit status of a command whose wrapper has run, from
-- whatever chunks the channel delivers and whatever stands before and behind the frame. The
-- nonce stays in one line, the BEG marker does not occur before the frame nor the END marker in
-- the output, and there is no cap or the whole stream is within it. One CR at the end of the
-- output is lost.
pub feed_all-wrapper :
    (nonce pre body post : Bytes) (status cap : ℕ) (chunks : List Bytes)
    → Lacks b'\n' nonce
    → contains pre (beg_marker_of nonce) ≡ false
    → contains body (end_marker_of nonce) ≡ false
    → status < 256
    → (cap ≡ 0) ⊎ (length (flatten chunks) ≤ cap)
    → flatten chunks ≡ pre ++ (wrapper_prints nonce body status ++ post)
    → observe (feed_all (new_sentinel_parser nonce cap) chunks)
      ≡ (complete, strip_cr body, pos status)
unfolding new_sentinel_parser
feed_all-wrapper nonce pre body post status cap chunks plain no_beg no_end small (inl none_set) e =
    rw none_set (feed_all-frame nonce pre body post status chunks plain no_beg no_end small e)
feed_all-wrapper nonce pre body post status cap chunks plain no_beg no_end small (inr room) e =
    let p = new_sentinel_parser nonce cap in
    ap observe (sym (feed_all-uncap p chunks (omega arith)))
    ∙ feed_all-frame nonce pre body post status chunks plain no_beg no_end small e

capturing_over :
    (p : SentinelParser)
    → over_cap p (length p.buf) ≡ true
    → advance_in capturing p ≡ (p, failed (output_exceeded p.max_output))
unfolding advance_in
capturing_over p h = rw h

module _ (nonce pre body post : Bytes) (status cap : ℕ) where
  -- What stands in the buffer behind the BEG line when the frame comes in one piece.
  abbrev pub captured : Bytes
  captured = body ++ b'\n' ∷ (end_marker_of nonce ++ (printf_d status ++ b'\n' ∷ post))

  frame_over_cap :
      Lacks b'\n' nonce
      → index pre (beg_marker_of nonce) ≡ none
      → 0 < cap
      → cap < length captured
      → (q : SentinelParser) × Runs
          (push (new_sentinel_parser nonce cap) (frame nonce pre body post status))
          q
          (broken (output_exceeded cap))
  unfolding new_sentinel_parser
  frame_over_cap plain no_beg set over =
      let p = new_sentinel_parser nonce cap in
      let found = record p { buf = captured; state = capturing } in
      (
        found,
        next
            (advance_beg p pre captured (Lacks-beg_marker b'\n' nonce (omega arith) plain)
              (omega (arith, length-beg_marker nonce)) no_beg)
            (break (capturing_over found (ground arith))),
      )

  -- The cap is compared with all that is buffered behind the BEG line: the output, the END line and
  -- whatever follows it. A frame that comes in one piece and holds more than the cap there is
  -- refused, also where the output alone is within the cap.
  pub feed-over_cap :
      Lacks b'\n' nonce
      → contains pre (beg_marker_of nonce) ≡ false
      → 0 < cap
      → cap < length captured
      → (feed (new_sentinel_parser nonce cap) (pre ++ (wrapper_prints nonce body status ++ post))).1
        ≡ broken (output_exceeded cap)
  unfolding feed new_sentinel_parser
  feed-over_cap plain no_beg set over =
      let (q, ran) =
        frame_over_cap plain (contains-index pre (beg_marker_of nonce) no_beg) set over in
      rw (wrapper_prints-frame nonce pre body post status)
        (ap (λ (x : SentinelParser × Fed). x.1) (Runs-feed_loop 4 ran (omega arith)))
