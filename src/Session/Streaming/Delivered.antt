-- ===== src/Session/Streaming/Delivered.antt =====
-- A framed command, from the bytes that its wrapper prints to what the pipe's reader is given.
use ptyrelay.Base.{
  ℕ, suc, ◌<◌, false, Bytes, List, [], ◌∷◌, ◌++◌, ◌≡◌, refl, sym, ap, ◌∙◌, arith, append_assoc,
  Option, none, some, length, take, inl, flatten, Lacks, ℤ, pos, take-length, take-append,
  length-append,
}
use ptyrelay.Bytes.{index, contains}
use ptyrelay.Bytes.Index.{index-append, index_bound, index-marker, contains-index}
use ptyrelay.Session.Sentinel.{
  ParseState, before_beg, capturing, streaming, reading_exit_code, done, SentinelParser, Outcome,
  progressed, waiting, finished, failed, advance, advance_in, Fed, more, complete, out_of_fuel,
  broken, feed, feed_all, feed_next, new_sentinel_parser, beg_marker_of, end_marker_of,
}
use ptyrelay.Session.Sentinel.Advance.{push, advance-Extends, Extends}
use ptyrelay.Session.Sentinel.Chunks.{advance-Keeps, push-push}
use ptyrelay.Session.Sentinel.Frame.{wrapper_prints, wrapper_prints-frame, advance_beg}
use ptyrelay.Session.Sentinel.Markers.{Lacks-beg_marker}
use ptyrelay.Session.Sentinel.Status.{printf_d}
use ptyrelay.Session.Sentinel.Delivery.{feed_all-wrapper}
use ptyrelay.Session.Streaming.Tail.{Passed, cut-Passed}
use ptyrelay.Session.Streaming.{
  StreamingParser, stream_feed, stream_next, stream_all, new_streaming_parser,
}
use ptyrelay.Session.Streaming.Similar.{Stage, looking, passing, counting, over, Alike, IsPlain}
use ptyrelay.Session.Streaming.Fresh.{fresh_pipe, fresh-IsPlain, fresh-Alike}
use ptyrelay.Session.Streaming.Feed.{feed-SameFeed, advance-IsPlain}

abbrev text : SentinelParser × Outcome → Bytes
text (q, progressed) = q.buf
text (q, waiting) = []
text (q, finished) = []
text (q, failed e) = []

-- With `rest` still to come, `t` is what stands behind the BEG line.
abbrev SeesIn : ParseState → Bytes → Bytes → SentinelParser → Type 0
SeesIn before_beg t rest p = text (advance_in before_beg (push p rest)) ≡ t
SeesIn capturing t rest p = p.buf ++ rest ≡ t
SeesIn reading_exit_code t rest p = Unit
SeesIn streaming t rest p = Unit
SeesIn done t rest p = Unit

abbrev Sees : Bytes → Bytes → SentinelParser → Type 0
Sees t rest p = SeesIn p.state t rest p

Extends_lem :
    {p q : SentinelParser} {o : Outcome} (rest : Bytes)
    → IsPlain p
    → advance p ≡ (q, o)
    → Extends p.state rest (q, o) (advance (push p rest))
Extends_lem {p} rest v e = rw e at (advance-Extends p.state p rest v.beg_some v.no_cap)

-- Where a step leads that goes on.
abbrev follows : ParseState → ParseState
follows before_beg = capturing
follows capturing = reading_exit_code
follows reading_exit_code = done
follows streaming = done
follows done = done

progressed_state :
    (st : ParseState) (p q : SentinelParser)
    → advance_in st p ≡ (q, progressed)
    → q.state ≡ follows st
unfolding advance_in
progressed_state before_beg p q e = ground arith
progressed_state _ p q e = ground arith

-- What is seen stays, when the parser goes on and when it waits.
sees_progressed :
    (st : ParseState) (t rest : Bytes) (p q : SentinelParser)
    → advance_in st p ≡ (q, progressed)
    → Extends st rest (q, progressed) (advance_in st (push p rest))
    → SeesIn st t rest p
    → SeesIn (follows st) t rest q
sees_progressed before_beg t rest p q e x j = sym (ap text x) ∙ j
sees_progressed capturing t rest p q e x j = tt
sees_progressed reading_exit_code t rest p q e x j = tt
sees_progressed streaming t rest p q e x j = tt
sees_progressed done t rest p q e x j = tt

sees_waiting :
    (st : ParseState) (t rest : Bytes) (p q : SentinelParser)
    → advance_in st p ≡ (q, waiting)
    → Extends st rest (q, waiting) (advance_in st (push p rest))
    → SeesIn st t rest p
    → SeesIn st t rest q
unfolding advance_in
sees_waiting before_beg t rest p q e x j = sym (ap text x) ∙ j
sees_waiting capturing t rest p q e x j = let same : q.buf ≡ p.buf = ground arith in rw same j
sees_waiting reading_exit_code t rest p q e x j = tt
sees_waiting streaming t rest p q e x j = tt
sees_waiting done t rest p q e x j = tt

sees_push :
    (st : ParseState) (t : Bytes) (p : SentinelParser) (c rest : Bytes)
    → SeesIn st t (c ++ rest) p
    → SeesIn st t rest (push p c)
sees_push before_beg t p c rest h = rw (push-push p c rest) h
sees_push capturing t p c rest h = rw (append_assoc p.buf c rest) h
sees_push reading_exit_code t p c rest h = tt
sees_push streaming t p c rest h = tt
sees_push done t p c rest h = tt

-- `raw` stands in front of the first END marker `m` behind the BEG line.
module _ (m raw tail : Bytes) (first : index (raw ++ tail) m ≡ some (length raw)) where
  abbrev IsRaw : Bytes → Type 0
  IsRaw b = b ≡ raw

  abbrev J : Bytes → SentinelParser → Type 0
  J rest p = IsPlain p × (p.end_marker ≡ m) × Sees (raw ++ tail) rest p

  J-progressed :
      (rest : Bytes) (a b : SentinelParser) → advance a ≡ (b, progressed) → J rest a → J rest b
  J-progressed rest a b e j = (
    advance-IsPlain e j.0,
    (advance-Keeps e).end_marker_kept ∙ j.1,
    simp (progressed_state a.state a b e)
        (sees_progressed a.state (raw ++ tail) rest a b e (Extends_lem rest j.0 e) j.2),
  )

  J-waiting : (rest : Bytes) (a b : SentinelParser) → advance a ≡ (b, waiting) → J rest a → J rest b
  J-waiting rest a b e j = (
    advance-IsPlain e j.0,
    (advance-Keeps e).end_marker_kept ∙ j.1,
    simp ((advance-Keeps e).stays refl)
        (sees_waiting a.state (raw ++ tail) rest a b e (Extends_lem rest j.0 e) j.2),
  )

  J-IsRaw :
      (rest : Bytes) (a : SentinelParser) (i : ℕ)
      → J rest a
      → a.state ≡ capturing
      → index a.buf a.end_marker ≡ some i
      → IsRaw (take i a.buf)
  J-IsRaw rest a i j e f =
      let seen : a.buf ++ rest ≡ raw ++ tail = simp e at j.2 in
      let here : index a.buf m ≡ some i = ap (index a.buf) (sym j.1) ∙ f in
      let there : index (raw ++ tail) m ≡ some i = rw seen at (index-append a.buf rest m i here) in
      let same : i ≡ length raw = ground (arith, first, there) in
      let within = index_bound a.buf m i here in
      sym (take-append i a.buf rest (omega arith))
      ∙ ap (take i) seen
      ∙ ap (λ (k : ℕ). take k (raw ++ tail)) same
      ∙ take-length raw tail

  abbrev AlikeRun : SentinelParser × Fed → StreamingParser × Option Fed → Type 0
  AlikeRun (p, r) (q, o) = (o ≡ some r) × Alike IsRaw p q × (r ≡ complete → p.state ≡ done)

  next-AlikeRun :
      (p : SentinelParser) (q : StreamingParser) (r : Fed) (u : SentinelParser × Fed)
      (v : StreamingParser × Option Fed)
      → Alike IsRaw p q
      → (r ≡ complete → p.state ≡ done)
      → (r ≡ more → AlikeRun u v)
      → AlikeRun (feed_next u p r) (stream_next v q (some r))
  next-AlikeRun p q more u v a d h = h refl
  next-AlikeRun p q complete u v a d h = (refl, a, d)
  next-AlikeRun p q out_of_fuel u v a d h = (refl, a, d)
  next-AlikeRun p q (broken e) u v a d h = (refl, a, d)

  -- The stream in chunks.
  stream_all-Alike :
      (cs : List Bytes) (p : SentinelParser) (q : StreamingParser)
      → Alike IsRaw p q
      → J (flatten cs) p
      → AlikeRun (feed_all p cs) (stream_all q cs)
  unfolding stream_all feed_all
  stream_all-Alike [] p q a j = (refl, a, λ n. absurd (cc n))
  stream_all-Alike (c ∷ cs) p q a j =
      let rest = flatten cs in
      let plain : IsPlain (push p c) = record {
        beg_some = j.0.beg_some;
        end_some = j.0.end_some;
        end_line = j.0.end_line;
        no_cap = j.0.no_cap;
      } in
      let here : J rest (push p c) = (plain, j.1, sees_push p.state (raw ++ tail) p c rest j.2) in
      let (o, b, on, ended) =
        feed-SameFeed IsRaw (J rest) (J-progressed rest) (J-waiting rest) (J-IsRaw rest) p q c j.0 a
          here in
      rw o (
        next-AlikeRun (feed p c).0 (stream_feed q c).0 (feed p c).1 _ _ b ended
          λ e. stream_all-Alike cs _ _ b (on e).1)

over-Passed :
    (m body tail : Bytes)
    (first : index ((body ++ b'\n' ∷ []) ++ tail) m ≡ some (length (body ++ b'\n' ∷ [])))
    (p : SentinelParser) (q : StreamingParser)
    → p.state ≡ done
    → Stage (IsRaw m (body ++ b'\n' ∷ []) tail first) p q
    → Passed body q.out.written
over-Passed m body tail first p q e (looking f g h i) = absurd (cc)
over-Passed m body tail first p q e (passing f g h i) = absurd (cc)
over-Passed m body tail first p q e (counting f g h front rest w s) = absurd (cc)
over-Passed m body tail first p q e (over f g front rest w s) = rw w (cut-Passed body front rest s)

first_marker :
    (body rest m : Bytes)
    → Lacks b'\n' m
    → 0 < length m
    → index body m ≡ none
    → index ((body ++ b'\n' ∷ []) ++ (m ++ rest)) m ≡ some (length (body ++ b'\n' ∷ []))
first_marker body rest m line long absent =
    let size : suc (length body) ≡ length (body ++ b'\n' ∷ []) =
      omega (arith, length-append body (b'\n' ∷ [])) in
    ap (λ (b : Bytes). index b m) (append_assoc body (b'\n' ∷ []) (m ++ rest))
    ∙ index-marker body rest m b'\n' line long absent
    ∙ ap some size

-- The reader of the pipe gets the output of a command whose wrapper has run, and the parser its exit
-- status, from whatever chunks the channel delivers: all of the output, or all but a CR at its
-- end, or the output and the newline of the wrapper. The nonce stays in one line, the BEG marker does not
-- occur before the frame nor the END marker in the output.
pub stream_all-wrapper :
    (nonce pre body post : Bytes) (status : ℕ) (cs : List Bytes)
    → Lacks b'\n' nonce
    → contains pre (beg_marker_of nonce) ≡ false
    → contains body (end_marker_of nonce) ≡ false
    → status < 256
    → flatten cs ≡ pre ++ (wrapper_prints nonce body status ++ post)
    → let (q, r) = stream_all (new_streaming_parser nonce fresh_pipe) cs in
      (r ≡ some complete) × (q.exit_code ≡ pos status) × Passed body q.out.written
unfolding new_sentinel_parser new_streaming_parser
stream_all-wrapper nonce pre body post status cs plain no_beg no_end small e =
    let m = end_marker_of nonce in
    let p = new_sentinel_parser nonce 0 in
    let q = new_streaming_parser nonce fresh_pipe in
    let raw = body ++ b'\n' ∷ [] in
    let tail = m ++ (printf_d status ++ b'\n' ∷ post) in
    let v = fresh-IsPlain nonce plain in
    let first =
      first_marker body (printf_d status ++ b'\n' ∷ post) m v.end_line v.end_some
        (contains-index body m no_end) in
    let j : J m raw tail first (flatten cs) p = (
      v,
      refl,
      ap (λ (b : Bytes). text (advance_in before_beg (push p b)))
            (e ∙ wrapper_prints-frame nonce pre body post status)
          ∙ ap text (
              advance_beg p pre (body ++ b'\n' ∷ tail)
                (Lacks-beg_marker b'\n' nonce (omega arith) plain) v.beg_some
                (contains-index pre (beg_marker_of nonce) no_beg))
          ∙ sym (append_assoc body (b'\n' ∷ []) tail),
    ) in
    let (o, a, ended) = stream_all-Alike m raw tail first cs p q ((fresh-Alike nonce)) j in
    let seen =
      feed_all-wrapper nonce pre body post status 0 cs plain no_beg no_end small (inl refl) e in
    let finished : (feed_all p cs).1 ≡ complete = ap (λ (z : Fed × Bytes × ℤ). z.0) seen in
    (
      o ∙ ap some finished,
      a.common.2 ∙ ap (λ (z : Fed × Bytes × ℤ). z.2) seen,
      over-Passed m body tail first (feed_all p cs).0 (stream_all q cs).0 (ended finished) a.stage,
    )
