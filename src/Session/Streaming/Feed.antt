-- ===== src/Session/Streaming/Feed.antt =====
-- `feed` of the two parsers, side by side. `J` is a fact on the buffering parser that its steps keep.
use ptyrelay.Base.{
  ℕ, zero, suc, ◌<◌, true, false, Bytes, ◌++◌, ◌≡◌, refl, ap, ◌∙◌, arith, append_assoc, Option,
  some, take, inl, inr, Bool-cases,
}
use ptyrelay.Bytes.{index}
use ptyrelay.Session.Sentinel.{
  ParseState, before_beg, capturing, done, SentinelParser, Outcome, progressed, waiting, finished,
  advance_in, advance, Fed, more, complete, is_done, feed,
}
use ptyrelay.Session.Sentinel.Advance.{push}
use ptyrelay.Session.Sentinel.Chunks.{
  Runs, next, wait, finish, break, rank, rank_lt_four, advance-Keeps, feed-Runs, feed-done,
}
use ptyrelay.Session.Streaming.{StreamingParser, advance_stream, stream_loop, stream_feed}
use ptyrelay.Session.Streaming.Similar.{
  Clean, Stage, looking, passing, counting, over, Alike, IsPlain, SameStep,
}
use ptyrelay.Session.Streaming.Steps.{advance-SameStep}

pub advance-IsPlain :
    {p q : SentinelParser} {o : Outcome} → advance p ≡ (q, o) → IsPlain p → IsPlain q
advance-IsPlain e v =
    let k = advance-Keeps e in
    record {
      beg_some = rw k.beg_marker_kept v.beg_some;
      end_some = rw k.end_marker_kept v.end_some;
      end_line = rw k.end_marker_kept v.end_line;
      no_cap = k.max_output_kept ∙ v.no_cap;
    }

-- The streaming parser with more bytes in its buffer.
abbrev pub push_stream : StreamingParser → Bytes → StreamingParser
push_stream q b = record q { buf = q.buf ++ b }

push-Clean : (w b c m : Bytes) → Clean w b m → Clean w (b ++ c) m
push-Clean w b c m h = λ t. rw (append_assoc b c t) (h (c ++ t))

push-Stage :
    (P : Bytes → Type 0) (p : SentinelParser) (q : StreamingParser) (c : Bytes)
    → is_done p.state ≡ false
    → Stage P p q
    → Stage P (push p c) (push_stream q c)
push-Stage P p q c live (looking e f g h) = looking e f (ap (λ (b : Bytes). b ++ c) g) h
push-Stage P p q c live (passing e f g h) =
    passing e f (ap (λ (b : Bytes). b ++ c) g ∙ append_assoc q.out.written q.buf c)
      (push-Clean q.out.written q.buf c p.end_marker h)
push-Stage P p q c live (counting e f g front rest h w) =
    counting e f (ap (λ (b : Bytes). b ++ c) g) front rest h w
push-Stage P p q c live (over e f front rest h w) = absurd (cc (ap is_done e))

Stage-is_done :
    (P : Bytes → Type 0) (p : SentinelParser) (q : StreamingParser)
    → Stage P p q
    → is_done q.state ≡ is_done p.state
Stage-is_done P p q (looking e f g h) = simp (e, f)
Stage-is_done P p q (passing e f g h) = simp (e, f)
Stage-is_done P p q (counting e f g front rest h w) = simp (e, f)
Stage-is_done P p q (over e f front rest h w) = simp (e, f)

finished_state :
    (st : ParseState) (p q : SentinelParser) → advance_in st p ≡ (q, finished) → q.state ≡ done
unfolding advance_in
finished_state before_beg p q e = ground arith
finished_state _ p q e = ground arith

is_done-eq : (st : ParseState) → is_done st ≡ true → st ≡ done
is_done-eq st h = ground arith

module _ (P : Bytes → Type 0) (J : SentinelParser → Type 0)
    (keep : (a b : SentinelParser) → advance a ≡ (b, progressed) → J a → J b)
    (held : (a b : SentinelParser) → advance a ≡ (b, waiting) → J a → J b)
    (raw : (a : SentinelParser) (i : ℕ)
      → J a
      → a.state ≡ capturing
      → index a.buf a.end_marker ≡ some i
      → P (take i a.buf)) where
  -- The same answer, by parsers that are alike; one that wants more is plain, and `J` holds of it.
  abbrev pub SameFeed : SentinelParser × Fed → StreamingParser × Option Fed → Type 0
  SameFeed (p, r) (q, o) =
      (o ≡ some r) × Alike P p q × (r ≡ more → IsPlain p × J p) × (r ≡ complete → p.state ≡ done)

  step_lem :
      {p m : SentinelParser} {o : Outcome} (q : StreamingParser)
      → IsPlain p
      → Alike P p q
      → J p
      → advance p ≡ (m, o)
      → SameStep P (m, o) (advance_stream q.state q)
  step_lem {p} q v a j e = rw e at (advance-SameStep P p q v a.common a.stage (λ i. raw p i j))

  Runs-SameFeed :
      {p m : SentinelParser} {r : Fed} (fuel : ℕ) (q : StreamingParser)
      → Runs p m r
      → rank p.state < fuel
      → IsPlain p
      → Alike P p q
      → J p
      → SameFeed (m, r) (stream_loop fuel q)
  unfolding stream_loop
  Runs-SameFeed zero q s h v a j = absurd (omega arith)
  Runs-SameFeed (suc fuel) q (next e s) h v a j =
      let (o, b) = step_lem q v a j e in
      rw o (
        Runs-SameFeed fuel (advance_stream q.state q).0 s
          (omega (arith, (advance-Keeps e).falls refl)) (advance-IsPlain e v) b (keep _ _ e j))
  Runs-SameFeed (suc fuel) q (wait e) h v a j =
      let (o, b) = step_lem q v a j e in
      rw o (refl, b, λ n. (advance-IsPlain e v, held _ _ e j), λ n. absurd (cc n))
  Runs-SameFeed (suc fuel) q (finish {p} {q = m} e) h v a j =
      let (o, b) = step_lem q v a j e in
      rw o (refl, b, λ n. absurd (cc n), λ n. finished_state p.state p m e)
  Runs-SameFeed (suc fuel) q (break e) h v a j =
      let (o, b) = step_lem q v a j e in rw o (refl, b, λ n. absurd (cc n), λ n. absurd (cc n))

  -- One chunk.
  pub feed-SameFeed :
      (p : SentinelParser) (q : StreamingParser) (c : Bytes)
      → IsPlain p
      → Alike P p q
      → J (push p c)
      → SameFeed (feed p c) (stream_feed q c)
  unfolding stream_feed
  feed-SameFeed p q c v a j =
      let same = Stage-is_done P p q a.stage in
      elim (Bool-cases (is_done p.state)) [
        | inl ended ↦
            rw (feed-done p c ended, same, ended)
              (refl, a, λ n. absurd (cc n), λ n. is_done-eq p.state ended)
        | inr live ↦
            rw (same, live)
              (Runs-SameFeed 4 (push_stream q c) (feed-Runs p c live) (rank_lt_four p.state)
                (record {
                  beg_some = v.beg_some;
                  end_some = v.end_some;
                  end_line = v.end_line;
                  no_cap = v.no_cap;
                })
                (record { common = a.common; stage = push-Stage P p q c live a.stage }) j)
      ]
