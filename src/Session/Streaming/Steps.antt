-- ===== src/Session/Streaming/Steps.antt =====
-- The last steps of the two parsers, and a whole step.
use ptyrelay.Base.{
  ℕ, ◌+◌, true, Bytes, [], ◌∷◌, ◌++◌, ◌≡◌, refl, sym, ap, ◌∙◌, arith, append-nil, Option, none,
  some, length, take, drop, ℤ, ltb, lt→ltb, if◌then◌else◌, inl, inr, Option-cases, drop-length,
  drop-drop,
}
use native.Mathlib.Nat.{zero-add, suc-add}
use ptyrelay.Bytes.{index, index_byte}
use ptyrelay.Bytes.Offset.{at_marker-offset}
use ptyrelay.Bytes.Text.{trim_space}
use ptyrelay.Session.Sentinel.{
  capturing, streaming, reading_exit_code, SentinelParser, progressed, waiting, strip_newline,
  advance_in, line_start, set_exit_code, find_exit_code,
}
use ptyrelay.Session.Sentinel.Advance.{uncapped}
use ptyrelay.Session.Streaming.{
  PipeWriter, pipe_write, StreamingParser, advance_stream, end_stream, seek_exit_code, seek_end,
}
use ptyrelay.Session.Streaming.Similar.{
  Stage, looking, passing, counting, over, Common, IsPlain, SameStep, Looking-SameStep, Passing,
  flush-SameStep, joined-none, write_at_open,
}

-- What was passed on before is followed by the rest, also where the rest is empty.
write_tail :
    (o : PipeWriter) (b : Bytes)
    → o.closes_after ≡ none
    → (if ltb 0 (length b) then pipe_write o b else (o, true))
      ≡ (record o { written = o.written ++ b }, true)
write_tail o [] h = rw append-nil
write_tail o (x ∷ b) h =
    rw (lt→ltb 0 (length (x ∷ b)) (omega arith)) (write_at_open o (x ∷ b) o.closes_after h)

take-append_front : (w b : Bytes) (j : ℕ) → take (length w + j) (w ++ b) ≡ w ++ take j b
take-append_front [] b j = rw zero-add
take-append_front (x ∷ w) b j = rw suc-add (ap (◌∷◌ x) (take-append_front w b j))

drop-append_front : (w b : Bytes) (j : ℕ) → drop (length w + j) (w ++ b) ≡ drop j b
drop-append_front w b j = drop-drop (length w) j (w ++ b) ∙ rw (drop-length w b)

-- The buffering parser at the END marker.
capture_lem :
    (p : SentinelParser) (i : ℕ)
    → p.max_output ≡ 0
    → index p.buf p.end_marker ≡ some i
    → (out : Bytes) × (advance_in capturing p ≡ (
      record p {
        output = out;
        buf = drop (i + length p.end_marker) p.buf;
        state = reading_exit_code;
      },
      progressed,
    ))
unfolding advance_in
capture_lem p i h e =
    let chunk = strip_newline (take (line_start p.buf i) p.buf) in
    (
      p.output ++ chunk,
      rw (uncapped p (length p.buf) h, e, uncapped p (length p.output + length chunk) h),
    )

-- Both find the END marker.
tail-SameStep :
    (P : Bytes → Type 0) (p : SentinelParser) (q : StreamingParser) (j : ℕ)
    → IsPlain p
    → Passing p q
    → index q.buf p.end_marker ≡ some j
    → ((i : ℕ) → index p.buf p.end_marker ≡ some i → P (take i p.buf))
    → SameStep P (advance_in capturing p) (seek_end q (some j))
tail-SameStep P p q j v k e raw =
    let w = q.out.written in
    let i = length w + j in
    let found : index p.buf p.end_marker ≡ some i =
      rw k.joined (at_marker-offset w q.buf p.end_marker j (rw append-nil at (k.clean [])) e) in
    let (out, ends) = capture_lem p i v.no_cap found in
    let chunk = strip_newline (take j q.buf) in
    let behind : drop (j + length q.end_marker) q.buf ≡ drop (i + length p.end_marker) p.buf =
      let n = length p.end_marker in
      ap (λ (m : Bytes). drop (j + length m) q.buf) k.common.1
      ∙ drop-drop j n q.buf
      ∙ ap (drop n) (sym (drop-append_front w q.buf j) ∙ ap (drop i) (sym k.joined))
      ∙ sym (drop-drop i n p.buf) in
    rw (ends, write_tail q.out chunk k.common.3)
      (
        refl,
        record {
          common = k.common;
          stage =
              counting refl refl behind w (take j q.buf) refl
                (rw (k.joined, take-append_front w q.buf j) at (raw i found));
        },
      )

Passing-SameStep :
    (P : Bytes → Type 0) (p : SentinelParser) (q : StreamingParser)
    → IsPlain p
    → Passing p q
    → ((i : ℕ) → index p.buf p.end_marker ≡ some i → P (take i p.buf))
    → SameStep P (advance_in capturing p) (advance_stream streaming q)
unfolding advance_stream
Passing-SameStep P p q v k raw =
    let same : index q.buf q.end_marker ≡ index q.buf p.end_marker = ap (index q.buf) k.common.1 in
    elim (Option-cases (index q.buf p.end_marker)) [
      | inl e ↦
          let waits : advance_in capturing p ≡ (p, waiting) =
            unfold advance_in in rw (uncapped p (length p.buf) v.no_cap, joined-none p q k e) in
          rw (same, e, waits) (flush-SameStep P p q v k e)
      | inr (j, e) ↦ rw (same, e) (tail-SameStep P p q j v k e raw)
    ]

-- The two have seen the END marker.
record Counting (P : Bytes → Type 0) (p : SentinelParser) (q : StreamingParser) : Type 0 where
  common : Common p q
  p_state : p.state ≡ reading_exit_code
  q_state : q.state ≡ reading_exit_code
  same_buf : q.buf ≡ p.buf
  front : Bytes
  rest : Bytes
  passed : q.out.written ≡ front ++ strip_newline rest
  whole : P (front ++ rest)

end_stream-SameStep :
    (P : Bytes → Type 0) (p : SentinelParser) (q : StreamingParser) (line : Bytes) (o : Option ℤ)
    → Counting P p q
    → SameStep P (set_exit_code p line o) (end_stream q line o)
end_stream-SameStep P p q line none k = (
  refl,
  record {
    common = k.common;
    stage = counting k.p_state k.q_state k.same_buf k.front k.rest k.passed k.whole;
  },
)
end_stream-SameStep P p q line (some ec) k =
    let (b, e, c, r) = k.common in
    (
      refl,
      record { common = (b, e, refl, r); stage = over refl refl k.front k.rest k.passed k.whole },
    )

seek_exit_code-SameStep :
    (P : Bytes → Type 0) (p : SentinelParser) (q : StreamingParser) (o : Option ℕ)
    → Counting P p q
    → SameStep P (find_exit_code p o) (seek_exit_code q o)
seek_exit_code-SameStep P p q none k = (
  refl,
  record {
    common = k.common;
    stage = counting k.p_state k.q_state k.same_buf k.front k.rest k.passed k.whole;
  },
)
seek_exit_code-SameStep P p q (some nl) k =
    rw (ap (λ (b : Bytes). trim_space (take nl b)) k.same_buf) (end_stream-SameStep P p q _ _ k)

Counting-SameStep :
    (P : Bytes → Type 0) (p : SentinelParser) (q : StreamingParser)
    → Counting P p q
    → SameStep P (advance_in reading_exit_code p) (advance_stream reading_exit_code q)
unfolding advance_in advance_stream
Counting-SameStep P p q k =
    rw (ap (λ (b : Bytes). index_byte b b'\n') k.same_buf) (seek_exit_code-SameStep P p q _ k)

-- Parsers that are alike take the same step, if `P` holds of what stands in front of the END marker
-- once that is found.
pub advance-SameStep :
    (P : Bytes → Type 0) (p : SentinelParser) (q : StreamingParser)
    → IsPlain p
    → Common p q
    → Stage P p q
    → ((i : ℕ) → p.state ≡ capturing → index p.buf p.end_marker ≡ some i → P (take i p.buf))
    → SameStep P (advance_in p.state p) (advance_stream q.state q)
advance-SameStep P p q v c (looking e f g h) raw =
    simp (e, f)
      (Looking-SameStep P p q
        (record { common = c; p_state = e; q_state = f; same_buf = g; unwritten = h }))
advance-SameStep P p q v c (passing e f g h) raw =
    simp (e, f)
      (Passing-SameStep P p q v
        (record { common = c; p_state = e; q_state = f; joined = g; clean = h }) (λ i. raw i e))
advance-SameStep P p q v c (counting e f g front rest h w) raw =
    simp (e, f)
      (Counting-SameStep P p q (record {
        common = c;
        p_state = e;
        q_state = f;
        same_buf = g;
        front = front;
        rest = rest;
        passed = h;
        whole = w;
      }))
advance-SameStep P p q v c (over e f front rest h w) raw =
    simp (e, f)
      (unfold advance_in advance_stream in
        (refl, record { common = c; stage = over e f front rest h w }))
