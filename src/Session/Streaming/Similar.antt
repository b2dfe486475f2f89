-- ===== src/Session/Streaming/Similar.antt =====
-- One step of the streaming parser and of the parser that buffers the output, side by side.
use ptyrelay.Base.{
  ℕ, zero, suc, ◌-◌, ◌+◌, ◌<◌, true, Bytes, [], ◌∷◌, ◌++◌, ◌≡◌, refl, sym, ap, ◌∙◌, arith,
  append_assoc, append-nil, Option, none, some, length, take, drop, ltb, lt→ltb, inl, inr,
  Option-cases, Bool-cases, Lacks, take-append-drop,
}
use ptyrelay.Bytes.{index, index_byte, keep_last}
use ptyrelay.Bytes.Index.{at_marker, at_marker-none, none-at_marker, at_marker-keep_last}
use ptyrelay.Bytes.Offset.{at_marker-sep}
use ptyrelay.Session.Sentinel.{
  before_beg, capturing, streaming, reading_exit_code, done, SentinelParser, Outcome, waiting,
  strip_newline, advance_in, skip_marker, find_beg,
}
use ptyrelay.Session.Streaming.{
  PipeWriter, write_at, StreamingParser, last_index_byte, flush, flush_end, advance_stream,
  skip_beg_line, seek_beg,
}

-- No occurrence of `m` starts in `w`, whatever comes behind `b`.
abbrev pub Clean : Bytes → Bytes → Bytes → Type 0
Clean w b m = (t : Bytes) → at_marker (w ++ (b ++ t)) m ≡ at_marker (b ++ t) m

-- The stages of the two parsers, `p` with the buffer. What stood between the markers is `f ++ r`: `f` was
-- passed on before the END marker was seen, and `P` holds of the whole.
pub data Stage (P : Bytes → Type 0) (p : SentinelParser) (q : StreamingParser) : Type 0 where
  looking :
      p.state ≡ before_beg → q.state ≡ before_beg → q.buf ≡ p.buf → q.out.written ≡ [] → Stage P p q
  passing :
      p.state ≡ capturing
      → q.state ≡ streaming
      → p.buf ≡ q.out.written ++ q.buf
      → Clean q.out.written q.buf p.end_marker
      → Stage P p q
  counting :
      p.state ≡ reading_exit_code
      → q.state ≡ reading_exit_code
      → q.buf ≡ p.buf
      → (f r : Bytes) → q.out.written ≡ f ++ strip_newline r
      → P (f ++ r)
      → Stage P p q
  over :
      p.state ≡ done
      → q.state ≡ done
      → (f r : Bytes) → q.out.written ≡ f ++ strip_newline r
      → P (f ++ r)
      → Stage P p q

-- The markers and the exit code agree, and the reader does not close.
abbrev pub Common : SentinelParser → StreamingParser → Type 0
Common p q =
    (q.beg_marker ≡ p.beg_marker)
    × (q.end_marker ≡ p.end_marker)
    × (q.exit_code ≡ p.exit_code)
    × (q.out.closes_after ≡ none)

pub record Alike (P : Bytes → Type 0) (p : SentinelParser) (q : StreamingParser) : Type 0 where
  pub common : Common p q
  pub stage : Stage P p q

-- What the buffering parser needs: markers of one line, and no cap.
pub record IsPlain (p : SentinelParser) : Type 0 where
  pub beg_some : 0 < length p.beg_marker
  pub end_some : 0 < length p.end_marker
  pub end_line : Lacks b'\n' p.end_marker
  pub no_cap : p.max_output ≡ 0

-- The two give the same outcome, and stay alike.
abbrev pub SameStep :
    (Bytes → Type 0) → SentinelParser × Outcome → StreamingParser × Option Outcome → Type 0
SameStep P (p, o) (q, r) = (r ≡ some o) × Alike P p q

-- The two are alike and look for the BEG line.
pub record Looking (p : SentinelParser) (q : StreamingParser) : Type 0 where
  pub common : Common p q
  pub p_state : p.state ≡ before_beg
  pub q_state : q.state ≡ before_beg
  pub same_buf : q.buf ≡ p.buf
  pub unwritten : q.out.written ≡ []

skip_beg_line-SameStep :
    (P : Bytes → Type 0) (p : SentinelParser) (q : StreamingParser) (i : ℕ) (o : Option ℕ)
    → Looking p q
    → SameStep P (skip_marker p i o) (skip_beg_line q i o)
skip_beg_line-SameStep P p q i none k = (
  refl,
  record {
    common = k.common;
    stage = looking k.p_state k.q_state (ap (drop i) k.same_buf) k.unwritten;
  },
)
skip_beg_line-SameStep P p q i (some nl) k =
    let same : drop (i + length q.beg_marker + nl + 1) q.buf
        ≡ drop (i + length p.beg_marker + nl + 1) p.buf =
      rw (k.common.0, k.same_buf) in
    (
      refl,
      record {
        common = k.common;
        stage = passing refl refl (rw k.unwritten (sym same)) (λ t. rw k.unwritten);
      },
    )

seek_beg-SameStep :
    (P : Bytes → Type 0) (p : SentinelParser) (q : StreamingParser) (o : Option ℕ)
    → Looking p q
    → SameStep P (find_beg p o) (seek_beg q o)
seek_beg-SameStep P p q none k =
    let same : keep_last (length q.beg_marker - 1) q.buf
        ≡ keep_last (length p.beg_marker - 1) p.buf =
      rw (k.common.0, k.same_buf) in
    (refl, record { common = k.common; stage = looking k.p_state k.q_state same k.unwritten })
seek_beg-SameStep P p q (some i) k =
    let same : index_byte (drop (i + length q.beg_marker) q.buf) b'\n'
        ≡ index_byte (drop (i + length p.beg_marker) p.buf) b'\n' =
      rw (k.common.0, k.same_buf) in
    rw same (skip_beg_line-SameStep P p q i _ k)

-- The steps that look for the BEG line.
pub Looking-SameStep :
    (P : Bytes → Type 0) (p : SentinelParser) (q : StreamingParser)
    → Looking p q
    → SameStep P (advance_in before_beg p) (advance_stream before_beg q)
unfolding advance_in advance_stream
Looking-SameStep P p q k =
    let same : index q.buf q.beg_marker ≡ index p.buf p.beg_marker = rw (k.common.0, k.same_buf) in
    rw same (seek_beg-SameStep P p q _ k)

last_index_byte_split :
    (b : Bytes) (c i : ℕ) → last_index_byte b c ≡ some i → take i b ++ c ∷ drop (suc i) b ≡ b
unfolding last_index_byte
last_index_byte_split [] c i h = cc
last_index_byte_split (x ∷ b) c i h = elim (Option-cases (last_index_byte b c)) [
  | inl e ↦ ground arith
  | inr (j, e) ↦
      let at : suc j ≡ i = ground arith in rw⁻¹ at (ap (◌∷◌ x) (last_index_byte_split b c j e))
]

keep_last-drop : (k : ℕ) (b : Bytes) → keep_last k b ≡ drop (length b - k) b
unfolding keep_last
keep_last-drop k b = elim (Bool-cases (ltb k (length b))) [
  | inl longer ↦ rw longer
  | inr fits ↦ let none_off : length b - k ≡ 0 = ground arith in rw (fits, none_off)
]

-- No occurrence of the marker starts in what is flushed.
flush_end-Clean :
    (q : StreamingParser) (m : Bytes) (o : Option ℕ) (t : Bytes)
    → q.end_marker ≡ m
    → 0 < length m
    → Lacks b'\n' m
    → index q.buf m ≡ none
    → last_index_byte q.buf b'\n' ≡ o
    → at_marker (q.buf ++ t) m ≡ at_marker (drop (flush_end q o) q.buf ++ t) m
flush_end-Clean q m (some i) t same long line h e =
    let b = q.buf in
    let split = last_index_byte_split b b'\n' i e in
    let next : suc i ≡ i + 1 = omega arith in
    ap (λ (x : Bytes). at_marker (x ++ t) m) (sym split)
    ∙ at_marker-sep (take i b) (drop (suc i) b) t m b'\n' line long (rw split h)
    ∙ ap (λ (k : ℕ). at_marker (drop k b ++ t) m) next
flush_end-Clean q m none t same long line h e = elim (Bool-cases (ltb 65536 (length q.buf))) [
  | inl much ↦ rw much (
      let k = length q.end_marker - 1 in
      at_marker-keep_last q.buf t m k (omega (arith, ap length same)) h
      ∙ ap (λ (x : Bytes). at_marker (x ++ t) m) (keep_last-drop k q.buf))
  | inr little ↦ rw little
]

-- The two are alike and pass the output on.
pub record Passing (p : SentinelParser) (q : StreamingParser) : Type 0 where
  pub common : Common p q
  pub p_state : p.state ≡ capturing
  pub q_state : q.state ≡ streaming
  pub joined : p.buf ≡ q.out.written ++ q.buf
  pub clean : Clean q.out.written q.buf p.end_marker

-- The buffering parser finds no marker where the other finds none.
pub joined-none :
    (p : SentinelParser) (q : StreamingParser)
    → Passing p q
    → index q.buf p.end_marker ≡ none
    → index p.buf p.end_marker ≡ none
joined-none p q k h = rw k.joined (
    at_marker-none (q.out.written ++ q.buf) p.end_marker
      (rw append-nil at (k.clean []) ∙ none-at_marker q.buf p.end_marker h))

-- What a flush of `n` bytes leaves.
abbrev flushed : StreamingParser → ℕ → StreamingParser
flushed q n = record q {
  out = record q.out { written = q.out.written ++ take n q.buf };
  buf = drop n q.buf;
}

pub write_at_open :
    (o : PipeWriter) (b : Bytes) (c : Option ℕ)
    → c ≡ none
    → write_at o b c ≡ (record o { written = o.written ++ b }, true)
write_at_open o b c h = rw h

flush_lem :
    (q : StreamingParser) (n : ℕ)
    → q.out.closes_after ≡ none
    → flush_end q (last_index_byte q.buf b'\n') ≡ n
    → flush q ≡ (flushed q n, some waiting)
unfolding flush
flush_lem q zero calm e = rw (e, append-nil)
flush_lem q (suc n) calm e = rw (
  e,
  write_at_open q.out (take (suc n) q.buf) q.out.closes_after calm,
  lt→ltb 0 (suc n) (omega arith),
)

-- What the flush passes on, the buffering parser keeps.
flushed-Passing :
    (p : SentinelParser) (q : StreamingParser) (n : ℕ)
    → Passing p q
    → ((t : Bytes)
        → at_marker (q.buf ++ t) p.end_marker ≡ at_marker (drop n q.buf ++ t) p.end_marker)
    → Passing p (flushed q n)
flushed-Passing p q n k same =
    let w = q.out.written in
    let front = take n q.buf in
    let back = drop n q.buf in
    record {
      common = k.common;
      p_state = k.p_state;
      q_state = k.q_state;
      joined =
          k.joined ∙ ap (◌++◌ w) (sym (take-append-drop n q.buf)) ∙ sym (append_assoc w front back);
      clean = λ t.
          ap (λ (x : Bytes). at_marker x p.end_marker)
            (append_assoc w front (back ++ t)
              ∙ ap (◌++◌ w) (
                  sym (append_assoc front back t)
                  ∙ ap (λ (x : Bytes). x ++ t) (take-append-drop n q.buf)))
          ∙ k.clean t
          ∙ same t;
    }

Passing-Alike :
    (P : Bytes → Type 0) (p : SentinelParser) (q : StreamingParser) → Passing p q → Alike P p q
Passing-Alike P p q k = record {
  common = k.common;
  stage = passing k.p_state k.q_state k.joined k.clean;
}

-- Neither finds the END marker.
pub flush-SameStep :
    (P : Bytes → Type 0) (p : SentinelParser) (q : StreamingParser)
    → IsPlain p
    → Passing p q
    → index q.buf p.end_marker ≡ none
    → SameStep P (p, waiting) (flush q)
flush-SameStep P p q v k h =
    let n = flush_end q (last_index_byte q.buf b'\n') in
    rw (flush_lem q n k.common.3 refl) (
      refl,
      Passing-Alike P p (flushed q n) (
          flushed-Passing p q n k λ t.
            flush_end-Clean q p.end_marker (last_index_byte q.buf b'\n') t k.common.1 v.end_some
              v.end_line h refl),
    )
