-- ===== src/Session/Sentinel/Advance.antt =====
-- How `advance` answers when more bytes stand in the buffer: one lemma for each outcome.
use ptyrelay.Base.{
  ℕ, zero, suc, ◌-◌, ◌+◌, ◌<◌, ◌≤◌, false, Bytes, ℤ, ◌++◌, Option, none, some, length, take, drop,
  ◌≡◌, refl, sym, ap, ◌∙◌, arith, Option-cases, inl, inr, drop-append, drop-drop, take-append,
  get_or-append, length-drop,
}
use ptyrelay.Bytes.{index, index_byte, keep_last}
use ptyrelay.Bytes.Index.{
  at_marker, at_marker-none, at_marker-append, at_marker_self, at_marker-keep_last,
  keep_last-keep_last, length-at_marker, index-append, index_bound, index_byte-append,
  index_byte_bound,
}
use ptyrelay.Session.Sentinel.{
  before_beg, capturing, streaming, reading_exit_code, done, SentinelParser, Outcome, over_cap,
  progressed, waiting, finished, failed, line_start, strip_newline, skip_marker, set_exit_code,
  ParseState, advance_in,
}

-- The parser with more bytes in its buffer.
abbrev pub push : SentinelParser → Bytes → SentinelParser
push p b = record p { buf = p.buf ++ b }

-- `case stateBeforeBEG`, seen through the text from the marker on.
abbrev skip_from : SentinelParser → Bytes → Option ℕ → SentinelParser × Outcome
skip_from p s none = (record p { buf = s }, waiting)
skip_from p s (some nl) =
    (record p { buf = drop (length p.beg_marker + nl + 1) s; state = capturing }, progressed)

abbrev before : SentinelParser → Option Bytes → SentinelParser × Outcome
before p none = (record p { buf = keep_last (length p.beg_marker - 1) p.buf }, waiting)
before p (some s) = skip_from p s (index_byte (drop (length p.beg_marker) s) b'\n')

skip_marker-skip_from :
    (p : SentinelParser) (i : ℕ) (o : Option ℕ) → skip_marker p i o ≡ skip_from p (drop i p.buf) o
skip_marker-skip_from p i none = refl
skip_marker-skip_from p i (some nl) =
    ap (λ (b : Bytes). (record p { buf = b; state = capturing }, progressed))
      (ap (λ (k : ℕ). drop k p.buf) (omega arith)
        ∙ drop-drop i (length p.beg_marker + nl + 1) p.buf)

advance-before :
    (p : SentinelParser) → advance_in before_beg p ≡ before p (at_marker p.buf p.beg_marker)
unfolding advance_in at_marker
advance-before p = elim (Option-cases (index p.buf p.beg_marker)) [
  | inl e ↦ rw e
  | inr (i, e) ↦ rw (e, drop-drop i (length p.beg_marker) p.buf) (skip_marker-skip_from p i _)
]

-- Bytes that do not change what follows a search leave its newline where it is.
skip_from-append :
    (p : SentinelParser) (s b : Bytes) (nl : ℕ)
    → length p.beg_marker ≤ length s
    → index_byte (drop (length p.beg_marker) s) b'\n' ≡ some nl
    → before (push p b) (some (s ++ b)) ≡ (push (skip_from p s (some nl)).0 b, progressed)
skip_from-append p s b nl fits e =
    let n = length p.beg_marker in
    let inside = index_byte_bound (drop n s) b'\n' nl e in
    rw (
      drop-append n s b fits,
      index_byte-append (drop n s) b b'\n' nl e,
      drop-append (n + nl + 1) s b (omega (arith, length-drop n s)),
    )

-- What `advance` answers with `b` behind the buffer, told from its answer `(q, o)` without `b`:
-- the same, but that a parser which was waiting looks again.
abbrev pub Extends :
    ParseState → Bytes → SentinelParser × Outcome → SentinelParser × Outcome → Type 0
Extends st b (q, progressed) r = r ≡ (push q b, progressed)
Extends st b (q, waiting) r = r ≡ advance_in st (push q b)
Extends st b (q, finished) r = r ≡ (q, finished)
Extends st b (q, failed e) r = r ≡ (push q b, failed e)

-- Behind the marker only what is given counts, not the buffer.
skip_from-buf :
    (p : SentinelParser) (b s : Bytes) (o : Option ℕ)
    → skip_from p s o ≡ skip_from (record p { buf = b }) s o
skip_from-buf p b s none = refl
skip_from-buf p b s (some nl) = refl

before-keep_last :
    (p : SentinelParser) (b : Bytes) (o : Option Bytes)
    → before (push p b) o
      ≡ before (push (record p { buf = keep_last (length p.beg_marker - 1) p.buf }) b) o
before-keep_last p b none =
    ap (λ (x : Bytes). (record p { buf = x }, waiting))
      (sym (keep_last-keep_last (length p.beg_marker - 1) p.buf b))
before-keep_last p b (some s) =
    skip_from-buf (push p b) (keep_last (length p.beg_marker - 1) p.buf ++ b) s _

before-Extends :
    (p : SentinelParser) (b : Bytes) (o : Option Bytes)
    → 0 < length p.beg_marker
    → at_marker p.buf p.beg_marker ≡ o
    → Extends before_beg b (before p o) (advance_in before_beg (push p b))
before-Extends p b none h e =
    let k = length p.beg_marker - 1 in
    let later = at_marker-keep_last p.buf b p.beg_marker k (omega arith) (at_marker-none _ _ e) in
    let q = record p { buf = keep_last k p.buf } in
    advance-before (push p b)
    ∙ ap (before (push p b)) later
    ∙ before-keep_last p b (at_marker (keep_last k p.buf ++ b) p.beg_marker)
    ∙ sym (advance-before (push q b))
before-Extends p b (some s) h e =
    let n = length p.beg_marker in
    let grown = at_marker-append p.buf b p.beg_marker s e in
    elim (Option-cases (index_byte (drop n s) b'\n')) [
      | inl f ↦
          let again = at_marker-append s b p.beg_marker s (at_marker_self p.buf p.beg_marker s e) in
          rw f (
            advance-before (push p b)
            ∙ ap (before (push p b)) grown
            ∙ skip_from-buf (push p b) (s ++ b) (s ++ b) _
            ∙ sym (
                advance-before (push (record p { buf = s }) b)
                ∙ ap (before (push (record p { buf = s }) b)) again))
      | inr (nl, f) ↦ rw f (
          advance-before (push p b)
          ∙ ap (before (push p b)) grown
          ∙ skip_from-append p s b nl (length-at_marker p.buf p.beg_marker s e) f)
    ]

pub line_start-le : (b : Bytes) (i : ℕ) → line_start b i ≤ i
unfolding line_start
line_start-le b zero = omega arith
line_start-le b (suc i) = ground (arith, line_start-le b i)

line_start-append : (b r : Bytes) (i : ℕ) → i ≤ length b → line_start (b ++ r) i ≡ line_start b i
unfolding line_start
line_start-append b r zero h = refl
line_start-append b r (suc i) h =
    rw (get_or-append b r i 0 h, line_start-append b r i (omega arith))

pub uncapped : (p : SentinelParser) (n : ℕ) → p.max_output ≡ 0 → over_cap p n ≡ false
uncapped p n h = ground arith

capturing-Extends :
    (p : SentinelParser) (b : Bytes)
    → p.max_output ≡ 0
    → Extends capturing b (advance_in capturing p) (advance_in capturing (push p b))
unfolding advance_in
capturing-Extends p b h = elim (Option-cases (index p.buf p.end_marker)) [
  | inl e ↦ rw (uncapped p (length p.buf) h, e)
  | inr (i, e) ↦
      let bound = index_bound p.buf p.end_marker i e in
      let start = line_start-le p.buf i in
      let chunk = strip_newline (take (line_start p.buf i) p.buf) in
      rw (
        uncapped p (length p.buf) h,
        uncapped (push p b) (length (p.buf ++ b)) h,
        e,
        index-append p.buf b p.end_marker i e,
        line_start-append p.buf b i (omega arith),
        take-append (line_start p.buf i) p.buf b (omega arith),
        uncapped p (length p.output + length chunk) h,
        drop-append (i + length p.end_marker) p.buf b bound,
      )
]

set_exit_code-Extends :
    (p : SentinelParser) (b line : Bytes) (o : Option ℤ)
    → Extends reading_exit_code b (set_exit_code p line o) (set_exit_code (push p b) line o)
set_exit_code-Extends p b line none = refl
set_exit_code-Extends p b line (some ec) = refl

reading-Extends :
    (p : SentinelParser) (b : Bytes)
    → Extends reading_exit_code b
        (advance_in reading_exit_code p)
        (advance_in reading_exit_code (push p b))
unfolding advance_in
reading-Extends p b = elim (Option-cases (index_byte p.buf b'\n')) [
  | inl e ↦ rw e
  | inr (nl, e) ↦
      let inside = index_byte_bound p.buf b'\n' nl e in
      rw (e, index_byte-append p.buf b b'\n' nl e, take-append nl p.buf b (omega arith))
        (set_exit_code-Extends p b _ _)
]

-- More bytes behind the buffer change no answer of `advance`, where there is no cap.
pub advance-Extends :
    (st : ParseState) (p : SentinelParser) (b : Bytes)
    → 0 < length p.beg_marker
    → p.max_output ≡ 0
    → Extends st b (advance_in st p) (advance_in st (push p b))
advance-Extends before_beg p b h u =
    rw (advance-before p) (before-Extends p b (at_marker p.buf p.beg_marker) h refl)
advance-Extends capturing p b h u = capturing-Extends p b u
advance-Extends reading_exit_code p b h u = reading-Extends p b
advance-Extends streaming p b h u = unfold advance_in in refl
advance-Extends done p b h u = unfold advance_in in refl
