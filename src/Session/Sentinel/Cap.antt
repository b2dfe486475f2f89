-- ===== src/Session/Sentinel/Cap.antt =====
-- The cap on the output: what it bounds, and when it makes no difference.
use ptyrelay.Base.{
  ℕ, ◌+◌, ◌<◌, ◌≤◌, Bytes, List, [], ◌∷◌, length, ◌≡◌, refl, ◌∙◌, arith, inl, inr, Bool-cases,
  length-append, take, Option, some, none,
}
use ptyrelay.Bytes.{index, index_byte}
use ptyrelay.Session.Sentinel.{
  ParseState, before_beg, capturing, streaming, reading_exit_code, done, SentinelParser, Outcome,
  advance_in, advance, Fed, more, complete, out_of_fuel, broken, is_done, feed, feed_next, feed_all,
  over_cap, find_beg, find_end, find_exit_code, line_start, strip_newline,
}
use ptyrelay.Session.Sentinel.Chunks.{
  Runs, next, wait, finish, break, feed-Runs, feed-done, advance-Keeps,
}

-- The output is within the cap.
abbrev pub WithinCap : SentinelParser → Type 0
WithinCap p = length p.output ≤ p.max_output

find_end-WithinCap :
    (p : SentinelParser) (o : Option ℕ)
    → 0 < p.max_output
    → WithinCap p
    → WithinCap (find_end p o).0
find_end-WithinCap p none h w = w
find_end-WithinCap p (some idx) h w =
    let chunk = strip_newline (take (line_start p.buf idx) p.buf) in
    elim (Bool-cases (over_cap p (length p.output + length chunk))) [
      | inl over ↦ rw over w
      | inr room ↦ rw room (ground (arith, length-append p.output chunk))
    ]

find_beg-WithinCap : (p : SentinelParser) (o : Option ℕ) → WithinCap p → WithinCap (find_beg p o).0
find_beg-WithinCap p none w = w
find_beg-WithinCap p (some idx) w = ground arith

find_exit_code-WithinCap :
    (p : SentinelParser) (o : Option ℕ) → WithinCap p → WithinCap (find_exit_code p o).0
find_exit_code-WithinCap p none w = w
find_exit_code-WithinCap p (some nl) w = ground arith

advance_in-WithinCap :
    (st : ParseState) (p : SentinelParser)
    → 0 < p.max_output
    → WithinCap p
    → WithinCap (advance_in st p).0
unfolding advance_in
advance_in-WithinCap before_beg p h w = find_beg-WithinCap p (index p.buf p.beg_marker) w
advance_in-WithinCap capturing p h w = elim (Bool-cases (over_cap p (length p.buf))) [
  | inl over ↦ rw over w
  | inr room ↦ rw room (find_end-WithinCap p (index p.buf p.end_marker) h w)
]
advance_in-WithinCap reading_exit_code p h w = find_exit_code-WithinCap p (index_byte p.buf b'\n') w
advance_in-WithinCap streaming p h w = w
advance_in-WithinCap done p h w = w

advance-WithinCap :
    (p q : SentinelParser) {o : Outcome}
    → advance p ≡ (q, o)
    → 0 < p.max_output
    → WithinCap p
    → (0 < q.max_output) × WithinCap q × (q.max_output ≡ p.max_output)
advance-WithinCap p q e h w =
    let kept = (advance-Keeps e).max_output_kept in
    (omega (arith, kept), rw e at (advance_in-WithinCap p.state p h w), kept)

Runs-WithinCap :
    {p q : SentinelParser} {r : Fed}
    → Runs p q r
    → 0 < p.max_output
    → WithinCap p
    → WithinCap q × (q.max_output ≡ p.max_output)
Runs-WithinCap {p} (next {m = m} e s) h w =
    let (h', w', kept) = advance-WithinCap p m e h w in
    let (w'', kept') = Runs-WithinCap s h' w' in (w'', kept' ∙ kept)
Runs-WithinCap {p} {q} (wait e) h w = let (_, w', kept) = advance-WithinCap p q e h w in (w', kept)
Runs-WithinCap {p} {q} (finish e) h w =
    let (_, w', kept) = advance-WithinCap p q e h w in (w', kept)
Runs-WithinCap {p} {q} (break e) h w = let (_, w', kept) = advance-WithinCap p q e h w in (w', kept)

feed-WithinCap :
    (p : SentinelParser) (c : Bytes)
    → 0 < p.max_output
    → WithinCap p
    → WithinCap (feed p c).0 × ((feed p c).0.max_output ≡ p.max_output)
feed-WithinCap p c h w = elim (Bool-cases (is_done p.state)) [
  | inl over ↦ rw (feed-done p c over) (w, refl)
  | inr live ↦ Runs-WithinCap (feed-Runs p c live) h w
]

feed_next-cases :
    (P : SentinelParser → Type 0) (rest : SentinelParser × Fed) (q : SentinelParser) (r : Fed)
    → P rest.0
    → P q
    → P (feed_next rest q r).0
feed_next-cases P rest q more h k = h
feed_next-cases P rest q complete h k = k
feed_next-cases P rest q out_of_fuel h k = k
feed_next-cases P rest q (broken e) h k = k

-- Whatever arrives, the captured output never grows past a cap that is set.
pub feed_all-WithinCap :
    (p : SentinelParser) (cs : List Bytes)
    → 0 < p.max_output
    → length p.output ≤ p.max_output
    → length (feed_all p cs).0.output ≤ p.max_output
unfolding feed_all
feed_all-WithinCap p [] h w = w
feed_all-WithinCap p (c ∷ cs) h w =
    let (w', kept) = feed-WithinCap p c h w in
    feed_next-cases (λ q. length q.output ≤ p.max_output) (feed_all (feed p c).0 cs) (feed p c).0
      (feed p c).1 (rw kept at (feed_all-WithinCap (feed p c).0 cs (omega (arith, kept)) w'))
      (omega (arith, w', kept))
