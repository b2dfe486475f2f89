-- ===== src/Session/Sentinel/Uncapped.antt =====
-- A parser whose cap is not reached does what a parser without one does.
use ptyrelay.Base.{
  ℕ, ◌-◌, ◌+◌, ◌≤◌, false, Bytes, List, [], ◌∷◌, flatten, length, ◌≡◌, refl, ◌∙◌, arith, inl, inr,
  Bool-cases, length-append, length-take, length-drop, take, drop, Option, some, none, ℤ,
}
use ptyrelay.Bytes.{index, index_byte}
use ptyrelay.Bytes.Index.{index_bound, length-keep_last_le}
use ptyrelay.Session.Sentinel.{
  ParseState, before_beg, capturing, streaming, reading_exit_code, done, SentinelParser, Outcome,
  advance_in, advance, Fed, more, complete, out_of_fuel, broken, is_done, feed, feed_next, feed_all,
  over_cap, skip_marker, find_beg, find_end, set_exit_code, find_exit_code, line_start,
  strip_newline,
}
use ptyrelay.Session.Sentinel.Advance.{push, line_start-le}
use ptyrelay.Session.Sentinel.Chunks.{
  Runs, next, wait, finish, break, feed-Runs, Runs-feed, feed-done,
}

-- The same parser with no cap.
abbrev pub uncap : SentinelParser → SentinelParser
uncap p = record p { max_output = 0 }

-- What a parser holds.
abbrev pub size : SentinelParser → ℕ
size p = length p.output + length p.buf

-- Enough room in the cap for all that the parser holds.
abbrev Fits : SentinelParser → Type 0
Fits p = size p ≤ p.max_output

-- The answer of the parser with no cap, told from the answer with the cap.
record Agrees (p : SentinelParser) (with_cap without : SentinelParser × Outcome) : Type 0 where
  same : without ≡ (uncap with_cap.0, with_cap.1)
  shrinks : size with_cap.0 ≤ size p
  kept : with_cap.0.max_output ≡ p.max_output

roomy : (p : SentinelParser) (n : ℕ) → n ≤ p.max_output → over_cap p n ≡ false
roomy p n h = ground arith

length-strip_newline : (b : Bytes) → length (strip_newline b) ≤ length b
unfolding strip_newline
length-strip_newline b =
    let c = take (length b - 1) b in
    ground (arith, length-take (length b - 1) b, length-take (length c - 1) c)

skip_marker-Agrees :
    (p : SentinelParser) (idx : ℕ) (o : Option ℕ)
    → Agrees p (skip_marker p idx o) (skip_marker (uncap p) idx o)
skip_marker-Agrees p idx none = record {
  same = refl;
  shrinks = omega (arith, length-drop idx p.buf);
  kept = refl;
}
skip_marker-Agrees p idx (some nl) = record {
  same = refl;
  shrinks = omega (arith, length-drop (idx + length p.beg_marker + nl + 1) p.buf);
  kept = refl;
}

find_beg-Agrees :
    (p : SentinelParser) (o : Option ℕ) → Agrees p (find_beg p o) (find_beg (uncap p) o)
find_beg-Agrees p none = record {
  same = refl;
  shrinks = omega (arith, length-keep_last_le (length p.beg_marker - 1) p.buf);
  kept = refl;
}
find_beg-Agrees p (some idx) =
    skip_marker-Agrees p idx (index_byte (drop (idx + length p.beg_marker) p.buf) b'\n')

find_end-Agrees :
    (p : SentinelParser) (o : Option ℕ)
    → Fits p
    → index p.buf p.end_marker ≡ o
    → Agrees p (find_end p o) (find_end (uncap p) o)
find_end-Agrees p none h e = record { same = refl; shrinks = omega arith; kept = refl }
find_end-Agrees p (some idx) h e =
    let inside = index_bound p.buf p.end_marker idx e in
    let chunk = strip_newline (take (line_start p.buf idx) p.buf) in
    let small : length chunk ≤ idx = omega (
      arith,
      length-strip_newline (take (line_start p.buf idx) p.buf),
      length-take (line_start p.buf idx) p.buf,
      line_start-le p.buf idx,
    ) in
    rw (roomy p (length p.output + length chunk) (omega arith)) (record {
      same = refl;
      shrinks =
          omega
            (arith, length-append p.output chunk, length-drop (idx + length p.end_marker) p.buf);
      kept = refl;
    })

set_exit_code-Agrees :
    (p : SentinelParser) (line : Bytes) (o : Option ℤ)
    → Agrees p (set_exit_code p line o) (set_exit_code (uncap p) line o)
set_exit_code-Agrees p line none = record { same = refl; shrinks = omega arith; kept = refl }
set_exit_code-Agrees p line (some ec) = record { same = refl; shrinks = omega arith; kept = refl }

find_exit_code-Agrees :
    (p : SentinelParser) (o : Option ℕ) → Agrees p (find_exit_code p o) (find_exit_code (uncap p) o)
find_exit_code-Agrees p none = record { same = refl; shrinks = omega arith; kept = refl }
find_exit_code-Agrees p (some nl) = set_exit_code-Agrees p _ _

advance_in-Agrees :
    (st : ParseState) (p : SentinelParser)
    → Fits p
    → Agrees p (advance_in st p) (advance_in st (uncap p))
unfolding advance_in
advance_in-Agrees before_beg p h = find_beg-Agrees p (index p.buf p.beg_marker)
advance_in-Agrees capturing p h =
    rw (roomy p (length p.buf) (omega arith)) (find_end-Agrees p (index p.buf p.end_marker) h refl)
advance_in-Agrees reading_exit_code p h = find_exit_code-Agrees p (index_byte p.buf b'\n')
advance_in-Agrees streaming p h = record { same = refl; shrinks = omega arith; kept = refl }
advance_in-Agrees done p h = record { same = refl; shrinks = omega arith; kept = refl }

advance-Agrees :
    {p q : SentinelParser} {o : Outcome}
    → Fits p
    → advance p ≡ (q, o)
    → Agrees p (q, o) (advance (uncap p))
advance-Agrees {p} h e = rw e at (advance_in-Agrees p.state p h)

-- The cap plays no part in a run that has room for everything.
record RunAgrees (p q : SentinelParser) (r : Fed) : Type 0 where
  runs : Runs (uncap p) (uncap q) r
  run_shrinks : size q ≤ size p
  run_kept : q.max_output ≡ p.max_output

Runs-uncap : {p q : SentinelParser} {r : Fed} → Fits p → Runs p q r → RunAgrees p q r
Runs-uncap h (next e s) =
    let a = advance-Agrees h e in
    let later = Runs-uncap (omega (arith, a.shrinks, a.kept)) s in
    record {
      runs = next a.same later.runs;
      run_shrinks = omega (arith, later.run_shrinks, a.shrinks);
      run_kept = later.run_kept ∙ a.kept;
    }
Runs-uncap h (wait e) =
    let a = advance-Agrees h e in
    record { runs = wait a.same; run_shrinks = a.shrinks; run_kept = a.kept }
Runs-uncap h (finish e) =
    let a = advance-Agrees h e in
    record { runs = finish a.same; run_shrinks = a.shrinks; run_kept = a.kept }
Runs-uncap h (break e) =
    let a = advance-Agrees h e in
    record { runs = break a.same; run_shrinks = a.shrinks; run_kept = a.kept }

feed-uncap :
    (p : SentinelParser) (c : Bytes)
    → size p + length c ≤ p.max_output
    → (feed (uncap p) c ≡ (uncap (feed p c).0, (feed p c).1))
      × (size (feed p c).0 ≤ size p + length c)
      × ((feed p c).0.max_output ≡ p.max_output)
feed-uncap p c h = elim (Bool-cases (is_done p.state)) [
  | inl over ↦ rw (feed-done p c over, feed-done (uncap p) c over) (refl, omega arith, refl)
  | inr live ↦
      let a =
        Runs-uncap {p = push p c} (omega (arith, length-append p.buf c)) (feed-Runs p c live) in
      (
        Runs-feed (uncap p) c live a.runs,
        omega (arith, a.run_shrinks, length-append p.buf c),
        a.run_kept,
      )
]

feed_next-uncap :
    (q : SentinelParser) (r : Fed) (rest rest' : SentinelParser × Fed)
    → rest' ≡ (uncap rest.0, rest.1)
    → feed_next rest' (uncap q) r ≡ (uncap (feed_next rest q r).0, (feed_next rest q r).1)
feed_next-uncap q more rest rest' h = h
feed_next-uncap q complete rest rest' h = refl
feed_next-uncap q out_of_fuel rest rest' h = refl
feed_next-uncap q (broken e) rest rest' h = refl

-- A parser whose cap has room for the whole stream answers as one with no cap.
pub feed_all-uncap :
    (p : SentinelParser) (cs : List Bytes)
    → size p + length (flatten cs) ≤ p.max_output
    → feed_all (uncap p) cs ≡ (uncap (feed_all p cs).0, (feed_all p cs).1)
unfolding feed_all
feed_all-uncap p [] h = refl
feed_all-uncap p (c ∷ cs) h =
    let room = length-append c (flatten cs) in
    let (same, held, kept) = feed-uncap p c (omega (arith, room)) in
    rw same (
      feed_next-uncap (feed p c).0 (feed p c).1 (feed_all (feed p c).0 cs)
        (feed_all (uncap (feed p c).0) cs)
        (feed_all-uncap (feed p c).0 cs (omega (arith, room, held, kept))))
