-- ===== src/Session/Sentinel/Chunks.antt =====
-- `feed` is a function of the bytes that arrived, not of how they were cut into chunks.
use ptyrelay.Base.{
  ℕ, zero, suc, ◌<◌, true, false, Bytes, ℤ, List, [], ◌∷◌, ◌++◌, flatten, length, ◌≡◌, ◌≢◌, refl,
  sym, ap, ◌∙◌, arith, append_assoc, append-nil, inl, inr, Bool-cases,
}
use ptyrelay.Session.Sentinel.{
  ProtocolError, ParseState, before_beg, capturing, streaming, reading_exit_code, done,
  SentinelParser, Outcome, progressed, waiting, finished, failed, advance_in, advance, Fed, more,
  complete, out_of_fuel, broken, feed_result, feed_loop, is_done, feed, feed_next, feed_all,
}
use ptyrelay.Session.Sentinel.Advance.{push, Extends, advance-Extends}

-- How many times the state can still change.
abbrev pub rank : ParseState → ℕ
rank before_beg = 3
rank capturing = 2
rank reading_exit_code = 1
rank streaming = 0
rank done = 0

-- What every call of `advance` leaves alone, and where it leads.
pub record Keeps (p q : SentinelParser) (o : Outcome) : Type 0 where
  pub beg_marker_kept : q.beg_marker ≡ p.beg_marker
  pub end_marker_kept : q.end_marker ≡ p.end_marker
  pub max_output_kept : q.max_output ≡ p.max_output
  pub falls : o ≡ progressed → rank q.state < rank p.state
  pub stays : o ≡ waiting → q.state ≡ p.state
  pub live : o ≡ progressed → is_done q.state ≡ false

advance_in-Keeps :
    (p : SentinelParser) (st : ParseState)
    → p.state ≡ st
    → Keeps p (advance_in st p).0 (advance_in st p).1
unfolding advance_in
advance_in-Keeps p before_beg e = ground arith
advance_in-Keeps p _ e = ground arith

pub advance-Keeps : {p q : SentinelParser} {o : Outcome} → advance p ≡ (q, o) → Keeps p q o
advance-Keeps {p} e = rw e at (advance_in-Keeps p p.state refl)

-- The loop of `feed`, with no fuel.
pub data Runs : SentinelParser → SentinelParser → Fed → Type 0 where
  next : {p m q : SentinelParser} {r : Fed} → advance p ≡ (m, progressed) → Runs m q r → Runs p q r
  wait : {p q : SentinelParser} → advance p ≡ (q, waiting) → Runs p q more
  finish : {p q : SentinelParser} → advance p ≡ (q, finished) → Runs p q complete
  break :
      {p q : SentinelParser} {e : ProtocolError} → advance p ≡ (q, failed e) → Runs p q (broken e)

loop_result-Runs :
    (p q : SentinelParser) (o : Outcome) (again : SentinelParser × Fed)
    → advance p ≡ (q, o)
    → (o ≡ progressed → Runs q again.0 again.1)
    → Runs p (feed_result again q o).0 (feed_result again q o).1
loop_result-Runs p q progressed again e h = next e (h refl)
loop_result-Runs p q waiting again e h = wait e
loop_result-Runs p q finished again e h = finish e
loop_result-Runs p q (failed x) again e h = break e

-- With fuel above the rank the loop ends by itself.
pub feed_loop-Runs :
    (fuel : ℕ) (p : SentinelParser)
    → rank p.state < fuel
    → Runs p (feed_loop fuel p).0 (feed_loop fuel p).1
unfolding feed_loop
feed_loop-Runs zero p h = absurd (omega arith)
feed_loop-Runs (suc fuel) p h =
    loop_result-Runs p (advance p).0 (advance p).1 (feed_loop fuel (advance p).0) refl λ e.
      feed_loop-Runs fuel (advance p).0 (omega (arith, (advance_in-Keeps p p.state refl).falls e))

pub Runs-feed_loop :
    {p q : SentinelParser} {r : Fed} (fuel : ℕ)
    → Runs p q r
    → rank p.state < fuel
    → feed_loop fuel p ≡ (q, r)
unfolding feed_loop
Runs-feed_loop zero s h = absurd (omega arith)
Runs-feed_loop (suc fuel) (next e s) h =
    rw e (Runs-feed_loop fuel s (omega (arith, (advance-Keeps e).falls refl)))
Runs-feed_loop (suc fuel) (wait e) h = rw e
Runs-feed_loop (suc fuel) (finish e) h = rw e
Runs-feed_loop (suc fuel) (break e) h = rw e

pub rank_lt_four : (st : ParseState) → rank st < 4
rank_lt_four st = ground arith

-- What a parser needs for its answers to be independent of the chunks: a marker, and no cap.
pub record IsOpen (p : SentinelParser) : Type 0 where
  pub marker : 0 < length p.beg_marker
  pub no_cap : p.max_output ≡ 0

advance-IsOpen : {p q : SentinelParser} {o : Outcome} → advance p ≡ (q, o) → IsOpen p → IsOpen q
advance-IsOpen e h = record {
  marker = rw (advance-Keeps e).beg_marker_kept h.marker;
  no_cap = (advance-Keeps e).max_output_kept ∙ h.no_cap;
}

pub Extends-at :
    {p q : SentinelParser} {o : Outcome} (b : Bytes)
    → IsOpen p
    → advance p ≡ (q, o)
    → Extends p.state b (q, o) (advance (push p b))
Extends-at {p} b h e = rw e at (advance-Extends p.state p b h.marker h.no_cap)

Runs-of_eq : {p p' q : SentinelParser} {r : Fed} → advance p' ≡ advance p → Runs p q r → Runs p' q r
Runs-of_eq e (next f s) = next (e ∙ f) s
Runs-of_eq e (wait f) = wait (e ∙ f)
Runs-of_eq e (finish f) = finish (e ∙ f)
Runs-of_eq e (break f) = break (e ∙ f)

-- A parser that waits goes on as if all bytes had come at once.
Runs-push_more :
    {p q u : SentinelParser} {r : Fed} (b : Bytes)
    → IsOpen p
    → Runs p q more
    → Runs (push q b) u r
    → Runs (push p b) u r
Runs-push_more b h (next e s) t =
    next (Extends-at b h e) (Runs-push_more b (advance-IsOpen e h) s t)
Runs-push_more {q} b h (wait e) t =
    let same_state =
      ap (λ (st : ParseState). advance_in st (push q b)) (sym ((advance-Keeps e).stays refl)) in
    Runs-of_eq (Extends-at b h e ∙ same_state) t

Runs-push_complete :
    {p q : SentinelParser} (b : Bytes) → IsOpen p → Runs p q complete → Runs (push p b) q complete
Runs-push_complete b h (next e s) =
    next (Extends-at b h e) (Runs-push_complete b (advance-IsOpen e h) s)
Runs-push_complete b h (finish e) = finish (Extends-at b h e)

Runs-push_broken :
    {p q : SentinelParser} {x : ProtocolError} (b : Bytes)
    → IsOpen p
    → Runs p q (broken x)
    → Runs (push p b) (push q b) (broken x)
Runs-push_broken b h (next e s) =
    next (Extends-at b h e) (Runs-push_broken b (advance-IsOpen e h) s)
Runs-push_broken b h (break e) = break (Extends-at b h e)

pub Runs-live :
    {p q : SentinelParser} → is_done p.state ≡ false → Runs p q more → is_done q.state ≡ false
Runs-live h (next e s) = Runs-live ((advance-Keeps e).live refl) s
Runs-live h (wait e) = rw ((advance-Keeps e).stays refl) h

pub feed-Runs :
    (p : SentinelParser) (a : Bytes)
    → is_done p.state ≡ false
    → Runs (push p a) (feed p a).0 (feed p a).1
unfolding feed
feed-Runs p a live = rw live (feed_loop-Runs 4 (push p a) (rank_lt_four p.state))

pub Runs-feed :
    (p : SentinelParser) (a : Bytes) {q : SentinelParser} {r : Fed}
    → is_done p.state ≡ false
    → Runs (push p a) q r
    → feed p a ≡ (q, r)
unfolding feed
Runs-feed p a live s = rw live (Runs-feed_loop 4 s (rank_lt_four p.state))

pub push-push : (p : SentinelParser) (a b : Bytes) → push (push p a) b ≡ push p (a ++ b)
push-push p a b = ap (λ (x : Bytes). record p { buf = x }) (append_assoc p.buf a b)

-- What a caller sees of a parser: whether it is done, the output and the exit code.
abbrev pub observe : SentinelParser × Fed → Fed × Bytes × ℤ
observe (p, r) = (r, p.output, p.exit_code)

feed-IsOpen : {p q : SentinelParser} {r : Fed} → Runs p q r → IsOpen p → IsOpen q
feed-IsOpen (next e s) h = feed-IsOpen s (advance-IsOpen e h)
feed-IsOpen (wait e) h = advance-IsOpen e h
feed-IsOpen (finish e) h = advance-IsOpen e h
feed-IsOpen (break e) h = advance-IsOpen e h

push-IsOpen : {p : SentinelParser} (a : Bytes) → IsOpen p → IsOpen (push p a)
push-IsOpen a h = record { marker = h.marker; no_cap = h.no_cap }

pub not-Runs-out_of_fuel : {p q : SentinelParser} → ¬ Runs p q out_of_fuel
not-Runs-out_of_fuel (next e s) = not-Runs-out_of_fuel s

-- One call of `feed` on two chunks at once, told from the answer on the first chunk.
abbrev Continues : SentinelParser → Bytes → Bytes → SentinelParser × Fed → Type 0
Continues p a b (q, more) = feed p (a ++ b) ≡ feed q b
Continues p a b (q, complete) = feed p (a ++ b) ≡ (q, complete)
Continues p a b (q, out_of_fuel) = ⊥
Continues p a b (q, broken x) = feed p (a ++ b) ≡ (push q b, broken x)

Runs-Continues :
    (p : SentinelParser) (a b : Bytes) (q : SentinelParser) (r : Fed)
    → IsOpen p
    → is_done p.state ≡ false
    → Runs (push p a) q r
    → Continues p a b (q, r)
Runs-Continues p a b q more h live s = Runs-feed p (a ++ b) live (
    rw (push-push p a b) at
      (Runs-push_more b (push-IsOpen a h) s (feed-Runs q b (Runs-live live s))))
Runs-Continues p a b q complete h live s =
    Runs-feed p (a ++ b) live (rw (push-push p a b) at (Runs-push_complete b (push-IsOpen a h) s))
Runs-Continues p a b q out_of_fuel h live s = absurd (not-Runs-out_of_fuel s)
Runs-Continues p a b q (broken x) h live s =
    Runs-feed p (a ++ b) live (rw (push-push p a b) at (Runs-push_broken b (push-IsOpen a h) s))

-- One more chunk, after what `feed` answered to the chunks before it.
feed_next-flatten :
    (p q : SentinelParser) (a b : Bytes) (r : Fed) (rest : SentinelParser × Fed)
    → Continues p a b (q, r)
    → (r ≡ more → observe rest ≡ observe (feed q b))
    → observe (feed_next rest q r) ≡ observe (feed p (a ++ b))
feed_next-flatten p q a b more rest c h = h refl ∙ ap observe (sym c)
feed_next-flatten p q a b complete rest c h = ap observe (sym c)
feed_next-flatten p q a b out_of_fuel rest c h = absurd c
feed_next-flatten p q a b (broken x) rest c h = ap observe (sym c)

feed_next_lem : (q : SentinelParser) (r : Fed) → feed_next (q, more) q r ≡ (q, r)
feed_next_lem q more = refl
feed_next_lem q complete = refl
feed_next_lem q out_of_fuel = refl
feed_next_lem q (broken x) = refl

live-flatten :
    (p : SentinelParser) (c : Bytes) (cs : List Bytes)
    → IsOpen p
    → is_done p.state ≡ false
    → observe (feed_all p (c ∷ cs)) ≡ observe (feed p (c ++ flatten cs))
unfolding feed_all
live-flatten p c [] h live = ap observe (feed_next_lem (feed p c).0 (feed p c).1) ∙ rw append-nil
live-flatten p c (d ∷ cs) h live =
    let ran = feed-Runs p c live in
    feed_next-flatten p (feed p c).0 c (d ++ flatten cs) (feed p c).1 _
      (Runs-Continues p c (d ++ flatten cs) (feed p c).0 (feed p c).1 h live ran)
      (λ e.
        live-flatten (feed p c).0 d cs (feed-IsOpen ran (push-IsOpen c h))
          (Runs-live live (rw e at ran)))

-- Where there is a BEG marker and no cap on the output, feeding a stream chunk by chunk gives the
-- result, the output and the exit code that feeding it in one piece gives, however it is cut.
pub feed_all-flatten :
    (p : SentinelParser) (c : Bytes) (cs : List Bytes)
    → 0 < length p.beg_marker
    → p.max_output ≡ 0
    → observe (feed_all p (c ∷ cs)) ≡ observe (feed p (flatten (c ∷ cs)))
feed_all-flatten p c cs marker no_cap = elim (Bool-cases (is_done p.state)) [
  | inl over ↦ unfold feed_all feed in rw over
  | inr live ↦ live-flatten p c cs (record { marker = marker; no_cap = no_cap }) live
]

pub feed-done : (p : SentinelParser) (a : Bytes) → is_done p.state ≡ true → feed p a ≡ (p, complete)
unfolding feed
feed-done p a over = rw over

-- The loop of `feed` ends by itself: four rounds are enough, for every parser and every chunk.
pub feed-ne-out_of_fuel : (p : SentinelParser) (a : Bytes) → (feed p a).1 ≢ out_of_fuel
feed-ne-out_of_fuel p a e = elim (Bool-cases (is_done p.state)) [
  | inl over ↦ cc (feed-done p a over)
  | inr live ↦ not-Runs-out_of_fuel (rw e at (feed-Runs p a live))
]
