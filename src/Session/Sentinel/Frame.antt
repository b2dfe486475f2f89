-- ===== src/Session/Sentinel/Frame.antt =====
-- What the parser makes of the bytes that the wrapper of `wrapCommand` prints.
use ptyrelay.Base.{
  pos, ℕ, suc, ◌-◌, ◌+◌, ◌<◌, true, false, Bytes, ℤ, List, [], ◌∷◌, ◌++◌, flatten, if◌then◌else◌,
  length, ◌≡◌, ◌≢◌, refl, ap, ◌∙◌, arith, append_assoc, some, none, Lacks, take, drop, get_or,
  length-append, take-length, drop-length, drop-drop,
}
use ptyrelay.Bytes.{index, index_byte, contains}
use ptyrelay.Session.Sentinel.Status.{printf_d, status_reads}
use ptyrelay.Session.Sentinel.Markers.{
  Lacks-beg_marker, Lacks-end_marker, length-beg_marker, length-end_marker,
}
use ptyrelay.Bytes.Index.{index-marker, index_byte-Lacks, contains-index}
use ptyrelay.Bytes.Text.{trim_space, atoi}
use ptyrelay.Session.Sentinel.{
  before_beg, capturing, reading_exit_code, done, SentinelParser, progressed, finished, advance_in,
  complete, feed_all, new_sentinel_parser, feed, line_start, strip_newline, ends_with, but_last,
  beg_marker_of, end_marker_of,
}
use ptyrelay.Session.Sentinel.Advance.{push, uncapped}
use ptyrelay.Session.Sentinel.Chunks.{observe, feed_all-flatten, Runs, next, finish, Runs-feed_loop}

-- What the shell prints when it runs the wrapper round a command: the line of the first `printf`,
-- the output of the command, and the line of the last `printf`, with the exit status.
abbrev pub wrapper_prints : Bytes → Bytes → ℕ → Bytes
wrapper_prints nonce body status =
    b'\n'
    ∷ (beg_marker_of nonce
        ++ b'\n' ∷ (body ++ b'\n' ∷ (end_marker_of nonce ++ (printf_d status ++ b'\n' ∷ []))))

-- One CR at the end goes, as it does in front of the wrapper's newline.
abbrev pub strip_cr : Bytes → Bytes
strip_cr b = if ends_with b'\r' b then but_last b else b

get_or_last : (b : Bytes) (c d : ℕ) → get_or (b ++ c ∷ []) (length b) d ≡ c
get_or_last [] c d = refl
get_or_last (x ∷ b) c d = get_or_last b c d

get_or_at : (b r : Bytes) (c d : ℕ) → get_or (b ++ c ∷ r) (length b) d ≡ c
get_or_at [] r c d = refl
get_or_at (x ∷ b) r c d = get_or_at b r c d

take_at : (b r : Bytes) (c : ℕ) → take (suc (length b)) (b ++ c ∷ r) ≡ b ++ c ∷ []
take_at [] r c = refl
take_at (x ∷ b) r c = ap (◌∷◌ x) (take_at b r c)

drop_at : (b r : Bytes) (c : ℕ) → drop (suc (length b)) (b ++ c ∷ r) ≡ r
drop_at [] r c = refl
drop_at (x ∷ b) r c = drop_at b r c

ends_with-concat : (b : Bytes) (c : ℕ) → ends_with c (b ++ c ∷ []) ≡ true
ends_with-concat b c =
    let n : length (b ++ c ∷ []) ≡ suc (length b) = omega (arith, length-append b (c ∷ [])) in
    let m : length (b ++ c ∷ []) - 1 ≡ length b = omega (arith, length-append b (c ∷ [])) in
    rw (m, n, get_or_at b [] c 0) (ground arith)

but_last-concat : (b : Bytes) (c : ℕ) → but_last (b ++ c ∷ []) ≡ b
but_last-concat b c =
    let m : length (b ++ c ∷ []) - 1 ≡ length b = omega (arith, length-append b (c ∷ [])) in
    rw m (take-length b (c ∷ []))

-- The newline of the wrapper's `printf '\n...'` goes.
pub strip_newline-printf : (b : Bytes) → strip_newline (b ++ b'\n' ∷ []) ≡ strip_cr b
unfolding strip_newline
strip_newline-printf b = rw (ends_with-concat b b'\n', but_last-concat b b'\n')

line_start-newline : (b r : Bytes) → line_start (b ++ b'\n' ∷ r) (suc (length b)) ≡ suc (length b)
unfolding line_start
line_start-newline b r = rw (get_or_at b r b'\n' 0)

module _ (p : SentinelParser) where
  abbrev pub with_buf : Bytes → SentinelParser
  with_buf b = record p { buf = b }

  pub advance_beg :
      (pre rest : Bytes)
      → Lacks b'\n' p.beg_marker
      → 0 < length p.beg_marker
      → index pre p.beg_marker ≡ none
      → advance_in before_beg (with_buf (pre ++ b'\n' ∷ (p.beg_marker ++ b'\n' ∷ rest)))
        ≡ (record p { buf = rest; state = capturing }, progressed)
  unfolding advance_in index_byte
  advance_beg pre rest lacks some_byte absent =
      let m = p.beg_marker in
      let b = pre ++ b'\n' ∷ (m ++ b'\n' ∷ rest) in
      let behind : drop (suc (length pre) + length m) b ≡ b'\n' ∷ rest =
        drop-drop (suc (length pre)) (length m) b
        ∙ rw (drop_at pre (m ++ b'\n' ∷ rest) b'\n') (drop-length m (b'\n' ∷ rest)) in
      let left : drop (suc (length pre) + length m + 0 + 1) b ≡ rest =
        ap (λ (k : ℕ). drop k b) (omega arith)
        ∙ drop-drop (suc (length pre) + length m) 1 b
        ∙ ap (drop 1) behind in
      rw (index-marker pre (b'\n' ∷ rest) m b'\n' lacks some_byte absent, behind)
        (ap (λ (x : Bytes). (record p { buf = x; state = capturing }, progressed)) left)

  advance_end :
      (body rest : Bytes)
      → p.max_output ≡ 0
      → Lacks b'\n' p.end_marker
      → 0 < length p.end_marker
      → index body p.end_marker ≡ none
      → advance_in capturing (with_buf (body ++ b'\n' ∷ (p.end_marker ++ rest))) ≡ (
        record p { buf = rest; state = reading_exit_code; output = p.output ++ strip_cr body },
        progressed,
      )
  unfolding advance_in
  advance_end body rest no_cap lacks some_byte absent =
      let m = p.end_marker in
      let b = body ++ b'\n' ∷ (m ++ rest) in
      let q = with_buf b in
      let left : drop (suc (length body) + length m) b ≡ rest =
        drop-drop (suc (length body)) (length m) b
        ∙ rw (drop_at body (m ++ rest) b'\n') (drop-length m rest) in
      rw (
        uncapped q (length b) no_cap,
        index-marker body rest m b'\n' lacks some_byte absent,
        line_start-newline body (m ++ rest),
        take_at body (m ++ rest) b'\n',
        strip_newline-printf body,
        uncapped q (length p.output + length (strip_cr body)) no_cap,
        left,
      )

  advance_exit_code :
      (digits rest : Bytes) (ec : ℤ)
      → Lacks b'\n' digits
      → atoi (trim_space digits) ≡ some ec
      → advance_in reading_exit_code (with_buf (digits ++ b'\n' ∷ rest))
        ≡ (record p { exit_code = ec; state = done; buf = [] }, finished)
  unfolding advance_in
  advance_exit_code digits rest ec lacks reads =
      rw (index_byte-Lacks digits rest b'\n' lacks, take-length digits (b'\n' ∷ rest), reads)

-- The frame of a command, in one piece, from a parser that waits for it.
module _ (nonce pre body post : Bytes) (status : ℕ) where
  abbrev pub fresh : SentinelParser
  fresh = new_sentinel_parser nonce 0

  abbrev pub frame : Bytes
  frame =
      pre
      ++ b'\n'
        ∷ (beg_marker_of nonce
            ++ b'\n' ∷ (body ++ b'\n' ∷ (end_marker_of nonce ++ (printf_d status ++ b'\n' ∷ post))))

  frame-Runs :
      Lacks b'\n' nonce
      → index pre (beg_marker_of nonce) ≡ none
      → index body (end_marker_of nonce) ≡ none
      → status < 256
      → (q : SentinelParser) × Runs (push fresh frame) q complete
        × (q.output ≡ strip_cr body)
        × (q.exit_code ≡ pos status)
  unfolding new_sentinel_parser
  frame-Runs plain no_beg no_end small =
      let (reads, no_newline) = status_reads status small in
      let tail = printf_d status ++ b'\n' ∷ post in
      let rest = body ++ b'\n' ∷ (end_marker_of nonce ++ tail) in
      let found = record fresh { buf = rest; state = capturing } in
      let cut = record fresh { buf = tail; state = reading_exit_code; output = strip_cr body } in
      let over = record cut { exit_code = pos status; state = done; buf = [] } in
      (
        over,
        next
            (advance_beg fresh pre rest (Lacks-beg_marker b'\n' nonce (omega arith) plain)
              (omega (arith, length-beg_marker nonce)) no_beg)
            (next
              (advance_end found body tail refl (Lacks-end_marker b'\n' nonce (omega arith) plain)
                (omega (arith, length-end_marker nonce)) no_end)
              (finish
                (advance_exit_code cut (printf_d status) post (pos status) no_newline reads))),
        refl,
        refl,
      )

flatten_cons : (cs : List Bytes) (b : Bytes) (c : ℕ) (r : Bytes) → flatten cs ≡ b ++ c ∷ r → cs ≢ []
flatten_cons [] b c r e n = absurd (omega (arith, ap length e, length-append b (c ∷ r)))
flatten_cons (x ∷ cs) b c r e n = cc

feed-frame :
    (nonce pre body post : Bytes) (status : ℕ)
    → Lacks b'\n' nonce
    → index pre (beg_marker_of nonce) ≡ none
    → index body (end_marker_of nonce) ≡ none
    → status < 256
    → observe (feed (new_sentinel_parser nonce 0) (frame nonce pre body post status))
      ≡ (complete, strip_cr body, pos status)
unfolding feed new_sentinel_parser
feed-frame nonce pre body post status plain no_beg no_end small =
    let (q, ran, out, code) = frame-Runs nonce pre body post status plain no_beg no_end small in
    ap observe (Runs-feed_loop 4 ran (omega arith)) ∙ λ i. (complete, out i, code i)

pub wrapper_prints-frame :
    (nonce pre body post : Bytes) (status : ℕ)
    → pre ++ (wrapper_prints nonce body status ++ post) ≡ frame nonce pre body post status
wrapper_prints-frame nonce pre body post status = simp append_assoc

new_parser_marker : (nonce : Bytes) → 0 < length (new_sentinel_parser nonce 0).beg_marker
unfolding new_sentinel_parser
new_parser_marker nonce = omega (arith, length-beg_marker nonce)

new_parser_no_cap : (nonce : Bytes) → (new_sentinel_parser nonce 0).max_output ≡ 0
unfolding new_sentinel_parser
new_parser_no_cap nonce = refl

-- With no cap, from whatever chunks the channel delivers.
pub feed_all-frame :
    (nonce pre body post : Bytes) (status : ℕ) (chunks : List Bytes)
    → Lacks b'\n' nonce
    → contains pre (beg_marker_of nonce) ≡ false
    → contains body (end_marker_of nonce) ≡ false
    → status < 256
    → flatten chunks ≡ pre ++ (wrapper_prints nonce body status ++ post)
    → observe (feed_all (new_sentinel_parser nonce 0) chunks)
      ≡ (complete, strip_cr body, pos status)
feed_all-frame nonce pre body post status [] plain no_beg no_end small e =
    absurd (flatten_cons [] pre _ _ e refl)
feed_all-frame nonce pre body post status (c ∷ cs) plain no_beg no_end small e =
    let p = new_sentinel_parser nonce 0 in
    let whole = e ∙ wrapper_prints-frame nonce pre body post status in
    feed_all-flatten p c cs (new_parser_marker nonce) (new_parser_no_cap nonce)
    ∙ ap (λ (b : Bytes). observe (feed p b)) whole
    ∙ feed-frame nonce pre body post status plain (contains-index pre (beg_marker_of nonce) no_beg)
        (contains-index body (end_marker_of nonce) no_end) small
