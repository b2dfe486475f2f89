-- ===== src/Session/Sentinel.antt =====
-- pkg/session/sentinel.go: the streaming parser that cuts a framed command's output and exit code
-- out of a byte stream. A method that mutates the parser returns the new one.
pub mod Uncapped
pub mod Advance
pub mod Chunks
pub mod Frame
pub mod Cap
pub mod Delivery
pub mod Status
pub mod Markers
use ptyrelay.Base.{
  ℕ, zero, suc, ◌-◌, ◌+◌, Bool, true, false, ◌&&◌, ◌||◌, Bytes, List, [], ◌∷◌, ◌++◌, ◌==◌, ltb,
  if◌then◌else◌, Option, none, some, length, take, drop, get_or, ℤ, pos, codes,
}
use ptyrelay.Bytes.{index, index_byte, keep_last}
use ptyrelay.Bytes.Text.{trim_space, atoi}

-- The errors that wrap `ErrProtocol`.
pub data ProtocolError : Type 0 where
  output_exceeded : ℕ → ProtocolError
  malformed_exit_code : Bytes → ProtocolError

pub data ParseState : Type 0 where
  before_beg capturing streaming reading_exit_code done : ParseState

-- A `maxOutput` below 0 would act as 0 does, which is no limit.
pub record SentinelParser : Type 0 where
  pub beg_marker : Bytes
  pub end_marker : Bytes
  pub state : ParseState
  pub buf : Bytes
  pub output : Bytes
  pub exit_code : ℤ
  pub max_output : ℕ

abbrev pub beg_marker_of : Bytes → Bytes
beg_marker_of nonce = codes "__PR_BEG_" ++ (nonce ++ codes "__")

abbrev pub end_marker_of : Bytes → Bytes
end_marker_of nonce = codes "__PR_END_" ++ (nonce ++ codes "__:")

unfoldable pub new_sentinel_parser : Bytes → ℕ → SentinelParser
new_sentinel_parser nonce max_output = record {
  beg_marker = beg_marker_of nonce;
  end_marker = end_marker_of nonce;
  state = before_beg;
  buf = [];
  output = [];
  exit_code = pos 0;
  max_output = max_output;
}

-- What `advance` returns: (true, false, nil), (false, false, nil), (true, true, nil), or an error.
pub data Outcome : Type 0 where
  progressed waiting finished : Outcome
  failed : ProtocolError → Outcome

-- `for lineStart > 0 && p.buf[lineStart-1] != '\n' { lineStart-- }`
unfoldable pub line_start : Bytes → ℕ → ℕ
line_start b zero = zero
line_start b (suc i) = if get_or b i 0 == b'\n' then suc i else line_start b i

abbrev pub ends_with : ℕ → Bytes → Bool
ends_with c b = ltb 0 (length b) && get_or b (length b - 1) 0 == c

abbrev pub but_last : Bytes → Bytes
but_last b = take (length b - 1) b

-- Strips one newline from the end, and one CR in front of it.
unfoldable pub strip_newline : Bytes → Bytes
strip_newline b =
    if ends_with b'\n' b
    then (let c = but_last b in if ends_with b'\r' c then but_last c else c)
    else b

abbrev pub over_cap : SentinelParser → ℕ → Bool
over_cap p n = ltb 0 p.max_output && ltb p.max_output n

-- `case stateBeforeBEG`: behind the marker, at what `bytes.IndexByte` found for the newline.
abbrev pub skip_marker : SentinelParser → ℕ → Option ℕ → SentinelParser × Outcome
skip_marker p idx none = (record p { buf = drop idx p.buf }, waiting)
skip_marker p idx (some nl) = (
  record p { buf = drop (idx + length p.beg_marker + nl + 1) p.buf; state = capturing },
  progressed,
)

-- `case stateBeforeBEG`, at what `bytes.Index` found for the marker.
abbrev pub find_beg : SentinelParser → Option ℕ → SentinelParser × Outcome
find_beg p none = (record p { buf = keep_last (length p.beg_marker - 1) p.buf }, waiting)
find_beg p (some idx) =
    skip_marker p idx (index_byte (drop (idx + length p.beg_marker) p.buf) b'\n')

-- `appendOutput`; `none` for its error.
abbrev pub append_output : SentinelParser → Bytes → Option SentinelParser
append_output p b =
    if over_cap p (length p.output + length b)
    then none
    else some (record p { output = p.output ++ b })

-- `case stateCapturing`, at what `appendOutput` returned.
abbrev pub end_capture : SentinelParser → ℕ → Option SentinelParser → SentinelParser × Outcome
end_capture p idx none = (p, failed (output_exceeded p.max_output))
end_capture p idx (some q) = (
  record q { buf = drop (idx + length p.end_marker) p.buf; state = reading_exit_code },
  progressed,
)

-- `case stateCapturing`, at what `bytes.Index` found for the marker.
abbrev pub find_end : SentinelParser → Option ℕ → SentinelParser × Outcome
find_end p none = (p, waiting)
find_end p (some idx) =
    end_capture p idx (append_output p (strip_newline (take (line_start p.buf idx) p.buf)))

-- `case stateReadingExitCode`, at what `strconv.Atoi` returned for the trimmed bytes.
abbrev pub set_exit_code : SentinelParser → Bytes → Option ℤ → SentinelParser × Outcome
set_exit_code p ec_bytes none = (p, failed (malformed_exit_code ec_bytes))
set_exit_code p ec_bytes (some ec) = (record p { exit_code = ec; state = done; buf = [] }, finished)

-- `case stateReadingExitCode`, at what `bytes.IndexByte` found for the newline.
abbrev pub find_exit_code : SentinelParser → Option ℕ → SentinelParser × Outcome
find_exit_code p none = (p, waiting)
find_exit_code p (some nl) =
    let ec_bytes = trim_space (take nl p.buf) in set_exit_code p ec_bytes (atoi ec_bytes)

unfoldable pub advance_in : ParseState → SentinelParser → SentinelParser × Outcome
advance_in before_beg p = find_beg p (index p.buf p.beg_marker)
advance_in capturing p =
    if over_cap p (length p.buf)
    then (p, failed (output_exceeded p.max_output))
    else find_end p (index p.buf p.end_marker)
advance_in reading_exit_code p = find_exit_code p (index_byte p.buf b'\n')
advance_in streaming p = (p, waiting)
advance_in done p = (p, waiting)

abbrev pub advance : SentinelParser → SentinelParser × Outcome
advance p = advance_in p.state p

-- What `feed` returns: (false, nil), (true, nil), or an error. `out_of_fuel` is the model's own.
pub data Fed : Type 0 where
  more complete out_of_fuel : Fed
  broken : ProtocolError → Fed

-- What the loop of `feed` does on an outcome; `again` is the loop's next round.
abbrev pub feed_result : SentinelParser × Fed → SentinelParser → Outcome → SentinelParser × Fed
feed_result again q progressed = again
feed_result again q waiting = (q, more)
feed_result again q finished = (q, complete)
feed_result again q (failed e) = (q, broken e)

-- The loop of `feed`, on fuel.
unfoldable pub feed_loop : ℕ → SentinelParser → SentinelParser × Fed
feed_loop zero p = (p, out_of_fuel)
feed_loop (suc fuel) p =
    let (q, o) = advance p in let again = feed_loop fuel q in feed_result again q o

abbrev pub is_done : ParseState → Bool
is_done done = true
is_done _ = false

-- The states follow one another, so four rounds are enough.
unfoldable pub feed : SentinelParser → Bytes → SentinelParser × Fed
feed p chunk =
    if is_done p.state then (p, complete) else feed_loop 4 (record p { buf = p.buf ++ chunk })

-- The next chunk is read only if the parser wants more.
abbrev pub feed_next : SentinelParser × Fed → SentinelParser → Fed → SentinelParser × Fed
feed_next rest q more = rest
feed_next rest q complete = (q, complete)
feed_next rest q out_of_fuel = (q, out_of_fuel)
feed_next rest q (broken e) = (q, broken e)

-- The reader's loop over the chunks that arrive, up to a result.
unfoldable pub feed_all : SentinelParser → List Bytes → SentinelParser × Fed
feed_all p [] = (p, more)
feed_all p (c ∷ cs) = let (q, r) = feed p c in let rest = feed_all q cs in feed_next rest q r
