-- ===== src/Session/Streaming.antt =====
-- pkg/session/streaming.go: the parser that passes the output of a framed command on to a writer as
-- it arrives. The writer is the writing end of an `io.Pipe`, whose writes fail once the reader is closed.
pub mod Similar
pub mod Steps
pub mod Feed
pub mod Delivered
pub mod Tail
pub mod Fresh
use ptyrelay.Base.{
  ℕ, zero, suc, ◌-◌, ◌+◌, ◌*◌, Bool, true, false, Bytes, List, [], ◌∷◌, ◌++◌, ◌==◌, ltb, map_option,
  if◌then◌else◌, Option, none, some, length, take, drop, ℤ, pos,
}
use ptyrelay.Bytes.{index, index_byte, keep_last}
use ptyrelay.Bytes.Text.{trim_space, atoi}
use ptyrelay.Session.Sentinel.{
  ParseState, before_beg, capturing, streaming, reading_exit_code, done, malformed_exit_code,
  Outcome, progressed, waiting, finished, failed, Fed, more, complete, out_of_fuel, broken,
  strip_newline, beg_marker_of, end_marker_of, is_done,
}

-- What the reader has been given, and after how many writes it closes; `none` for never.
pub record PipeWriter : Type 0 where
  pub written : Bytes
  pub closes_after : Option ℕ

-- `Write` of the pipe; the flag is `err == nil`.
abbrev pub write_at : PipeWriter → Bytes → Option ℕ → PipeWriter × Bool
write_at o b none = (record o { written = o.written ++ b }, true)
write_at o b (some zero) = (o, false)
write_at o b (some (suc n)) = (record o { written = o.written ++ b; closes_after = some n }, true)

abbrev pub pipe_write : PipeWriter → Bytes → PipeWriter × Bool
pipe_write o b = write_at o b o.closes_after

pub record StreamingParser : Type 0 where
  pub beg_marker : Bytes
  pub end_marker : Bytes
  pub state : ParseState
  pub buf : Bytes
  pub out : PipeWriter
  pub exit_code : ℤ

unfoldable pub new_streaming_parser : Bytes → PipeWriter → StreamingParser
new_streaming_parser nonce out = record {
  beg_marker = beg_marker_of nonce;
  end_marker = end_marker_of nonce;
  state = before_beg;
  buf = [];
  out = out;
  exit_code = pos 0;
}

-- `bytes.LastIndexByte`.
unfoldable pub last_index_byte : Bytes → ℕ → Option ℕ
last_index_byte [] c = none
last_index_byte (x ∷ b) c = elim (last_index_byte b c) [
  | some i ↦ some (suc i)
  | none ↦ if x == c then some 0 else none
]

-- `noNewlineHardLimit`.
abbrev pub no_newline_hard_limit : ℕ
no_newline_hard_limit = 65536

-- `case stateBeforeBEG`: behind the marker, at what `bytes.IndexByte` found for the newline. The
-- outcome of a step is `none` where a write failed.
abbrev pub skip_beg_line : StreamingParser → ℕ → Option ℕ → StreamingParser × Option Outcome
skip_beg_line p idx none = (record p { buf = drop idx p.buf }, some waiting)
skip_beg_line p idx (some nl) = (
  record p { buf = drop (idx + length p.beg_marker + nl + 1) p.buf; state = streaming },
  some progressed,
)

-- `case stateBeforeBEG`, at what `bytes.Index` found for the marker.
abbrev pub seek_beg : StreamingParser → Option ℕ → StreamingParser × Option Outcome
seek_beg p none = (record p { buf = keep_last (length p.beg_marker - 1) p.buf }, some waiting)
seek_beg p (some idx) =
    skip_beg_line p idx (index_byte (drop (idx + length p.beg_marker) p.buf) b'\n')

-- `flushEnd`, at what `bytes.LastIndexByte` found; 0 where nothing is flushed.
abbrev pub flush_end : StreamingParser → Option ℕ → ℕ
flush_end p (some last) = last + 1
flush_end p none =
    if ltb no_newline_hard_limit (length p.buf) then length p.buf - (length p.end_marker - 1) else 0

abbrev pub after_flush : StreamingParser → ℕ → PipeWriter × Bool → StreamingParser × Option Outcome
after_flush p n (o, true) = (record p { out = o; buf = drop n p.buf }, some waiting)
after_flush p n (o, false) = (record p { out = o }, none)

-- `case stateStreaming`, where there is no END marker.
unfoldable pub flush : StreamingParser → StreamingParser × Option Outcome
flush p =
    let n = flush_end p (last_index_byte p.buf b'\n') in
    if ltb 0 n then after_flush p n (pipe_write p.out (take n p.buf)) else (p, some waiting)

abbrev pub after_tail : StreamingParser → ℕ → PipeWriter × Bool → StreamingParser × Option Outcome
after_tail p idx (o, true) = (
  record p { out = o; buf = drop (idx + length p.end_marker) p.buf; state = reading_exit_code },
  some progressed,
)
after_tail p idx (o, false) = (record p { out = o }, none)

-- `case stateStreaming`, at what `bytes.Index` found for the END marker.
abbrev pub seek_end : StreamingParser → Option ℕ → StreamingParser × Option Outcome
seek_end p none = flush p
seek_end p (some idx) =
    let chunk = strip_newline (take idx p.buf) in
    after_tail p idx (if ltb 0 (length chunk) then pipe_write p.out chunk else (p.out, true))

-- `case stateReadingExitCode`, at what `strconv.Atoi` returned for the trimmed bytes.
abbrev pub end_stream : StreamingParser → Bytes → Option ℤ → StreamingParser × Option Outcome
end_stream p ec_bytes none = (p, some (failed (malformed_exit_code ec_bytes)))
end_stream p ec_bytes (some ec) =
    (record p { exit_code = ec; state = done; buf = [] }, some finished)

-- `case stateReadingExitCode`, at what `bytes.IndexByte` found for the newline.
abbrev pub seek_exit_code : StreamingParser → Option ℕ → StreamingParser × Option Outcome
seek_exit_code p none = (p, some waiting)
seek_exit_code p (some nl) =
    let ec_bytes = trim_space (take nl p.buf) in end_stream p ec_bytes (atoi ec_bytes)

unfoldable pub advance_stream : ParseState → StreamingParser → StreamingParser × Option Outcome
advance_stream before_beg p = seek_beg p (index p.buf p.beg_marker)
advance_stream streaming p = seek_end p (index p.buf p.end_marker)
advance_stream reading_exit_code p = seek_exit_code p (index_byte p.buf b'\n')
advance_stream capturing p = (p, some waiting)
advance_stream done p = (p, some waiting)

-- What the loop of `feed` does on an outcome; `again` is the loop's next round. `none` is the error
-- of the writer.
abbrev pub stream_result :
    StreamingParser × Option Fed → StreamingParser → Option Outcome → StreamingParser × Option Fed
stream_result again q none = (q, none)
stream_result again q (some progressed) = again
stream_result again q (some waiting) = (q, some more)
stream_result again q (some finished) = (q, some complete)
stream_result again q (some (failed e)) = (q, some (broken e))

-- The loop of `feed`, on fuel.
unfoldable pub stream_loop : ℕ → StreamingParser → StreamingParser × Option Fed
stream_loop zero p = (p, some out_of_fuel)
stream_loop (suc fuel) p =
    let (q, o) = advance_stream p.state p in
    let again = stream_loop fuel q in stream_result again q o

-- The states follow one another, so four rounds are enough.
unfoldable pub stream_feed : StreamingParser → Bytes → StreamingParser × Option Fed
stream_feed p chunk =
    if is_done p.state
    then (p, some complete)
    else stream_loop 4 (record p { buf = p.buf ++ chunk })

-- The next chunk is read only if the parser wants more.
abbrev pub stream_next :
    StreamingParser × Option Fed → StreamingParser → Option Fed → StreamingParser × Option Fed
stream_next rest q none = (q, none)
stream_next rest q (some more) = rest
stream_next rest q (some complete) = (q, some complete)
stream_next rest q (some out_of_fuel) = (q, some out_of_fuel)
stream_next rest q (some (broken e)) = (q, some (broken e))

-- The reader's loop over the chunks that arrive, up to a result.
unfoldable pub stream_all : StreamingParser → List Bytes → StreamingParser × Option Fed
stream_all p [] = (p, some more)
stream_all p (c ∷ cs) =
    let (q, r) = stream_feed p c in let rest = stream_all q cs in stream_next rest q r
