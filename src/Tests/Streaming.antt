-- ===== src/Tests/Streaming.antt =====
-- The streaming parser and the pump of a pipe on a short stream.
use ptyrelay.Base.{
  ◌≡◌, refl, codes, some, ◌∷◌, [], ◌++◌, Bytes, List, false, pos, flatten, arith, map_option,
}
use ptyrelay.Bytes.{contains, index, has_prefix, keep_last, index_byte}
use ptyrelay.Bytes.Text.{atoi, trim_space}
use ptyrelay.Session.Sentinel.{
  complete, strip_newline, beg_marker_of, end_marker_of, new_sentinel_parser,
}
use ptyrelay.Session.Sentinel.Frame.{wrapper_prints}
use ptyrelay.Session.Sentinel.Status.{printf_d}
use ptyrelay.Session.Wire.{Wire, whole, fault}
use ptyrelay.Session.Drive.{drive_parser, start, Event, chunk, ctx_done, phase}
use ptyrelay.Session.Streaming.{
  new_streaming_parser, stream_all, stream_feed, stream_loop, advance_stream, flush,
  last_index_byte,
}
use ptyrelay.Session.Streaming.Fresh.{fresh_pipe}
use ptyrelay.Session.Streaming.Tail.{Passed}
use ptyrelay.Session.Streaming.Delivered.{stream_all-wrapper}
use ptyrelay.Session.Pump.{pipe_pump, start_pump}
use ptyrelay.Session.Pump.Agrees.{pipe_pump-drive_parser, piped, closed_with}

abbrev nonce : Bytes
nonce = codes "ab1"

abbrev cut : List Bytes
cut = codes "$ \n__PR_BEG" ∷ codes "_ab1__\nhi\n\n" ∷ codes "__PR_END_ab1__:3\n$ " ∷ []

noise_plain : contains (codes "$ ") (beg_marker_of nonce) ≡ false
unfolding contains index has_prefix
noise_plain = refl

body_plain : contains (codes "hi\n") (end_marker_of nonce) ≡ false
unfolding contains index has_prefix
body_plain = refl

cut_whole : flatten cut ≡ codes "$ " ++ (wrapper_prints nonce (codes "hi\n") 3 ++ codes "$ ")
unfolding printf_d
cut_whole = refl

-- The wrapper's newline came before its marker and is passed on.
cut_passed : (stream_all (new_streaming_parser nonce fresh_pipe) cut).0.out.written ≡ codes "hi\n\n"
unfolding stream_all stream_feed new_streaming_parser stream_loop advance_stream index keep_last
    index_byte flush last_index_byte strip_newline atoi trim_space
cut_passed = refl

stream_all-wrapper_example :
    let (q, r) = stream_all (new_streaming_parser nonce fresh_pipe) cut in
    (r ≡ some complete) × (q.exit_code ≡ pos 3) × Passed (codes "hi\n") q.out.written
stream_all-wrapper_example =
    stream_all-wrapper nonce (codes "$ ") (codes "hi\n") (codes "$ ") 3 cut (omega arith)
      noise_plain body_plain (omega arith) cut_whole

abbrev wire : Wire
wire = record { sent = []; fates = whole ∷ fault 1 ∷ []; max_write_chunk = 2 }

abbrev events : List Event
events = chunk (codes "\n__PR_BEG_ab1__\nhi\n") ∷ ctx_done ∷ phase ∷ []

pipe_pump-drive_parser_example :
    let (d, o) = drive_parser (start (new_sentinel_parser nonce 0) wire) events in
    let (u, r) = pipe_pump (start_pump (new_streaming_parser nonce fresh_pipe) wire) events in
    (r ≡ map_option piped o) × (u.wire ≡ d.wire) × (u.dead ≡ d.dead) × (u.closed ≡ closed_with o)
pipe_pump-drive_parser_example = pipe_pump-drive_parser nonce wire events (omega arith)
