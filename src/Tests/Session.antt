-- ===== src/Tests/Session.antt =====
-- The session's parser, text filter, writers and loop on short streams.
use ptyrelay.Base.{
  ◌<◌, ◌≡◌, refl, codes, some, ◌∷◌, [], ◌++◌, Bytes, List, false, inr, pos, length, ◌≤◌, ◌≢◌,
  flatten, arith, none, true,
}
use ptyrelay.Bytes.{contains, index, index_byte, has_prefix, keep_last}
use ptyrelay.Bytes.Text.{atoi, trim_space}
use ptyrelay.Session.Sentinel.Status.{printf_d}
use ptyrelay.Session.Sentinel.{
  SentinelParser, feed_loop, advance_in, strip_newline, line_start, new_sentinel_parser, feed,
  feed_all, complete, broken, output_exceeded, out_of_fuel, beg_marker_of, end_marker_of,
}
use ptyrelay.Session.Sentinel.Chunks.{observe, feed_all-flatten, feed-ne-out_of_fuel}
use ptyrelay.Session.Sentinel.Frame.{wrapper_prints, strip_cr}
use ptyrelay.Session.Sentinel.Cap.{feed_all-WithinCap}
use ptyrelay.Session.Sentinel.Delivery.{feed_all-wrapper, feed-over_cap}
use ptyrelay.Session.Ansi.{strip_ansi, esc, backspace}
use ptyrelay.Session.Ansi.Tokens.{plain, control, erase, crlf, write_all, strip_ansi-write_all}
use ptyrelay.Session.Ansi.Plain.{strip_ansi-plain, strip_ansi-revives}
use ptyrelay.Session.Wrap.{wrap_command}
use ptyrelay.Session.Wrap.Echo.{wrap_command-echo}
use ptyrelay.Session.Wrap.Words.{is_word}
use ptyrelay.Session.Wire.{Wire, write_channel, whole, fault, write_all as send_all}
use ptyrelay.Session.Wire.Pieces.{Wrote, write_limit, write_all-Wrote}
use ptyrelay.Session.Drive.{drive_parser, step, start, ctx_done, phase}
use ptyrelay.Session.Framed.{run_framed, prelude, Framed, shell_bash, run_framed_locked}
use ptyrelay.Session.Framed.Gate.{run_framed-gate, passed, prelude_run}
use ptyrelay.Session.Framed.Delivered.{run_framed_locked-delivered}
use ptyrelay.Session.Drive.Escalate.{Holds, drive_parser-start}
use ptyrelay.Session.Drive.Output.{
  chunks, then_events, answer, Returns, drive_parser-chunks, drive_parser_cancelled,
}

abbrev nonce : Bytes
nonce = codes "ab1"

abbrev stream : Bytes
stream = codes "$ \n__PR_BEG_ab1__\nhi\n\n__PR_END_ab1__:3\n$ "

abbrev cut : List Bytes
cut = codes "$ \n__PR_BEG" ∷ codes "_ab1__\nhi\n\n__PR_E" ∷ codes "ND_ab1__:3\n$ " ∷ []

abbrev parser : SentinelParser
parser = new_sentinel_parser nonce 0

-- The stream in three chunks gives the output and the exit code.
cut_result : observe (feed_all parser cut) ≡ (complete, codes "hi\n", pos 3)
unfolding feed_all feed feed_loop advance_in new_sentinel_parser index keep_last index_byte atoi
    trim_space strip_newline line_start
cut_result = refl

prompt_plain : contains (codes "$ ") (beg_marker_of nonce) ≡ false
unfolding contains index has_prefix
prompt_plain = refl

hi_plain : contains (codes "hi\n") (end_marker_of nonce) ≡ false
unfolding contains index has_prefix
hi_plain = refl

cut_stream : flatten cut ≡ codes "$ " ++ (wrapper_prints nonce (codes "hi\n") 3 ++ codes "$ ")
unfolding printf_d
cut_stream = refl

hi_long :
    10 < length (codes "hi\n" ++ 10 ∷ (end_marker_of nonce ++ (printf_d 3 ++ 10 ∷ codes "$ ")))
hi_long = omega arith

feed_all-flatten_example : observe (feed_all parser cut) ≡ observe (feed parser stream)
unfolding new_sentinel_parser
feed_all-flatten_example =
    feed_all-flatten parser (codes "$ \n__PR_BEG")
      (codes "_ab1__\nhi\n\n__PR_E" ∷ codes "ND_ab1__:3\n$ " ∷ []) (omega arith) refl

feed-ne-out_of_fuel_example : (feed parser stream).1 ≢ out_of_fuel
feed-ne-out_of_fuel_example = feed-ne-out_of_fuel parser stream

feed_all-WithinCap_example : length (feed_all (new_sentinel_parser nonce 60) cut).0.output ≤ 60
unfolding new_sentinel_parser
feed_all-WithinCap_example =
    feed_all-WithinCap (new_sentinel_parser nonce 60) cut (omega arith) (omega arith)

feed_all-wrapper_example :
    observe (feed_all (new_sentinel_parser nonce 100) cut)
    ≡ (complete, strip_cr (codes "hi\n"), pos 3)
feed_all-wrapper_example =
    feed_all-wrapper nonce (codes "$ ") (codes "hi\n") (codes "$ ") 3 100 cut (omega arith)
      prompt_plain hi_plain (omega arith) (inr (omega arith)) cut_stream

feed-over_cap_example :
    (feed
      (new_sentinel_parser nonce 10)
      (codes "$ " ++ (wrapper_prints nonce (codes "hi\n") 3 ++ codes "$ "))).1
    ≡ broken (output_exceeded 10)
feed-over_cap_example =
    feed-over_cap nonce (codes "$ ") (codes "hi\n") (codes "$ ") 3 10 (omega arith) prompt_plain
      (omega arith) hi_long

strip_ansi-write_all_example :
    strip_ansi (write_all (control (codes "31") b'm' ∷ plain b'a' ∷ plain b'b' ∷ erase ∷ crlf ∷ []))
    ≡ b'a' ∷ b'\n' ∷ []
strip_ansi-write_all_example =
    strip_ansi-write_all (control (codes "31") b'm' ∷ plain b'a' ∷ plain b'b' ∷ erase ∷ crlf ∷ [])
      (((refl, (refl, tt)), refl), omega arith)

strip_ansi-plain_example : strip_ansi (codes "a b") ≡ codes "a b"
strip_ansi-plain_example = strip_ansi-plain (codes "a b") (omega arith)

strip_ansi-revives_example :
    strip_ansi (esc ∷ b' ' ∷ backspace ∷ b'[' ∷ codes "2J") ≡ esc ∷ b'[' ∷ codes "2J"
strip_ansi-revives_example = strip_ansi-revives b' ' (codes "2J") (omega arith) refl (omega arith)

abbrev ls : Bytes
ls = codes "ls"

abbrev in_text : Bytes
in_text = codes "x"

ls_plain : (contains ls (beg_marker_of nonce) ≡ false) × (contains ls (end_marker_of nonce) ≡ false)
unfolding contains index has_prefix
ls_plain = (refl, refl)

x_plain :
    (contains in_text (beg_marker_of nonce) ≡ false)
    × (contains in_text (end_marker_of nonce) ≡ false)
unfolding contains index has_prefix
x_plain = (refl, refl)

abbrev sent_line : Bytes
sent_line =
    codes
      "__PR_N=ab1; printf '\\n__PR_BEG_'$__PR_N'__\\n'; { ls\n} <<'__PR_STDIN_ab1__'\nx\n__PR_STDIN_ab1__\n__PR_RC=$?; printf '\\n__PR_END_'$__PR_N'__:%d\\n' \"$__PR_RC\"\n"

wrap_ls : wrap_command ls in_text nonce ≡ some sent_line
unfolding wrap_command contains index has_prefix
wrap_ls = refl

wrap_command-echo_example :
    (contains sent_line (beg_marker_of nonce) ≡ false)
    × (contains sent_line (end_marker_of nonce) ≡ false)
unfolding is_word
wrap_command-echo_example =
    wrap_command-echo ls in_text nonce sent_line (refl, (refl, (refl, tt))) wrap_ls ls_plain x_plain

abbrev wire : Wire
wire = record { sent = []; fates = whole ∷ fault 1 ∷ []; max_write_chunk = 2 }

write_all-Wrote_example :
    Wrote
      (write_limit wire (codes "abcde"))
      wire
      (send_all wire (codes "abcde")).0
      (codes "abcde")
      (send_all wire (codes "abcde")).1
write_all-Wrote_example = write_all-Wrote wire (codes "abcde")

drive_parser-start_example :
    Holds [] (drive_parser (start parser wire) (ctx_done ∷ phase ∷ phase ∷ []))
drive_parser-start_example = drive_parser-start parser wire (ctx_done ∷ phase ∷ phase ∷ [])

drive_parser-chunks_example :
    drive_parser (start parser wire) (chunks cut ++ ctx_done ∷ [])
    ≡ then_events (ctx_done ∷ []) (answer (start parser wire) (feed_all parser cut))
drive_parser-chunks_example = drive_parser-chunks (start parser wire) cut (ctx_done ∷ [])

drive_parser_cancelled_example : Returns (
    drive_parser
      (start parser wire)
      (chunks cut ++ ctx_done ∷ (chunks [] ++ phase ∷ (chunks cut ++ phase ∷ []))))
drive_parser_cancelled_example = drive_parser_cancelled parser wire cut [] cut []

abbrev wide : Wire
wide = record { sent = []; fates = whole ∷ []; max_write_chunk = 4096 }

abbrev session : Framed
session = record {
  shell = shell_bash;
  preluded = true;
  dead = false;
  max_output = 100;
  wire = wide;
}

wide_sends : send_all wide sent_line ≡ ((send_all wide sent_line).0, true)
unfolding send_all write_channel
wide_sends = refl

run_framed_locked-delivered_example :
    let ran = run_framed_locked session ls in_text (some nonce) (chunks cut) in
    (ran.result ≡ some (record { output = strip_cr (codes "hi\n"); exit_code = pos 3 }))
    × (ran.error ≡ none)
run_framed_locked-delivered_example =
    run_framed_locked-delivered session ls in_text nonce sent_line (send_all wide sent_line).0
      (codes "$ ") (codes "hi\n") (codes "$ ") 3 cut wrap_ls wide_sends (omega arith) prompt_plain
      hi_plain (omega arith) (inr (omega arith)) cut_stream

abbrev fresh : Framed
fresh = record { shell = shell_bash; preluded = false; dead = false; max_output = 100; wire = wide }

-- The prelude exits with 3.
prelude_fails : passed (prelude_run fresh (some nonce, chunks cut)).result ≡ false
unfolding run_framed_locked wrap_command contains index has_prefix send_all write_channel
    drive_parser step feed feed_loop advance_in new_sentinel_parser keep_last index_byte atoi
    trim_space strip_newline line_start prelude
prelude_fails = refl

run_framed-gate_example :
    let ran = run_framed fresh ls in_text (some nonce, chunks cut) (some nonce, []) in
    (run_framed fresh (codes "rm") [] (some nonce, chunks cut) (none, []) ≡ ran)
    × (ran.result ≡ none)
run_framed-gate_example =
    run_framed-gate fresh ls in_text (codes "rm") [] (some nonce, chunks cut) (some nonce, [])
      (none, []) (inr (refl, prelude_fails))
