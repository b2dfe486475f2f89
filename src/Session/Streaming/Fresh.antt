-- ===== src/Session/Streaming/Fresh.antt =====
-- The two parsers at their start.
use ptyrelay.Base.{Bytes, [], none, refl, arith, Lacks}
use ptyrelay.Session.Sentinel.{new_sentinel_parser}
use ptyrelay.Session.Sentinel.Markers.{length-beg_marker, Lacks-end_marker, length-end_marker}
use ptyrelay.Session.Streaming.{PipeWriter, new_streaming_parser}
use ptyrelay.Session.Streaming.Similar.{Alike, IsPlain, looking}

-- The pipe, when nobody has read of it; its reader does not close.
abbrev pub fresh_pipe : PipeWriter
fresh_pipe = record { written = []; closes_after = none }

pub fresh-IsPlain : (nonce : Bytes) → Lacks b'\n' nonce → IsPlain (new_sentinel_parser nonce 0)
unfolding new_sentinel_parser
fresh-IsPlain nonce plain = record {
  beg_some = omega (arith, length-beg_marker nonce);
  end_some = omega (arith, length-end_marker nonce);
  end_line = Lacks-end_marker b'\n' nonce (omega arith) plain;
  no_cap = refl;
}

pub fresh-Alike :
    {P : Bytes → Type 0} (nonce : Bytes)
    → Alike P (new_sentinel_parser nonce 0) (new_streaming_parser nonce fresh_pipe)
unfolding new_sentinel_parser new_streaming_parser
fresh-Alike nonce = record {
  common = (refl, refl, refl, refl);
  stage = looking refl refl refl refl;
}
