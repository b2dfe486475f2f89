-- ===== src/Tests/Shell.antt =====
-- The shell backend of pkg/backend/shell on short lines, and over a session that is gone.
use ptyrelay.Base.{
  ◌<◌, ◌≡◌, refl, Bytes, Bool, true, false, Option, none, some, inr, codes, pos, arith, length,
}
use ptyrelay.Base64.{encode, sextet, decode_all, pieces, decode, value}
use ptyrelay.Base64.Groups.{decode_all-pieces, decode_all-pieces_partial}
use ptyrelay.Bytes.Text.{atoi}
use ptyrelay.Shell.State.{ProbeResult, run_must_succeed}
use ptyrelay.Shell.Write.{store, temp_path_for, stage_all, stage_cmd, finalize_cmd, digest_cmd}
use ptyrelay.Quote.{quote}
use ptyrelay.Bytes.{replace_loop, same_bytes}
use ptyrelay.Bytes.Text.{trim_space}
use ptyrelay.Tests.Remote.{obey, hashed_Remote, hashed-plain, unquote, from_quote}
use ptyrelay.Shell.Write.Verified.{Verified}
use ptyrelay.Shell.Write.Stored.{Replaced, store-Replaced}

abbrev greeting : Bytes
greeting = codes "hello"

greeting_encoded : encode greeting ≡ codes "aGVsbG8="
unfolding encode sextet
greeting_encoded = refl

decode_all-pieces_example :
    decode_all (pieces (length (encode greeting)) 4 (encode greeting)) ≡ some greeting
decode_all-pieces_example = decode_all-pieces 4 greeting (omega arith) refl (omega arith)

five_of_eight : 5 < length (encode greeting)
unfolding encode
five_of_eight = omega arith

decode_all-pieces_partial_example :
    decode_all (pieces (length (encode greeting)) 5 (encode greeting)) ≡ none
decode_all-pieces_partial_example = decode_all-pieces_partial 5 greeting (omega arith) five_of_eight

abbrev any_float : Bytes → Bool
any_float b = true

size_12 : atoi (codes "12") ≡ some (pos 12)
unfolding atoi
size_12 = refl

no_size : atoi (codes "b") ≡ none
unfolding atoi
no_size = refl

abbrev tools : ProbeResult
tools = record {
  os_name = codes "linux";
  has_base64 = true;
  base64_wrap = true;
  has_gzip = false;
  sha256_cmd = codes "sha256sum";
  stat_style = codes "gnu";
  has_find_printf = true;
}

abbrev files : Bytes → Option Bytes
files p = some (codes "old")

stored :
    (store obey
      (λ b. b)
      tools
      4
      (codes "/f")
      greeting
      420
      (temp_path_for (codes "/f") (codes "1f"))
      files).1
    ≡ inr tt
unfolding store stage_all obey run_must_succeed encode pieces stage_cmd quote replace_loop unquote
    from_quote finalize_cmd digest_cmd decode sextet value same_bytes trim_space
stored = refl

store-Replaced_example :
    let (t, r) =
      store obey
        (λ b. b)
        tools
        4
        (codes "/f")
        greeting
        420
        (temp_path_for (codes "/f") (codes "1f"))
        files in
    Replaced
      (hashed_Remote.content files (codes "/f"))
      (hashed_Remote.content t (codes "/f"))
      greeting
      r
    × Verified obey
        (λ b. b)
        tools
        hashed_Remote
        (temp_path_for (codes "/f") (codes "1f"))
        greeting
        r
store-Replaced_example =
    store-Replaced obey (λ b. b) tools hashed_Remote 4 (codes "/f") greeting (codes "1f") 420 files
      (omega arith) refl (omega arith) (hashed-plain _ (codes "/f"))
