-- ===== src/Session/Wrap.antt =====
-- `wrapCommand`, `truncateForError` and the nonce of pkg/session/framed.go.
pub mod Words
pub mod Echo
use ptyrelay.Base.{
  ℕ, ◌-◌, Bool, true, false, ◌&&◌, Bytes, [], ◌∷◌, ◌++◌, ◌==◌, ltb, leb, if◌then◌else◌, Option,
  none, some, length, take, get_or, codes,
}
use ptyrelay.Bytes.{contains}

abbrev pub stdin_delimiter : Bytes → Bytes
stdin_delimiter nonce = codes "__PR_STDIN_" ++ (nonce ++ codes "__")

-- `__PR_N=<nonce>; printf '\n__PR_BEG_'$__PR_N'__\n'; { `
abbrev pub opening : Bytes → Bytes → Bytes
opening nonce rest =
    codes "__PR_N=" ++ (nonce ++ (codes "; printf '\\n__PR_BEG_'$__PR_N'__\\n'; { " ++ rest))

abbrev pub closing : Bytes
closing = codes "__PR_RC=$?; printf '\\n__PR_END_'$__PR_N'__:%d\\n' \"$__PR_RC\""

-- The here-doc: the input, with a newline at its end, between the delimiter lines.
abbrev pub here_doc : Bytes → Bytes → Bytes → Bytes
here_doc nonce stdin rest =
    codes " <<'"
    ++ (stdin_delimiter nonce
        ++ (codes "'\n"
            ++ (stdin
                ++ ((if get_or stdin (length stdin - 1) 0 == b'\n' then [] else b'\n' ∷ [])
                    ++ (stdin_delimiter nonce ++ b'\n' ∷ rest)))))

-- `none` is the error for an input that holds the delimiter.
unfoldable pub wrap_command : Bytes → Bytes → Bytes → Option Bytes
wrap_command cmd stdin nonce =
    if ltb 0 (length stdin) && contains stdin (stdin_delimiter nonce)
    then none
    else some (
        opening nonce (
          cmd
          ++ (codes "\n}"
              ++ (if ltb 0 (length stdin)
                  then here_doc nonce stdin (closing ++ b'\n' ∷ [])
                  else codes "; " ++ (closing ++ b'\n' ∷ [])))))

unfoldable pub truncate_for_error : Bytes → Bytes
truncate_for_error b = if leb (length b) 256 then b else take 256 b
