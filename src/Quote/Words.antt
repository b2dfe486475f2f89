-- ===== src/Quote/Words.antt =====
-- How a POSIX shell cuts a command line into words, as far as single quotes and backslashes go. A
-- character that the shell would act on, if it stands outside quotes, is refused.
use ptyrelay.Base.{
  ℕ, Bool, ◌||◌, Bytes, List, [], ◌∷◌, ◌++◌, ◌==◌, if◌then◌else◌, Option, none, some,
}

pub data Mode : Type 0 where
  between unquoted quoted escaped : Mode

pub record Lexer : Type 0 where
  pub mode : Mode
  pub word : Bytes
  pub words : List Bytes

abbrev pub is_blank : ℕ → Bool
is_blank c = c == b' ' || c == b'\t'

-- The characters of the shell's grammar and expansions.
abbrev pub is_special : ℕ → Bool
is_special c =
    c == b'\n'
    || c == b'|'
    || c == b'&'
    || c == b';'
    || c == b'<'
    || c == b'>'
    || c == b'('
    || c == b')'
    || c == b'$'
    || c == b'`'
    || c == b'"'
    || c == b'*'
    || c == b'?'
    || c == b'['
    || c == b'#'
    || c == b'~'
    || c == b'='
    || c == b'%'
    || c == b'{'
    || c == b'}'
    || c == b'!'

abbrev pub read_plain : Lexer → ℕ → Option Lexer
read_plain l c =
    if c == b'\''
    then some (record l { mode = quoted })
    else if c == b'\\'
    then some (record l { mode = escaped })
    else if is_special c
    then none
    else some (record l { mode = unquoted; word = l.word ++ c ∷ [] })

unfoldable pub step_in : Mode → Lexer → ℕ → Option Lexer
step_in between l c = if is_blank c then some l else read_plain l c
step_in unquoted l c =
    if is_blank c
    then some (record { mode = between; word = []; words = l.words ++ l.word ∷ [] })
    else read_plain l c
step_in quoted l c =
    if c == b'\''
    then some (record l { mode = unquoted })
    else some (record l { word = l.word ++ c ∷ [] })
step_in escaped l c =
    if c == b'\n'
    then some (record l { mode = unquoted })
    else some (record l { mode = unquoted; word = l.word ++ c ∷ [] })

abbrev pub finish : Mode → Lexer → Option (List Bytes)
finish between l = some l.words
finish unquoted l = some (l.words ++ l.word ∷ [])
finish quoted l = none
finish escaped l = none

unfoldable pub lex : Lexer → Bytes → Option (List Bytes)
lex l [] = finish l.mode l
lex l (c ∷ s) = elim (step_in l.mode l c) [ none ↦ none | some k ↦ lex k s ]

abbrev pub start : Lexer
start = record { mode = between; word = []; words = [] }

-- The words of a command line.
unfoldable pub words_of : Bytes → Option (List Bytes)
unfolding lex step_in
words_of s = lex start s
