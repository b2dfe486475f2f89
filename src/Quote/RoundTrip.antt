-- ===== src/Quote/RoundTrip.antt =====
-- A quoted text is one word of the shell, and that word is the text.
use ptyrelay.Base.{
  ℕ, Bytes, List, [], ◌∷◌, ◌++◌, ◌==◌, if◌then◌else◌, some, map, ◌≡◌, refl, sym, ap, ◌∙◌, arith,
  append_assoc, append-nil,
}
use ptyrelay.Bytes.{replace_loop, replace_all, join}
use ptyrelay.Quote.{quote, quote_all, escaped_quote}
use ptyrelay.Quote.Words.{between, unquoted, quoted, step_in, lex, start, words_of}

-- The text between the quotes, byte by byte.
unfoldable pub quoted_text : Bytes → Bytes
quoted_text s = replace_all s (b'\'' ∷ []) escaped_quote

-- Inside quotes, one byte of the text.
lex-byte :
    (w : Bytes) (ws : List Bytes) (c : ℕ) (rest : Bytes)
    → lex
        (record { mode = quoted; word = w; words = ws })
        ((if c == b'\'' then escaped_quote else c ∷ []) ++ rest)
      ≡ lex (record { mode = quoted; word = w ++ c ∷ []; words = ws }) rest
unfolding lex step_in
lex-byte w ws c rest = ground arith

pub quoted_text-cons :
    (c : ℕ) (s : Bytes)
    → quoted_text (c ∷ s) ≡ (if c == b'\'' then escaped_quote else c ∷ []) ++ quoted_text s
unfolding quoted_text replace_loop
quoted_text-cons c s = ground arith

lex-quoted_text :
    (s w : Bytes) (ws : List Bytes) (rest : Bytes)
    → lex (record { mode = quoted; word = w; words = ws }) (quoted_text s ++ rest)
      ≡ lex (record { mode = quoted; word = w ++ s; words = ws }) rest
lex-quoted_text [] w ws rest = unfold quoted_text replace_loop in rw append-nil
lex-quoted_text (c ∷ s) w ws rest =
    rw (quoted_text-cons c s, append_assoc)
      (lex-byte w ws c (quoted_text s ++ rest)
        ∙ lex-quoted_text s (w ++ c ∷ []) ws rest
        ∙ rw append_assoc)

abbrev pub quotes : Bytes → Bytes → Bytes
quotes s rest = b'\'' ∷ (quoted_text s ++ b'\'' ∷ rest)

-- `Quote` puts quotes round the text, the empty one included.
pub quote-quotes : (s rest : Bytes) → quote s ++ rest ≡ quotes s rest
unfolding quote quoted_text
quote-quotes [] rest = unfold replace_loop in refl
quote-quotes (c ∷ s) rest = ap (◌∷◌ b'\'') (append_assoc (quoted_text (c ∷ s)) (b'\'' ∷ []) rest)

-- From between two words, a quoted text is read as the start of a word.
lex-quote :
    (s rest : Bytes) (ws : List Bytes)
    → lex (record { mode = between; word = []; words = ws }) (quote s ++ rest)
      ≡ lex (record { mode = unquoted; word = s; words = ws }) rest
lex-quote s rest ws =
    rw (quote-quotes s rest) (unfold lex step_in in (lex-quoted_text s [] ws (b'\'' ∷ rest)))

-- A quoted text is one word of the shell, and that word is the text, whatever bytes it holds.
pub words_of-quote : (s : Bytes) → words_of (quote s) ≡ some (s ∷ [])
unfolding words_of
words_of-quote s = ap (lex start) (sym (append-nil (quote s))) ∙ lex-quote s [] []

lex-space :
    (s : Bytes) (ws : List Bytes) (rest : Bytes)
    → lex (record { mode = unquoted; word = s; words = ws }) (b' ' ∷ rest)
      ≡ lex (record { mode = between; word = []; words = ws ++ s ∷ [] }) rest
unfolding lex step_in
lex-space s ws rest = refl

lex-join :
    (s : Bytes) (args ws : List Bytes)
    → lex
        (record { mode = between; word = []; words = ws })
        (join (map quote (s ∷ args)) (b' ' ∷ []))
      ≡ some (ws ++ s ∷ args)
unfolding join
lex-join s [] ws =
    ap (lex (record { mode = between; word = []; words = ws })) (sym (append-nil (quote s)))
    ∙ lex-quote s [] ws
    ∙ unfold lex in refl
lex-join s (t ∷ args) ws =
    lex-quote s (b' ' ∷ join (map quote (t ∷ args)) (b' ' ∷ [])) ws
    ∙ lex-space s ws (join (map quote (t ∷ args)) (b' ' ∷ []))
    ∙ lex-join t args (ws ++ s ∷ [])
    ∙ rw append_assoc

-- The arguments of `QuoteAll` are the words that the shell reads.
pub words_of-quote_all : (args : List Bytes) → words_of (quote_all args) ≡ some args
unfolding words_of quote_all
words_of-quote_all [] = refl
words_of-quote_all (s ∷ args) = lex-join s args []
