-- ===== src/Tests/Quote.antt =====
-- internal/shellquote on short texts.
use ptyrelay.Base.{◌≡◌, refl, codes, some, ◌∷◌, []}
use ptyrelay.Bytes.{replace_loop}
use ptyrelay.Quote.{quote, quote_all}
use ptyrelay.Quote.Words.{words_of}
use ptyrelay.Quote.RoundTrip.{words_of-quote_all}

quote_it's : quote (codes "it's") ≡ codes "'it'\\''s'"
unfolding quote replace_loop
quote_it's = refl

words_of-quote_all_example :
    words_of (quote_all (codes "a b" ∷ [] ∷ codes "'" ∷ []))
    ≡ some (codes "a b" ∷ [] ∷ codes "'" ∷ [])
words_of-quote_all_example = words_of-quote_all (codes "a b" ∷ [] ∷ codes "'" ∷ [])
