-- ===== src/Quote.antt =====
-- internal/shellquote: `Quote` and `QuoteAll`.
pub mod Words
pub mod RoundTrip
use ptyrelay.Base.{ℕ, Bytes, List, [], ◌∷◌, ◌++◌, map, codes}
use ptyrelay.Bytes.{replace_all, join}

-- The canonical `'\''`.
abbrev pub escaped_quote : Bytes
escaped_quote = b'\'' ∷ b'\\' ∷ b'\'' ∷ b'\'' ∷ []

unfoldable pub quote : Bytes → Bytes
quote [] = b'\'' ∷ b'\'' ∷ []
quote (c ∷ s) = b'\'' ∷ (replace_all (c ∷ s) (b'\'' ∷ []) escaped_quote ++ b'\'' ∷ [])

unfoldable pub quote_all : List Bytes → Bytes
quote_all [] = []
quote_all (a ∷ args) = join (map quote (a ∷ args)) (b' ' ∷ [])
