-- ===== src/Base64.antt =====
-- What the program uses of Go's encoding/base64 (`StdEncoding.EncodeToString`), the decoder of RFC
-- 4648, and the cutting of a text into pieces of one size.
pub mod Groups
use ptyrelay.Base.{
  ℕ, zero, suc, ◌+◌, ◌-◌, ◌*◌, ◌/◌, ◌%◌, Bool, true, false, ◌&&◌, ◌||◌, Bytes, List, [], ◌∷◌, ◌++◌,
  Option, none, some, ◌==◌, leb, ltb, if◌then◌else◌, length, take, drop,
}

unfoldable pub sextet : ℕ → ℕ
sextet n =
    if ltb n 26
    then b'A' + n
    else if ltb n 52
    then b'a' + (n - 26)
    else if ltb n 62
    then b'0' + (n - 52)
    else if n == 62
    then b'+'
    else b'/'

-- `EncodeToString`.
unfoldable pub encode : Bytes → Bytes
encode [] = []
encode (a ∷ []) = sextet (a / 4) ∷ sextet (a % 4 * 16) ∷ b'=' ∷ b'=' ∷ []
encode (a ∷ b ∷ []) =
    sextet (a / 4) ∷ sextet (a % 4 * 16 + b / 16) ∷ sextet (b % 16 * 4) ∷ b'=' ∷ []
encode (a ∷ b ∷ c ∷ rest) =
    sextet (a / 4)
    ∷ sextet (a % 4 * 16 + b / 16)
    ∷ sextet (b % 16 * 4 + c / 64)
    ∷ sextet (c % 64)
    ∷ encode rest

-- The number that a digit stands for.
unfoldable pub value : ℕ → Option ℕ
value c =
    if leb b'A' c && leb c b'Z'
    then some (c - b'A')
    else if leb b'a' c && leb c b'z'
    then some (c - b'a' + 26)
    else if leb b'0' c && leb c b'9'
    then some (c - b'0' + 52)
    else if c == b'+'
    then some 62
    else if c == b'/'
    then some 63
    else none

abbrev pub two : Option ℕ → Option ℕ → Option Bytes
two (some w) (some x) = some ((w * 4 + x / 16) ∷ [])
two (some w) none = none
two none x = none

abbrev pub three : Option Bytes → Option ℕ → Option ℕ → Option Bytes
three (some a) (some x) (some y) = some (a ++ (x % 16 * 16 + y / 4) ∷ [])
three (some a) (some x) none = none
three (some a) none y = none
three none x y = none

abbrev pub four : Option Bytes → Option ℕ → Option ℕ → Option Bytes → Option Bytes
four (some a) (some y) (some z) (some rest) = some (a ++ (y % 4 * 64 + z) ∷ rest)
four (some a) (some y) (some z) none = none
four (some a) (some y) none rest = none
four (some a) none z rest = none
four none y z rest = none

abbrev pub if_last : Bytes → Option Bytes → Option Bytes
if_last [] r = r
if_last (c ∷ rest) r = none

-- Groups of four digits; the last may be padded.
unfoldable pub decode : Bytes → Option Bytes
decode [] = some []
decode (w ∷ []) = none
decode (w ∷ x ∷ []) = none
decode (w ∷ x ∷ y ∷ []) = none
decode (w ∷ x ∷ y ∷ z ∷ rest) =
    let later = decode rest in
    let one = two (value w) (value x) in
    let both = three one (value x) (value y) in
    if z == b'='
    then if_last rest (if y == b'=' then one else both)
    else four both (value y) (value z) later

unfoldable pub without_newlines : Bytes → Bytes
without_newlines [] = []
without_newlines (c ∷ b) =
    let rest = without_newlines b in if c == b'\n' || c == b'\r' then rest else c ∷ rest

-- `DecodeString`, which passes newlines over.
abbrev pub decode_string : Bytes → Option Bytes
decode_string b = decode (without_newlines b)

-- The loop `for i := 0; i < len(s); i += size`, on what is left; a piece has a byte at least where
-- the size is not 0, so a round for each byte is enough.
unfoldable pub pieces : ℕ → ℕ → Bytes → List Bytes
pieces zero size b = []
pieces (suc fuel) size [] = []
pieces (suc fuel) size (x ∷ b) = take size (x ∷ b) ∷ pieces fuel size (drop size (x ∷ b))

abbrev pub joined : Option Bytes → Option Bytes → Option Bytes
joined (some a) (some b) = some (a ++ b)
joined (some a) none = none
joined none later = none

-- The pieces decoded one by one, and joined.
unfoldable pub decode_all : List Bytes → Option Bytes
decode_all [] = some []
decode_all (p ∷ ps) = joined (decode p) (decode_all ps)
