-- ===== src/Bytes/Text.antt =====
-- `bytes.TrimSpace` and `strconv.Atoi`.
use ptyrelay.Base.{
  ℕ, zero, suc, ◌-◌, ◌+◌, ◌*◌, ◌^◌, Bool, ◌&&◌, ◌||◌, Bytes, [], ◌∷◌, ◌==◌, ltb, leb, if◌then◌else◌,
  Option, none, some, length, drop, ℤ, pos, negsuc, reverse_onto,
}

abbrev pub ascii_space : ℕ → Bool
ascii_space c = c == b' ' || (leb 9 c && leb c 13)

-- The white space of Unicode that UTF-8 writes in two bytes: U+0085, U+00A0.
abbrev space_two : ℕ → ℕ → Bool
space_two a b = a == 0xC2 && (b == 0x85 || b == 0xA0)

-- In three bytes: U+1680, U+2000 to U+200A, U+2028, U+2029, U+202F, U+205F, U+3000.
abbrev space_three : ℕ → ℕ → ℕ → Bool
space_three a b c =
    (a == 0xE1 && b == 0x9A && c == 0x80)
    || (a == 0xE2
        && b == 0x80
        && ((leb 0x80 c && leb c 0x8A) || c == 0xA8 || c == 0xA9 || c == 0xAF))
    || (a == 0xE2 && b == 0x81 && c == 0x9F)
    || (a == 0xE3 && b == 0x80 && c == 0x80)

-- How many bytes the white space at the head of the text takes; 0 for none.
abbrev pub leading_space : Bytes → ℕ
leading_space [] = 0
leading_space (a ∷ []) = if ascii_space a then 1 else 0
leading_space (a ∷ b ∷ []) = if ascii_space a then 1 else if space_two a b then 2 else 0
leading_space (a ∷ b ∷ c ∷ _) =
    if ascii_space a then 1 else if space_two a b then 2 else if space_three a b c then 3 else 0

-- The same at the end of a text that is given last byte first.
abbrev trailing_space : Bytes → ℕ
trailing_space [] = 0
trailing_space (a ∷ []) = if ascii_space a then 1 else 0
trailing_space (a ∷ b ∷ []) = if ascii_space a then 1 else if space_two b a then 2 else 0
trailing_space (a ∷ b ∷ c ∷ _) =
    if ascii_space a then 1 else if space_two b a then 2 else if space_three c b a then 3 else 0

-- Drops white space from the head while there is some; a round drops a byte at least, so as many
-- rounds as bytes are enough.
trim_while : (Bytes → ℕ) → ℕ → Bytes → Bytes
trim_while space zero b = b
trim_while space (suc fuel) b = elim (space b) [
  | zero ↦ b
  | suc n ↦ trim_while space fuel (drop (suc n) b)
]

abbrev reverse : Bytes → Bytes
reverse b = reverse_onto b []

-- `bytes.TrimSpace`.
unfoldable pub trim_space : Bytes → Bytes
unfolding trim_while
trim_space b =
    let front = trim_while leading_space (length b) b in
    reverse (trim_while trailing_space (length front) (reverse front))

abbrev pub is_digit : ℕ → Bool
is_digit c = leb b'0' c && leb c b'9'

-- The value of decimal digits read behind `n`, with no bound.
unfoldable pub digits_value : ℕ → Bytes → Option ℕ
digits_value n [] = some n
digits_value n (c ∷ b) =
    let rest = digits_value (n * 10 + (c - b'0')) b in if is_digit c then rest else none

-- At least one digit.
abbrev unsigned : Bytes → Option ℕ
unsigned [] = none
unsigned (c ∷ b) = digits_value 0 (c ∷ b)

-- An `int` has 64 bits.
abbrev positive : ℕ → Option ℤ
positive n = if ltb n (2 ^ 63) then some (pos n) else none

abbrev negative : ℕ → Option ℤ
negative zero = some (pos 0)
negative (suc n) = if ltb n (2 ^ 63) then some (negsuc n) else none

abbrev to_int : (ℕ → Option ℤ) → Option ℕ → Option ℤ
to_int sign none = none
to_int sign (some n) = sign n

-- `strconv.Atoi`; `none` for its syntax and range errors.
unfoldable pub atoi : Bytes → Option ℤ
unfolding digits_value
atoi [] = none
atoi (c ∷ b) =
    if c == b'-'
    then to_int negative (unsigned b)
    else if c == b'+'
    then to_int positive (unsigned b)
    else to_int positive (unsigned (c ∷ b))
