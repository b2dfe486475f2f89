-- ===== src/Bytes/Split.antt =====
-- What pkg/backend/shell uses of packages strings, strconv and fmt to read and to write lines.
use ptyrelay.Base.{
  ℕ, ◌-◌, ◌+◌, ◌*◌, ◌/◌, ◌%◌, ◌^◌, Bool, true, false, ◌&&◌, Bytes, List, [], ◌∷◌, ◌==◌, ltb, leb,
  if◌then◌else◌, Option, none, some,
}

-- A byte in front of the first part of a split.
abbrev pub onto_first : ℕ → List Bytes → List Bytes
onto_first c [] = (c ∷ []) ∷ []
onto_first c (p ∷ ps) = (c ∷ p) ∷ ps

-- `strings.Split` at one byte.
unfoldable pub split : Bytes → ℕ → List Bytes
split [] sep = [] ∷ []
split (c ∷ b) sep = let rest = split b sep in if c == sep then [] ∷ rest else onto_first c rest

-- `strings.Cut` at one byte; `none` where it does not occur.
unfoldable pub cut : Bytes → ℕ → Option (Bytes × Bytes)
cut [] sep = none
cut (c ∷ b) sep =
    let rest = cut b sep in
    if c == sep then some ([], b) else elim rest [ none ↦ none | some (k, v) ↦ some (c ∷ k, v) ]

abbrev pub is_empty : Bytes → Bool
is_empty [] = true
is_empty (_ ∷ _) = false

-- `strings.TrimRight` of one byte.
unfoldable pub trim_right : Bytes → ℕ → Bytes
trim_right [] c = []
trim_right (x ∷ b) c = let rest = trim_right b c in if is_empty rest && x == c then [] else x ∷ rest

-- What stands behind the last `/`.
unfoldable pub behind_last : ℕ → Bytes → Option Bytes
behind_last sep [] = none
behind_last sep (c ∷ b) =
    let rest = behind_last sep b in
    elim rest [ some r ↦ some r | none ↦ (if c == sep then some b else none) ]

-- `strings.ToLower`, on ASCII.
unfoldable pub to_lower : Bytes → Bytes
to_lower [] = []
to_lower (c ∷ b) = (if leb b'A' c && leb c b'Z' then c + 32 else c) ∷ to_lower b

-- The value of octal digits read behind `n`, with no bound.
unfoldable pub octal_value : ℕ → Bytes → Option ℕ
octal_value n [] = some n
octal_value n (c ∷ b) =
    let rest = octal_value (n * 8 + (c - b'0')) b in if leb b'0' c && leb c b'7' then rest else none

abbrev pub of_32_bits : Option ℕ → Option ℕ
of_32_bits none = none
of_32_bits (some n) = if ltb n (2 ^ 32) then some n else none

-- `strconv.ParseUint(s, 8, 32)`; `none` for an error.
abbrev pub parse_octal : Bytes → Option ℕ
parse_octal [] = none
parse_octal (c ∷ b) = of_32_bits (octal_value 0 (c ∷ b))

-- `%o` of a permission, which has nine bits.
abbrev pub format_octal : ℕ → Bytes
format_octal n =
    if ltb n 8
    then (b'0' + n) ∷ []
    else if ltb n 64
    then (b'0' + n / 8) ∷ (b'0' + n % 8) ∷ []
    else (b'0' + n / 64) ∷ (b'0' + n / 8 % 8) ∷ (b'0' + n % 8) ∷ []
