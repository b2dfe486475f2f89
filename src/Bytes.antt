-- ===== src/Bytes.antt =====
-- What the program uses of Go's packages bytes, strings and strconv.
pub mod Index
pub mod Offset
pub mod Text
pub mod Split
pub mod Same
use ptyrelay.Base.{
  ℕ, zero, suc, ◌-◌, ◌+◌, Bool, true, false, ◌&&◌, ◌||◌, Bytes, List, [], ◌∷◌, ◌++◌, ◌==◌, ltb, leb,
  if◌then◌else◌, Option, none, some, map_option, length, drop,
}

-- `bytes.HasPrefix`, the prefix first.
unfoldable pub has_prefix : Bytes → Bytes → Bool
has_prefix [] b = true
has_prefix (y ∷ m) [] = false
has_prefix (y ∷ m) (x ∷ b) = y == x && has_prefix m b

-- `bytes.Index`: where `m` first occurs in `b`.
unfoldable pub index : Bytes → Bytes → Option ℕ
unfolding has_prefix
index [] m = if has_prefix m [] then some 0 else none
index (x ∷ b) m = if has_prefix m (x ∷ b) then some 0 else map_option suc (index b m)

-- `bytes.Contains`.
unfoldable pub contains : Bytes → Bytes → Bool
contains b m = elim (index b m) [ none ↦ false | some _ ↦ true ]

-- `bytes.IndexByte`.
unfoldable pub index_byte : Bytes → ℕ → Option ℕ
index_byte [] c = none
index_byte (x ∷ b) c = if x == c then some 0 else map_option suc (index_byte b c)

-- The loop of `ReplaceAll`; `skip` bytes of an occurrence are still to be passed over.
unfoldable pub replace_loop : Bytes → Bytes → ℕ → Bytes → Bytes
unfolding has_prefix
replace_loop old new skip [] = []
replace_loop old new zero (x ∷ b) =
    let hit = has_prefix old (x ∷ b) in
    (if hit then new else x ∷ []) ++ replace_loop old new (if hit then length old - 1 else 0) b
replace_loop old new (suc skip) (x ∷ b) = replace_loop old new skip b

-- `bytes.ReplaceAll` and `strings.ReplaceAll`, for an `old` that is not empty.
abbrev pub replace_all : Bytes → Bytes → Bytes → Bytes
replace_all b old new = replace_loop old new 0 b

-- `strings.Join`.
unfoldable pub join : List Bytes → Bytes → Bytes
join [] sep = []
join (p ∷ []) sep = p
join (p ∷ q ∷ ps) sep = p ++ (sep ++ join (q ∷ ps) sep)

-- `append(b[:0], b[len(b)-k:]...)` where `len(b) > k`: the last `k` bytes.
unfoldable pub keep_last : ℕ → Bytes → Bytes
keep_last k b = if ltb k (length b) then drop (length b - k) b else b

-- `==` on strings.
unfoldable pub same_bytes : Bytes → Bytes → Bool
same_bytes [] [] = true
same_bytes [] (y ∷ c) = false
same_bytes (x ∷ b) [] = false
same_bytes (x ∷ b) (y ∷ c) = x == y && same_bytes b c
