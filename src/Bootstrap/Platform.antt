-- ===== src/Bootstrap/Platform.antt =====
-- `normalizeOS` and `normalizeArch` of pkg/bootstrap/bootstrap.go, and `strings.Fields`.
use ptyrelay.Base.{
  ℕ, zero, suc, ◌||◌, Bytes, List, [], ◌∷◌, ◌++◌, if◌then◌else◌, codes, length, drop,
}
use ptyrelay.Bytes.{same_bytes}
use ptyrelay.Bytes.Text.{leading_space}
use ptyrelay.Bytes.Split.{to_lower}

abbrev pub onto_field : Bytes → List Bytes → List Bytes
onto_field [] more = more
onto_field (x ∷ word) more = (x ∷ word) ∷ more

-- The fields behind a part of one. A round drops a byte at least.
unfoldable pub fields_loop : ℕ → Bytes → Bytes → List Bytes
fields_loop zero word b = onto_field word []
fields_loop (suc fuel) word [] = onto_field word []
fields_loop (suc fuel) word (x ∷ b) = elim (leading_space (x ∷ b)) [
  | zero ↦ fields_loop fuel (word ++ x ∷ []) b
  | suc n ↦ onto_field word (fields_loop fuel [] (drop n b))
]

-- `strings.Fields`.
abbrev pub fields : Bytes → List Bytes
fields b = fields_loop (length b) [] b

-- `normalizeOS`; the names that its cases list are in lower case already.
unfoldable pub normalize_os : Bytes → Bytes
normalize_os s =
    let lower = to_lower s in
    if same_bytes lower (codes "linux")
    then codes "linux"
    else if same_bytes lower (codes "darwin")
    then codes "darwin"
    else if same_bytes lower (codes "freebsd")
    then codes "freebsd"
    else lower

unfoldable pub normalize_arch : Bytes → Bytes
normalize_arch s =
    if same_bytes s (codes "x86_64") || same_bytes s (codes "amd64")
    then codes "amd64"
    else if same_bytes s (codes "aarch64") || same_bytes s (codes "arm64")
    then codes "arm64"
    else if same_bytes s (codes "i386") || same_bytes s (codes "i686")
    then codes "386"
    else if same_bytes s (codes "armv7l") || same_bytes s (codes "armv6l")
    then codes "arm"
    else to_lower s
