-- ===== src/Tests/Disk.antt =====
-- The files of a small remote, by their paths.
use ptyrelay.Base.{Bytes, Option, ◌≡◌, ◌≢◌, refl, inl, inr, if◌then◌else◌, Bool-cases}
use ptyrelay.Bytes.{same_bytes}
use ptyrelay.Bytes.Same.{same_bytes_refl, same_bytes→≡}

abbrev pub Disk : Type 0
Disk = Bytes → Option Bytes

abbrev pub put : Disk → Bytes → Option Bytes → Disk
put d path content p = if same_bytes path p then content else d p

pub put_same : (d : Disk) (t : Bytes) (c : Option Bytes) → put d t c t ≡ c
put_same d t c = rw (same_bytes_refl t) refl

pub put_other : (d : Disk) (t p : Bytes) (c : Option Bytes) → t ≢ p → put d t c p ≡ d p
put_other d t p c n = elim (Bool-cases (same_bytes t p)) [
  | inl same ↦ absurd (n (same_bytes→≡ t p same))
  | inr other ↦ rw other refl
]
