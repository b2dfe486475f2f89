-- ===== src/Bytes/Same.antt =====
-- `bytes.Equal` decides equality.
use ptyrelay.Base.{ℕ, Bool, true, ◌&&◌, Bytes, [], ◌∷◌, ◌==◌, ◌≡◌, refl, arith}
use ptyrelay.Bytes.{same_bytes}

pub same_bytes_refl : (b : Bytes) → same_bytes b b ≡ true
unfolding same_bytes
same_bytes_refl [] = refl
same_bytes_refl (x ∷ b) = ground (arith, same_bytes_refl b)

head_same : (x y : ℕ) (rest : Bool) → ((x == y) && rest) ≡ true → (x ≡ y) × (rest ≡ true)
head_same x y rest h = ground arith

pub same_bytes→≡ : (b c : Bytes) → same_bytes b c ≡ true → b ≡ c
unfolding same_bytes
same_bytes→≡ [] [] h = refl
same_bytes→≡ [] (y ∷ c) h = absurd (cc)
same_bytes→≡ (x ∷ b) [] h = absurd (cc)
same_bytes→≡ (x ∷ b) (y ∷ c) h =
    let (here, there) = head_same x y (same_bytes b c) h in rw (here, same_bytes→≡ b c there) refl
