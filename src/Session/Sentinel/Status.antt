-- ===== src/Session/Sentinel/Status.antt =====
-- The decimal digits that the wrapper prints for an exit status, and how the parser reads them.
use ptyrelay.Base.{
  ℕ, zero, suc, ◌+◌, ◌<◌, ◌/◌, ◌%◌, Bool, true, false, ◌&&◌, not, Bytes, [], ◌∷◌, ◌++◌, ◌==◌, ltb,
  ◌≡◌, refl, ap, Option, some, none, ℤ, pos, negsuc, ==_iff, Lacks, arith, if◌then◌else◌,
}
use ptyrelay.Bytes.Text.{trim_space, atoi}

-- `printf %d` of an exit status, which is below 256: three digits at most.
printf_d_loop : ℕ → ℕ → Bytes
printf_d_loop zero n = []
printf_d_loop (suc fuel) n =
    let high = printf_d_loop fuel (n / 10) in
    if ltb n 10 then (b'0' + n) ∷ [] else high ++ (b'0' + n % 10) ∷ []

unfoldable pub printf_d : ℕ → Bytes
unfolding printf_d_loop
printf_d n = printf_d_loop 3 n

all_below : ℕ → (ℕ → Bool) → Bool
all_below zero test = true
all_below (suc n) test = test n && all_below n test

all_below_sound :
    (n : ℕ) (test : ℕ → Bool) (x : ℕ) → all_below n test ≡ true → x < n → test x ≡ true
unfolding all_below
all_below_sound zero test x h lt = absurd (omega arith)
all_below_sound (suc n) test x h lt = ground (arith, all_below_sound n test x)

abbrev is_int : Option ℤ → ℕ → Bool
is_int (some (pos m)) n = m == n
is_int (some (negsuc m)) n = false
is_int none n = false

is_int-eq : (o : Option ℤ) (n : ℕ) → is_int o n ≡ true → o ≡ some (pos n)
is_int-eq (some (pos m)) n h = ap (λ (k : ℕ). some (pos k)) ((==_iff m n).0 h)
is_int-eq (some (negsuc m)) n h = cc
is_int-eq none n h = cc

lacks_byte : ℕ → Bytes → Bool
lacks_byte c [] = true
lacks_byte c (x ∷ b) = not (x == c) && lacks_byte c b

lacks_byte-Lacks : (c : ℕ) (b : Bytes) → lacks_byte c b ≡ true → Lacks c b
unfolding lacks_byte
lacks_byte-Lacks c [] h = tt
lacks_byte-Lacks c (x ∷ b) h = (ground arith, lacks_byte-Lacks c b (ground arith))

status_table :
    all_below 256 (λ n. is_int (atoi (trim_space (printf_d n))) n && lacks_byte b'\n' (printf_d n))
    ≡ true
unfolding all_below atoi trim_space printf_d lacks_byte
status_table = refl

pub status_reads :
    (n : ℕ) → n < 256 → (atoi (trim_space (printf_d n)) ≡ some (pos n)) × Lacks b'\n' (printf_d n)
status_reads n h =
    let row = all_below_sound 256 _ n status_table h in
    (is_int-eq _ n (ground arith), lacks_byte-Lacks b'\n' (printf_d n) (ground arith))
