-- ===== src/Session/Wrap/Words.antt =====
-- Words, of which the markers are made, and the runs of word bytes in a text.
use ptyrelay.Base.{
  ℕ, zero, suc, ◌≤◌, Bool, true, false, ◌&&◌, ◌||◌, Bytes, [], ◌∷◌, ◌++◌, ◌==◌, leb, not,
  if◌then◌else◌, none, length, take, get_or, ◌≡◌, refl, ap, arith, Lacks, All,
}
use ptyrelay.Bytes.{index}

-- The marker `m` does not occur in the text.
abbrev pub Absent : Bytes → Bytes → Type 0
Absent m b = index b m ≡ none

-- The bytes of the markers, a nonce of hexadecimal digits included: letters, digits, `_` and `:`.
unfoldable pub is_word : ℕ → Bool
is_word c =
    (leb b'a' c && leb c b'z')
    || (leb b'A' c && leb c b'Z')
    || (leb b'0' c && leb c b'9')
    || c == b'_'
    || c == b':'

abbrev pub IsWord : Bytes → Type 0
IsWord = All (λ c. is_word c ≡ true)

pub Lacks-IsWord : (b : Bytes) (c : ℕ) → is_word c ≡ false → IsWord b → Lacks c b
Lacks-IsWord [] c h w = tt
Lacks-IsWord (x ∷ b) c h (hx, hb) = ((λ e. cc), Lacks-IsWord b c h hb)

-- No run of word bytes is longer than ten, counting `n` before the text, which ends in another byte.
unfoldable pub short_runs : ℕ → Bytes → Bool
short_runs n [] = false
short_runs n (c ∷ []) = leb n 10 && not (is_word c)
short_runs n (c ∷ d ∷ b) =
    let rest = short_runs (if is_word c then suc n else 0) (d ∷ b) in leb n 10 && rest

pub short_runs-word :
    (n c d : ℕ) (t : Bytes)
    → is_word c ≡ true
    → short_runs n (c ∷ d ∷ t) ≡ true
    → short_runs (suc n) (d ∷ t) ≡ true
unfolding short_runs
short_runs-word n c d t w = rw w (drop_test (leb n 10))
  where
    drop_test :
        (b : Bool) → (b && short_runs (suc n) (d ∷ t)) ≡ true → short_runs (suc n) (d ∷ t) ≡ true
    drop_test true h = h
    drop_test false h = cc

pub short_runs-sep :
    (n c d : ℕ) (t : Bytes)
    → is_word c ≡ false
    → short_runs n (c ∷ d ∷ t) ≡ true
    → (n ≤ 10) × (short_runs 0 (d ∷ t) ≡ true)
unfolding short_runs
short_runs-sep n c d t w = rw w (both (leb n 10) refl)
  where
    both :
        (b : Bool)
        → leb n 10 ≡ b
        → (b && short_runs 0 (d ∷ t)) ≡ true
        → (n ≤ 10) × (short_runs 0 (d ∷ t) ≡ true)
    both true e h = (ground arith, h)
    both false e h = absurd (cc)

-- A text that ends in `c`, cut in front of it.
pub ends_split :
    (b : Bytes) (c d n : ℕ) → length b ≡ suc n → get_or b n d ≡ c → b ≡ take n b ++ c ∷ []
ends_split [] c d n h e = absurd (omega arith)
ends_split (x ∷ []) c d zero h e = ap (λ (y : ℕ). y ∷ []) e
ends_split (x ∷ []) c d (suc n) h e = absurd (omega arith)
ends_split (x ∷ y ∷ b) c d zero h e = absurd (omega arith)
ends_split (x ∷ y ∷ b) c d (suc n) h e = ap (◌∷◌ x) (ends_split (y ∷ b) c d n (omega arith) e)
