-- ===== src/Bytes/Index.antt =====
-- Laws of `bytes.Index`: what more input, a separator or the length of the text say of a search.
use ptyrelay.Base.{
  ℕ, suc, ◌+◌, ◌-◌, ◌≤◌, ◌<◌, true, false, ◌&&◌, Bytes, [], ◌∷◌, ◌++◌, ◌==◌, ltb, ◌≡◌, refl, ap,
  sym, ◌∙◌, Option, none, some, map_option, length, drop, arith, Bool-cases, Option-cases, inl, inr,
  Lacks, length-append, length-drop, drop-append, lt→ltb,
}
use ptyrelay.Bytes.{contains, has_prefix, index, index_byte, keep_last}

pub has_prefix-append :
    (m b r : Bytes) → length m ≤ length b → has_prefix m (b ++ r) ≡ has_prefix m b
unfolding has_prefix
has_prefix-append [] b r h = refl
has_prefix-append (y ∷ m) [] r h = absurd (omega arith)
has_prefix-append (y ∷ m) (x ∷ b) r h = ap (◌&&◌ (y == x)) (has_prefix-append m b r (omega arith))

pub has_prefix-true-append : (m b r : Bytes) → has_prefix m b ≡ true → has_prefix m (b ++ r) ≡ true
unfolding has_prefix
has_prefix-true-append [] b r h = refl
has_prefix-true-append (y ∷ m) [] r h = cc
has_prefix-true-append (y ∷ m) (x ∷ b) r h = ground (arith, has_prefix-true-append m b r)

pub length-has_prefix : (m b : Bytes) → has_prefix m b ≡ true → length m ≤ length b
unfolding has_prefix
length-has_prefix [] b h = omega arith
length-has_prefix (y ∷ m) [] h = cc
length-has_prefix (y ∷ m) (x ∷ b) h = ground (arith, length-has_prefix m b)

pub has_prefix_self : (m r : Bytes) → has_prefix m (m ++ r) ≡ true
unfolding has_prefix
has_prefix_self [] r = refl
has_prefix_self (y ∷ m) r = ground (arith, has_prefix_self m r)

-- No byte of `m` is `c`, so an occurrence of `m` ends before `c` or starts behind it.
pub has_prefix-sep :
    (m b r : Bytes) (c : ℕ) → Lacks c m → has_prefix m (b ++ c ∷ r) ≡ has_prefix m b
unfolding has_prefix
has_prefix-sep [] b r c h = refl
has_prefix-sep (y ∷ m) [] r c h = ground (arith, h.0)
has_prefix-sep (y ∷ m) (x ∷ b) r c h = ap (◌&&◌ (y == x)) (has_prefix-sep m b r c h.1)

-- An occurrence lies within the text.
pub index_bound : (b m : Bytes) (i : ℕ) → index b m ≡ some i → i + length m ≤ length b
unfolding index
index_bound [] m i h = ground (arith, length-has_prefix m [])
index_bound (x ∷ b) m i h = elim (Option-cases (index b m)) [
  | inl e ↦ ground (arith, length-has_prefix m (x ∷ b))
  | inr (j, e) ↦ ground (arith, length-has_prefix m (x ∷ b), index_bound b m j e)
]

-- The first occurrence stays the first when the text grows.
pub index-append : (b r m : Bytes) (i : ℕ) → index b m ≡ some i → index (b ++ r) m ≡ some i
unfolding index
index-append [] [] m i h = h
index-append [] (x ∷ r) m i h = elim (Bool-cases (has_prefix m [])) [
  | inl e ↦ ground (arith, has_prefix-true-append m [] (x ∷ r) e)
  | inr e ↦ ground arith
]
index-append (x ∷ b) r m i h = elim (Option-cases (index b m)) [
  | inl e ↦ ground (arith, has_prefix-true-append m (x ∷ b) r)
  | inr (j, e) ↦ ground (
    arith,
    has_prefix-append m (x ∷ b) r (omega (arith, index_bound b m j e)),
    index-append b r m j e,
  )
]

-- A text shorter than `m` does not hold it.
pub index_short : (b m : Bytes) → length b < length m → index b m ≡ none
unfolding index
index_short [] m h = ground (arith, length-has_prefix m [])
index_short (x ∷ b) m h = ground (arith, length-has_prefix m (x ∷ b), index_short b m (omega arith))

pub length-keep_last : (k : ℕ) (b : Bytes) → length (keep_last k b) ≤ k
unfolding keep_last
length-keep_last k b = ground (arith, length-drop (length b - k) b)

pub length-keep_last_le : (k : ℕ) (b : Bytes) → length (keep_last k b) ≤ length b
unfolding keep_last
length-keep_last_le k b = ground (arith, length-drop (length b - k) b)

pub keep_last-short : (k : ℕ) (b : Bytes) → length b ≤ k → keep_last k b ≡ b
unfolding keep_last
keep_last-short k b h = ground arith

-- Only the last `k` bytes of the longer text count.
pub keep_last-cons : (k x : ℕ) (b : Bytes) → k ≤ length b → keep_last k (x ∷ b) ≡ keep_last k b
unfolding keep_last
keep_last-cons k x b h = elim (Bool-cases (ltb k (length b))) [
  | inl e ↦
      let s : length (x ∷ b) - k ≡ suc (length b - k) = omega arith in
      rw (e, lt→ltb k (length (x ∷ b)) (omega arith), s)
  | inr e ↦
      let s : length (x ∷ b) - k ≡ 1 = ground arith in
      rw (e, lt→ltb k (length (x ∷ b)) (omega arith), s)
]

-- The text from the first occurrence of `m` on.
unfoldable pub at_marker : Bytes → Bytes → Option Bytes
at_marker b m = map_option (λ i. drop i b) (index b m)

at_marker-cons :
    (x : ℕ) (b m : Bytes) → has_prefix m (x ∷ b) ≡ false → at_marker (x ∷ b) m ≡ at_marker b m
unfolding at_marker index
at_marker-cons x b m e = elim (Option-cases (index b m)) [
  | inl n ↦ rw (e, n)
  | inr (i, n) ↦ rw (e, n)
]

index-none-cons :
    (x : ℕ) (b m : Bytes)
    → index (x ∷ b) m ≡ none
    → (has_prefix m (x ∷ b) ≡ false) × (index b m ≡ none)
unfolding index
index-none-cons x b m h = ground arith

-- What a reader that keeps the last `length m - 1` bytes of `b` finds when `r` comes in is what it
-- would find in the whole text.
pub at_marker-keep_last :
    (b r m : Bytes) (k : ℕ)
    → suc k ≡ length m
    → index b m ≡ none
    → at_marker (b ++ r) m ≡ at_marker (keep_last k b ++ r) m
at_marker-keep_last [] r m k e h = rw (keep_last-short k [] (omega arith))
at_marker-keep_last (x ∷ b) r m k e h = elim (Bool-cases (ltb (length b) k)) [
  | inl short ↦ rw (keep_last-short k (x ∷ b) (ground arith))
  | inr long ↦
      let (off, later) = index-none-cons x b m h in
      let fits : k ≤ length b = ground arith in
      rw (keep_last-cons k x b fits) (
        at_marker-cons x (b ++ r) m (has_prefix-append m (x ∷ b) r (omega arith) ∙ off)
        ∙ at_marker-keep_last b r m k e later)
]

pub keep_last-keep_last :
    (k : ℕ) (b r : Bytes) → keep_last k (keep_last k b ++ r) ≡ keep_last k (b ++ r)
keep_last-keep_last k [] r = rw (keep_last-short k [] (omega arith))
keep_last-keep_last k (x ∷ b) r = elim (Bool-cases (ltb (length b) k)) [
  | inl short ↦ rw (keep_last-short k (x ∷ b) (ground arith))
  | inr long ↦
      let fits : k ≤ length b = ground arith in
      rw (keep_last-cons k x b fits) (
        keep_last-keep_last k b r
        ∙ sym (keep_last-cons k x (b ++ r) (omega (arith, length-append b r))))
]

-- The search passes a byte that `m` does not hold.
pub index-sep :
    (b r m : Bytes) (c : ℕ)
    → Lacks c m
    → 0 < length m
    → index b m ≡ none
    → index (b ++ c ∷ r) m ≡ map_option (λ i. length b + suc i) (index r m)
unfolding index
index-sep [] r m c l p h = elim (Option-cases (index r m)) [
  | inl e ↦ ground (arith, has_prefix-sep m [] r c l)
  | inr (j, e) ↦ ground (arith, has_prefix-sep m [] r c l)
]
index-sep (x ∷ b) r m c l p h = elim (Option-cases (index r m)) [
  | inl e ↦ ground (arith, has_prefix-sep m (x ∷ b) r c l, index-sep b r m c l p)
  | inr (j, e) ↦ ground (arith, has_prefix-sep m (x ∷ b) r c l, index-sep b r m c l p)
]

index_self : (m r : Bytes) → 0 < length m → index (m ++ r) m ≡ some 0
unfolding index
index_self [] r p = absurd (omega arith)
index_self (y ∷ m) r p = rw (has_prefix_self (y ∷ m) r)

-- An occurrence at the head of what follows the separator.
pub index-marker :
    (b r m : Bytes) (c : ℕ)
    → Lacks c m
    → 0 < length m
    → index b m ≡ none
    → index (b ++ c ∷ (m ++ r)) m ≡ some (suc (length b))
index-marker b r m c l p h =
    index-sep b (m ++ r) m c l p h ∙ rw (index_self m r p) (ap some (omega arith))

-- `bytes.IndexByte` finds the byte behind a text that lacks it.
pub index_byte-Lacks :
    (b r : Bytes) (c : ℕ) → Lacks c b → index_byte (b ++ c ∷ r) c ≡ some (length b)
unfolding index_byte
index_byte-Lacks [] r c h = ground arith
index_byte-Lacks (x ∷ b) r c h = ground (arith, h.0, index_byte-Lacks b r c h.1)

pub index_byte_bound : (b : Bytes) (c i : ℕ) → index_byte b c ≡ some i → i < length b
unfolding index_byte
index_byte_bound [] c i h = cc
index_byte_bound (x ∷ b) c i h = elim (Option-cases (index_byte b c)) [
  | inl e ↦ ground arith
  | inr (j, e) ↦ ground (arith, index_byte_bound b c j e)
]

pub index_byte-append :
    (b r : Bytes) (c i : ℕ) → index_byte b c ≡ some i → index_byte (b ++ r) c ≡ some i
unfolding index_byte
index_byte-append [] r c i h = cc
index_byte-append (x ∷ b) r c i h = elim (Option-cases (index_byte b c)) [
  | inl e ↦ ground arith
  | inr (j, e) ↦ ground (arith, index_byte-append b r c j e)
]

index-has_prefix : (b m : Bytes) (i : ℕ) → index b m ≡ some i → has_prefix m (drop i b) ≡ true
unfolding index
index-has_prefix [] m i h = ground arith
index-has_prefix (x ∷ b) m i h = elim (Option-cases (index b m)) [
  | inl e ↦ ground arith
  | inr (j, e) ↦ ground (arith, index-has_prefix b m j e)
]

has_prefix-index : (b m : Bytes) → has_prefix m b ≡ true → index b m ≡ some 0
unfolding index
has_prefix-index [] m h = rw h
has_prefix-index (x ∷ b) m h = rw h

pub at_marker-none : (b m : Bytes) → at_marker b m ≡ none → index b m ≡ none
unfolding at_marker
at_marker-none b m h = elim (Option-cases (index b m)) [ inl e ↦ e | inr (i, e) ↦ absurd (cc) ]

pub none-at_marker : (b m : Bytes) → index b m ≡ none → at_marker b m ≡ none
unfolding at_marker
none-at_marker b m h = rw h

pub at_marker-some :
    (b m s : Bytes) → at_marker b m ≡ some s → (i : ℕ) × (index b m ≡ some i) × (s ≡ drop i b)
unfolding at_marker
at_marker-some b m s h = elim (Option-cases (index b m)) [
  | inl e ↦ absurd (cc)
  | inr (i, e) ↦ (i, e, cc)
]

pub at_marker-append :
    (b r m s : Bytes) → at_marker b m ≡ some s → at_marker (b ++ r) m ≡ some (s ++ r)
unfolding at_marker
at_marker-append b r m s h =
    let (i, e, f) = at_marker-some b m s h in
    rw (index-append b r m i e, f, drop-append i b r (omega (arith, index_bound b m i e)))

pub at_marker_self : (b m s : Bytes) → at_marker b m ≡ some s → at_marker s m ≡ some s
unfolding at_marker
at_marker_self b m s h =
    let (i, e, f) = at_marker-some b m s h in
    rw (has_prefix-index s m (rw f (index-has_prefix b m i e)))

pub length-at_marker : (b m s : Bytes) → at_marker b m ≡ some s → length m ≤ length s
length-at_marker b m s h =
    let (i, e, f) = at_marker-some b m s h in
    omega (arith, ap length f, length-drop i b, index_bound b m i e)

pub contains-index : (b m : Bytes) → contains b m ≡ false → index b m ≡ none
unfolding contains
contains-index b m h = ground arith
