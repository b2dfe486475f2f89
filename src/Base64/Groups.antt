-- ===== src/Base64/Groups.antt =====
-- A text is decoded to what was encoded, also piece by piece, where the pieces are whole groups.
use ptyrelay.Base.{
  ℕ, zero, suc, ◌+◌, ◌-◌, ◌*◌, ◌/◌, ◌%◌, ◌<◌, ◌≤◌, false, Bytes, List, [], ◌∷◌, ◌++◌, Option, none,
  some, ◌==◌, length, take, drop, ◌≡◌, ◌≢◌, Bool-cases, inl, inr, refl, ap, sym, ◌∙◌, arith, All,
  take-append-drop, length-drop, length-take,
}
use ptyrelay.Base64.{sextet, encode, value, four, if_last, decode, pieces, decode_all, joined}

value-sextet : (n : ℕ) → n < 64 → value (sextet n) ≡ some n
unfolding value sextet
value-sextet n h = ground arith

sextet-ne-pad : (n : ℕ) → n < 64 → (sextet n == b'=') ≡ false
unfolding sextet
sextet-ne-pad n h = ground arith

-- The bytes of a text.
abbrev pub Octets : Bytes → Type 0
Octets = All (λ c. c < 256)

-- A group of digits, whose last is no padding.
decode-group :
    (p q r t : ℕ) (rest later : Bytes)
    → p < 64
    → q < 64
    → r < 64
    → t < 64
    → decode rest ≡ some later
    → decode (sextet p ∷ sextet q ∷ sextet r ∷ sextet t ∷ rest)
      ≡ some ((p * 4 + q / 16) ∷ (q % 16 * 16 + r / 4) ∷ (r % 4 * 64 + t) ∷ later)
unfolding decode
decode-group p q r t rest later hp hq hr ht e =
    rw
      (
        sextet-ne-pad t ht,
        value-sextet p hp,
        value-sextet q hq,
        value-sextet r hr,
        value-sextet t ht,
        e,
      )
      refl

decode_one :
    (p q : ℕ)
    → p < 64
    → q < 64
    → decode (sextet p ∷ sextet q ∷ b'=' ∷ b'=' ∷ []) ≡ some ((p * 4 + q / 16) ∷ [])
unfolding decode
decode_one p q hp hq = rw (value-sextet p hp, value-sextet q hq) refl

decode_both :
    (p q r : ℕ)
    → p < 64
    → q < 64
    → r < 64
    → decode (sextet p ∷ sextet q ∷ sextet r ∷ b'=' ∷ [])
      ≡ some ((p * 4 + q / 16) ∷ (q % 16 * 16 + r / 4) ∷ [])
unfolding decode
decode_both p q r hp hq hr =
    rw (sextet-ne-pad r hr, value-sextet p hp, value-sextet q hq, value-sextet r hr) refl

cons_eq : {a b : ℕ} {r s : Bytes} → a ≡ b → r ≡ s → a ∷ r ≡ b ∷ s
cons_eq h k = rw (h, k) refl

-- What is encoded is decoded to itself, for bytes.
pub decode-encode : (b : Bytes) → Octets b → decode (encode b) ≡ some b
unfolding encode
decode-encode [] h = unfold decode in refl
decode-encode (a ∷ []) h =
    decode_one (a / 4) (a % 4 * 16) (omega arith) (omega arith)
    ∙ ap some (cons_eq (omega arith) refl)
decode-encode (a ∷ b ∷ []) h =
    decode_both (a / 4) (a % 4 * 16 + b / 16) (b % 16 * 4) (omega arith) (omega arith) (omega arith)
    ∙ ap some (cons_eq (omega arith) (cons_eq (omega arith) refl))
decode-encode (a ∷ b ∷ c ∷ rest) h =
    decode-group (a / 4) (a % 4 * 16 + b / 16) (b % 16 * 4 + c / 64) (c % 64) (encode rest) rest
      (omega arith) (omega arith) (omega arith) (omega arith) (decode-encode rest h.1.1.1)
    ∙ ap some (cons_eq (omega arith) (cons_eq (omega arith) (cons_eq (omega arith) refl)))

-- `k` groups of digits, and the bytes in them.
quad : ℕ → ℕ
quad zero = zero
quad (suc k) = suc (suc (suc (suc (quad k))))

triple : ℕ → ℕ
triple zero = zero
triple (suc k) = suc (suc (suc (triple k)))

quad_mul : (k : ℕ) → quad k ≡ 4 * k
unfolding quad
quad_mul zero = omega arith
quad_mul (suc k) = omega (arith, quad_mul k)

take_none : (n : ℕ) → take {A = ℕ} n [] ≡ []
take_none zero = refl
take_none (suc n) = refl

drop_none : (n : ℕ) → drop {A = ℕ} n [] ≡ []
drop_none zero = refl
drop_none (suc n) = refl

take-encode : (k : ℕ) (b : Bytes) → take (quad k) (encode b) ≡ encode (take (triple k) b)
unfolding encode quad triple
take-encode zero b = refl
take-encode (suc k) [] = refl
take-encode (suc k) (a ∷ []) = rw take_none refl
take-encode (suc k) (a ∷ b ∷ []) = rw take_none refl
take-encode (suc k) (a ∷ b ∷ c ∷ rest) =
    ap
      (λ z.
        sextet (a / 4)
        ∷ sextet (a % 4 * 16 + b / 16)
        ∷ sextet (b % 16 * 4 + c / 64)
        ∷ sextet (c % 64)
        ∷ z)
      (take-encode k rest)

drop-encode : (k : ℕ) (b : Bytes) → drop (quad k) (encode b) ≡ encode (drop (triple k) b)
unfolding encode quad triple
drop-encode zero b = refl
drop-encode (suc k) [] = refl
drop-encode (suc k) (a ∷ []) = rw drop_none refl
drop-encode (suc k) (a ∷ b ∷ []) = rw drop_none refl
drop-encode (suc k) (a ∷ b ∷ c ∷ rest) = drop-encode k rest

All-take : (n : ℕ) (b : Bytes) → Octets b → Octets (take n b)
All-take zero b h = tt
All-take (suc n) [] h = tt
All-take (suc n) (x ∷ b) h = (h.0, All-take n b h.1)

All-drop : (n : ℕ) (b : Bytes) → Octets b → Octets (drop n b)
All-drop zero b h = h
All-drop (suc n) [] h = tt
All-drop (suc n) (x ∷ b) h = All-drop n b h.1

pieces_more :
    (fuel size : ℕ) (b : Bytes)
    → 0 < length b
    → pieces (suc fuel) size b ≡ take size b ∷ pieces fuel size (drop size b)
unfolding pieces
pieces_more fuel size [] h = absurd (omega arith)
pieces_more fuel size (x ∷ b) h = refl

length-encode : (b : Bytes) → 0 < length b → 0 < length (encode b)
unfolding encode
length-encode [] h = absurd (omega arith)
length-encode (a ∷ []) h = omega arith
length-encode (a ∷ b ∷ []) h = omega arith
length-encode (a ∷ b ∷ c ∷ rest) h = omega arith

decode_all-cons :
    (p : Bytes) (ps : List Bytes) (a c : Bytes)
    → decode p ≡ some a
    → decode_all ps ≡ some c
    → decode_all (p ∷ ps) ≡ some (a ++ c)
unfolding decode_all
decode_all-cons p ps a c h k = rw (h, k) refl

decode_all-quad :
    (fuel k : ℕ) (b : Bytes)
    → Octets b
    → length (encode b) ≤ fuel
    → decode_all (pieces fuel (quad (suc k)) (encode b)) ≡ some b
decode_all-quad zero k [] h enough = unfold decode_all pieces in refl
decode_all-quad zero k (x ∷ b) h enough =
    absurd (omega (arith, length-encode (x ∷ b) (omega arith)))
decode_all-quad (suc fuel) k [] h enough = unfold decode_all pieces encode in refl
decode_all-quad (suc fuel) k (x ∷ b) h enough =
    let n = quad (suc k) in
    let m = triple (suc k) in
    let e = encode (x ∷ b) in
    let shorter : length (encode (drop m (x ∷ b))) ≤ fuel =
      (rw⁻¹ (drop-encode (suc k) (x ∷ b)) (
        omega (
          arith,
          enough,
          length-drop n e,
          quad_mul (suc k),
          length-encode (x ∷ b) (omega arith),
        ))) in
    let e_nonempty = length-encode (x ∷ b) (omega arith) in
    ap decode_all (pieces_more fuel n e e_nonempty)
    ∙ decode_all-cons (take n e) (pieces fuel n (drop n e)) (take m (x ∷ b)) (drop m (x ∷ b))
        (ap decode (take-encode (suc k) (x ∷ b))
          ∙ decode-encode (take m (x ∷ b)) (All-take m (x ∷ b) h))
        (ap (λ z. decode_all (pieces fuel n z)) (drop-encode (suc k) (x ∷ b))
          ∙ decode_all-quad fuel k (drop m (x ∷ b)) (All-drop m (x ∷ b) h) shorter)
    ∙ ap some (take-append-drop m (x ∷ b))

quad_predecessor : (size : ℕ) → 0 < size → size % 4 ≡ 0 → quad (suc (size / 4 - 1)) ≡ size
quad_predecessor size pos_size whole = quad_mul (suc (size / 4 - 1)) ∙ omega arith

-- An encoded text that is cut into pieces of whole groups is decoded piece by piece to the text.
pub decode_all-pieces :
    (size : ℕ) (b : Bytes)
    → 0 < size
    → size % 4 ≡ 0
    → Octets b
    → decode_all (pieces (length (encode b)) size (encode b)) ≡ some b
decode_all-pieces size b pos_size whole h =
    ap (λ n. decode_all (pieces (length (encode b)) n (encode b)))
      (sym (quad_predecessor size pos_size whole))
    ∙ decode_all-quad (length (encode b)) (size / 4 - 1) b h (omega arith)

four_undecoded : (a : Option Bytes) (y z : Option ℕ) → four a y z none ≡ none
four_undecoded none y z = refl
four_undecoded (some a) none z = refl
four_undecoded (some a) (some y) none = refl
four_undecoded (some a) (some y) (some z) = refl

if_last_undecoded : (rest : Bytes) (r : Option Bytes) → length rest % 4 ≢ 0 → if_last rest r ≡ none
if_last_undecoded [] r h = absurd (h (omega arith))
if_last_undecoded (x ∷ rest) r h = refl

-- A text that is not made of whole groups is not decoded.
pub decode_partial : (p : Bytes) → length p % 4 ≢ 0 → decode p ≡ none
unfolding decode
decode_partial [] h = absurd (h (omega arith))
decode_partial (w ∷ []) h = refl
decode_partial (w ∷ x ∷ []) h = refl
decode_partial (w ∷ x ∷ y ∷ []) h = refl
decode_partial (w ∷ x ∷ y ∷ z ∷ rest) h =
    let more : length rest % 4 ≢ 0 = λ e. h (omega (arith, e)) in
    elim (Bool-cases (z == b'=')) [
      | inl pad ↦ rw (pad, if_last_undecoded rest _ more) refl
      | inr digit ↦ rw (digit, decode_partial rest more) (four_undecoded _ (value y) (value z))
    ]

-- An encoded text that is cut into pieces which are no whole groups is not decoded piece by piece,
-- if there is more than one piece.
pub decode_all-pieces_partial :
    (size : ℕ) (b : Bytes)
    → size % 4 ≢ 0
    → size < length (encode b)
    → decode_all (pieces (length (encode b)) size (encode b)) ≡ none
unfolding decode_all
decode_all-pieces_partial size b partial more =
    let e = encode b in
    let n = length e - 1 in
    let long : length e ≡ suc n = omega (arith, more) in
    let odd : length (take size e) % 4 ≢ 0 =
      λ h. partial (omega (arith, h, length-take size e, more)) in
    ap (λ f. decode_all (pieces f size e)) long
    ∙ ap decode_all (pieces_more n size e (omega (arith, more)))
    ∙ ap (λ z. joined z (decode_all (pieces n size (drop size e))))
        (decode_partial (take size e) odd)
