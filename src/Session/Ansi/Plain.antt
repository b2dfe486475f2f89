-- ===== src/Session/Ansi/Plain.antt =====
-- `StripANSI` on plain text, the length of its output, and what can survive in it.
use ptyrelay.Base.{
  ℕ, ◌-◌, ◌+◌, ◌≤◌, false, Bytes, [], ◌∷◌, ◌++◌, length, ◌≡◌, refl, sym, ap, ◌∙◌, arith,
  append_assoc, append-nil, All, map, length-append, length-take,
}
use ptyrelay.Session.Ansi.{
  esc, backspace, drop_last, is_two_byte, Scan, text, csi, osc, strip_from, strip_ansi,
}
use ptyrelay.Session.Ansi.Tokens.{
  plain, IsPlain, IsToken, write_all, apply_all, strip_from-write_all, strip_from-plain,
  strip_from-erase, strip_ansi-write_all,
}

apply_all-plain : (b out : Bytes) → apply_all (map plain b) out ≡ out ++ b
apply_all-plain [] out = sym (append-nil out)
apply_all-plain (c ∷ b) out = apply_all-plain b (out ++ c ∷ []) ∙ append_assoc out (c ∷ []) b

write_all-plain : (b : Bytes) → write_all (map plain b) ≡ b
write_all-plain [] = refl
write_all-plain (c ∷ b) = ap (◌∷◌ c) (write_all-plain b)

All-plain : (b : Bytes) → All IsPlain b → All IsToken (map plain b)
All-plain [] h = tt
All-plain (c ∷ b) h = (h.0, All-plain b h.1)

-- A text with no ESC, backspace or CR is kept as it is.
pub strip_ansi-plain : (b : Bytes) → All IsPlain b → strip_ansi b ≡ b
strip_ansi-plain b h =
    ap strip_ansi (sym (write_all-plain b))
    ∙ strip_ansi-write_all (map plain b) (All-plain b h)
    ∙ apply_all-plain b []

strip_from-length : (m : Scan) (out b : Bytes) → length (strip_from m out b) ≤ length out + length b
unfolding strip_from
strip_from-length text out [] = omega arith
strip_from-length text out (b ∷ []) =
    ground (arith, length-append out (b ∷ []), length-take (length out - 1) out)
strip_from-length text out (b ∷ next ∷ rest) = ground (
  arith,
  strip_from-length csi out rest,
  strip_from-length osc out rest,
  strip_from-length text out rest,
  strip_from-length text (out ++ b ∷ []) (next ∷ rest),
  strip_from-length text (drop_last out) (next ∷ rest),
  strip_from-length text (out ++ b'\n' ∷ []) rest,
  length-append out (b ∷ []),
  length-append out (b'\n' ∷ []),
  length-take (length out - 1) out,
)
strip_from-length csi out [] = omega arith
strip_from-length csi out (c ∷ rest) =
    ground (arith, strip_from-length csi out rest, strip_from-length text out rest)
strip_from-length osc out [] = omega arith
strip_from-length osc out (c ∷ []) = omega arith
strip_from-length osc out (c ∷ next ∷ rest) = ground (
  arith,
  strip_from-length text out (next ∷ rest),
  strip_from-length text out rest,
  strip_from-length osc out (next ∷ rest),
)

-- The stripped text is no longer than the input.
pub length-strip_ansi : (b : Bytes) → length (strip_ansi b) ≤ length b
unfolding strip_ansi
length-strip_ansi b = omega (arith, strip_from-length text [] b)

strip_from-All_plain : (b out : Bytes) → All IsPlain b → strip_from text out b ≡ out ++ b
strip_from-All_plain b out h =
    ap (strip_from text out) (sym (write_all-plain b))
    ∙ strip_from-write_all (map plain b) out (All-plain b h)
    ∙ apply_all-plain b out

strip_from-unknown :
    (c : ℕ) (out rest : Bytes)
    → is_two_byte c ≡ false
    → strip_from text out (esc ∷ c ∷ rest) ≡ strip_from text (out ++ esc ∷ []) (c ∷ rest)
unfolding strip_from
strip_from-unknown c out rest h = ground arith

-- An escape sequence that is not recognised keeps its ESC, so that a backspace behind it can bring a
-- control sequence to life: the output then holds one that a terminal obeys.
pub strip_ansi-revives :
    (c : ℕ) (b : Bytes)
    → IsPlain c
    → is_two_byte c ≡ false
    → All IsPlain b
    → strip_ansi (esc ∷ c ∷ backspace ∷ b'[' ∷ b) ≡ esc ∷ b'[' ∷ b
unfolding strip_ansi
strip_ansi-revives c b p two h =
    let bracket : IsPlain b'[' = omega arith in
    strip_from-unknown c [] (backspace ∷ b'[' ∷ b) two
    ∙ strip_from-plain c (esc ∷ []) (backspace ∷ b'[' ∷ b) p
    ∙ strip_from-erase (esc ∷ c ∷ []) (b'[' ∷ b)
    ∙ strip_from-plain b'[' (esc ∷ []) b bracket
    ∙ strip_from-All_plain b (esc ∷ b'[' ∷ []) h
