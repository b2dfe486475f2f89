-- ===== src/Session/Ansi/Tokens.antt =====
-- What `StripANSI` leaves of a text that is written as a sequence of tokens.
use ptyrelay.Base.{ℕ, true, false, Bytes, List, [], ◌∷◌, ◌++◌, ◌≡◌, ◌≢◌, refl, ◌∙◌, arith, All}
use ptyrelay.Session.Ansi.{
  esc, bel, backspace, drop_last, is_csi_final, is_two_byte, text, csi, osc, strip_from, strip_ansi,
}

-- What a terminal program writes, one visible or invisible effect at a time.
pub data Token : Type 0 where
  plain : ℕ → Token
  control : Bytes → ℕ → Token
  title_bel title_st : Bytes → Token
  two_byte : ℕ → Token
  erase crlf : Token

-- A byte that stands for itself.
abbrev pub IsPlain : ℕ → Type 0
IsPlain c = (c ≢ esc) × (c ≢ backspace) × (c ≢ b'\r')

abbrev pub IsToken : Token → Type 0
IsToken (plain c) = IsPlain c
IsToken (control params final) =
    All (λ c. is_csi_final c ≡ false) params × (is_csi_final final ≡ true)
IsToken (title_bel payload) = All (λ c. (c ≢ bel) × (c ≢ esc)) payload
IsToken (title_st payload) = All (λ c. (c ≢ bel) × (c ≢ esc)) payload
IsToken (two_byte c) = (is_two_byte c ≡ true) × (c ≢ b'[') × (c ≢ b']')
IsToken erase = Unit
IsToken crlf = Unit

-- The bytes of a token, in front of what follows.
abbrev pub write : Token → Bytes → Bytes
write (plain c) rest = c ∷ rest
write (control params final) rest = esc ∷ b'[' ∷ (params ++ final ∷ rest)
write (title_bel payload) rest = esc ∷ b']' ∷ (payload ++ bel ∷ rest)
write (title_st payload) rest = esc ∷ b']' ∷ (payload ++ esc ∷ b'\\' ∷ rest)
write (two_byte c) rest = esc ∷ c ∷ rest
write erase rest = backspace ∷ rest
write crlf rest = b'\r' ∷ b'\n' ∷ rest

-- The effect of a token on the text before it.
abbrev pub apply : Token → Bytes → Bytes
apply (plain c) out = out ++ c ∷ []
apply (control params final) out = out
apply (title_bel payload) out = out
apply (title_st payload) out = out
apply (two_byte c) out = out
apply erase out = drop_last out
apply crlf out = out ++ b'\n' ∷ []

abbrev pub write_all : List Token → Bytes
write_all [] = []
write_all (t ∷ ts) = write t (write_all ts)

abbrev pub apply_all : List Token → Bytes → Bytes
apply_all [] out = out
apply_all (t ∷ ts) out = apply_all ts (apply t out)

strip_from-csi :
    (params out rest : Bytes) (final : ℕ)
    → All (λ c. is_csi_final c ≡ false) params
    → is_csi_final final ≡ true
    → strip_from csi out (params ++ final ∷ rest) ≡ strip_from text out rest
unfolding strip_from
strip_from-csi [] out rest final h f = rw (f, strip_from)
strip_from-csi (c ∷ params) out rest final h f =
    rw (h.0, strip_from) (strip_from-csi params out rest final h.1 f)

strip_from-osc_cons :
    (c : ℕ) (r out : Bytes)
    → (c ≢ bel) × (c ≢ esc)
    → r ≢ []
    → strip_from osc out (c ∷ r) ≡ strip_from osc out r
unfolding strip_from
strip_from-osc_cons c [] out h n = absurd (n refl)
strip_from-osc_cons c (d ∷ r) out h n = ground arith

strip_from-osc_bel :
    (payload out rest : Bytes)
    → All (λ c. (c ≢ bel) × (c ≢ esc)) payload
    → strip_from osc out (payload ++ bel ∷ rest) ≡ strip_from text out rest
strip_from-osc_bel [] out [] h = unfold strip_from in refl
strip_from-osc_bel [] out (d ∷ rest) h = unfold strip_from in refl
strip_from-osc_bel (c ∷ payload) out rest h =
    strip_from-osc_cons c _ out h.0 (concat-ne-nil payload)
    ∙ strip_from-osc_bel payload out rest h.1
  where
    concat-ne-nil : (b : Bytes) → b ++ bel ∷ rest ≢ []
    concat-ne-nil [] e = cc
    concat-ne-nil (x ∷ b) e = cc

strip_from-osc_st :
    (payload out rest : Bytes)
    → All (λ c. (c ≢ bel) × (c ≢ esc)) payload
    → strip_from osc out (payload ++ esc ∷ b'\\' ∷ rest) ≡ strip_from text out rest
strip_from-osc_st [] out rest h = unfold strip_from in refl
strip_from-osc_st (c ∷ payload) out rest h =
    strip_from-osc_cons c _ out h.0 (concat-ne-nil payload) ∙ strip_from-osc_st payload out rest h.1
  where
    concat-ne-nil : (b : Bytes) → b ++ esc ∷ b'\\' ∷ rest ≢ []
    concat-ne-nil [] e = cc
    concat-ne-nil (x ∷ b) e = cc

pub strip_from-plain :
    (c : ℕ) (out rest : Bytes)
    → IsPlain c
    → strip_from text out (c ∷ rest) ≡ strip_from text (out ++ c ∷ []) rest
unfolding strip_from
strip_from-plain c out [] h = ground arith
strip_from-plain c out (d ∷ rest) h = ground arith

strip_from-two_byte :
    (c : ℕ) (out rest : Bytes)
    → IsToken (two_byte c)
    → strip_from text out (esc ∷ c ∷ rest) ≡ strip_from text out rest
unfolding strip_from
strip_from-two_byte c out rest h = ground arith

pub strip_from-erase :
    (out rest : Bytes)
    → strip_from text out (backspace ∷ rest) ≡ strip_from text (drop_last out) rest
unfolding strip_from
strip_from-erase out [] = refl
strip_from-erase out (d ∷ rest) = refl

strip_from-write :
    (t : Token) (out rest : Bytes)
    → IsToken t
    → strip_from text out (write t rest) ≡ strip_from text (apply t out) rest
strip_from-write (plain c) out rest h = strip_from-plain c out rest h
strip_from-write (control params final) out rest h =
    unfold strip_from in (strip_from-csi params out rest final h.0 h.1)
strip_from-write (title_bel payload) out rest h =
    unfold strip_from in (strip_from-osc_bel payload out rest h)
strip_from-write (title_st payload) out rest h =
    unfold strip_from in (strip_from-osc_st payload out rest h)
strip_from-write (two_byte c) out rest h = strip_from-two_byte c out rest h
strip_from-write erase out rest h = strip_from-erase out rest
strip_from-write crlf out rest h = unfold strip_from in refl

pub strip_from-write_all :
    (ts : List Token) (out : Bytes)
    → All IsToken ts
    → strip_from text out (write_all ts) ≡ apply_all ts out
strip_from-write_all [] out h = unfold strip_from in refl
strip_from-write_all (t ∷ ts) out h =
    strip_from-write t out (write_all ts) h.0 ∙ strip_from-write_all ts (apply t out) h.1

-- A text that is written as plain bytes, control sequences, window titles, two-byte escapes,
-- backspaces and CRLF line ends is stripped to what these do: plain bytes stay, the sequences go,
-- a backspace takes the byte before it, and CRLF becomes LF.
pub strip_ansi-write_all :
    (ts : List Token) → All IsToken ts → strip_ansi (write_all ts) ≡ apply_all ts []
unfolding strip_ansi
strip_ansi-write_all ts h = strip_from-write_all ts [] h
