-- ===== src/Session/Ansi.antt =====
-- pkg/session/ansi.go: `StripANSI` and `NormalizeLineEndings`. The inner loops over `j` are modes of
-- one loop over the input.
pub mod Tokens
pub mod Plain
use ptyrelay.Base.{
  ℕ, ◌-◌, Bool, true, false, ◌&&◌, Bytes, [], ◌∷◌, ◌++◌, ◌==◌, leb, if◌then◌else◌, length, take,
}
use ptyrelay.Bytes.{replace_all}

abbrev pub esc : ℕ
esc = 0x1B

abbrev pub bel : ℕ
bel = 0x07

abbrev pub backspace : ℕ
backspace = 0x08

-- `out[:len(out)-1]`, guarded by `len(out) > 0`.
abbrev pub drop_last : Bytes → Bytes
drop_last out = take (length out - 1) out

abbrev pub is_csi_final : ℕ → Bool
is_csi_final c = leb 0x40 c && leb c 0x7E

abbrev pub is_two_byte : ℕ → Bool
is_two_byte c = leb 0x40 c && leb c 0x5F

-- The outer loop, the scan for a CSI's final byte, and the scan for the end of an OSC.
pub data Scan : Type 0 where
  text csi osc : Scan

unfoldable pub strip_from : Scan → Bytes → Bytes → Bytes
strip_from text out [] = out
strip_from text out (b ∷ []) = if b == backspace then drop_last out else out ++ b ∷ []
strip_from text out (b ∷ next ∷ rest) =
    let in_csi = strip_from csi out rest in
    let in_osc = strip_from osc out rest in
    let skip_two = strip_from text out rest in
    let keep_esc = strip_from text (out ++ b ∷ []) (next ∷ rest) in
    let delete = strip_from text (drop_last out) (next ∷ rest) in
    let newline = strip_from text (out ++ b'\n' ∷ []) rest in
    let keep = strip_from text (out ++ b ∷ []) (next ∷ rest) in
    if b == esc
    then (if next == b'['
        then in_csi
        else if next == b']'
        then in_osc
        else if is_two_byte next
        then skip_two
        else keep_esc)
    else if b == backspace
    then delete
    else if b == b'\r' && next == b'\n'
    then newline
    else keep
strip_from csi out [] = out
strip_from csi out (c ∷ rest) = strip_from (if is_csi_final c then text else csi) out rest
strip_from osc out [] = out
strip_from osc out (c ∷ []) = out
strip_from osc out (c ∷ next ∷ rest) =
    let at_bel = strip_from text out (next ∷ rest) in
    let at_st = strip_from text out rest in
    let on = strip_from osc out (next ∷ rest) in
    if c == bel then at_bel else if c == esc && next == b'\\' then at_st else on

unfoldable pub strip_ansi : Bytes → Bytes
unfolding strip_from
strip_ansi input = strip_from text [] input

unfoldable pub normalize_line_endings : Bytes → Bytes
normalize_line_endings input = replace_all input (b'\r' ∷ b'\n' ∷ []) (b'\n' ∷ [])
