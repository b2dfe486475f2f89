-- ===== src/Shell/Probe.antt =====
-- pkg/backend/shell/probe.go, and `Probe`, `Close` and `ensureProbed` of shell.go.
use ptyrelay.Base.{
  Bool, true, false, Bytes, List, [], ◌∷◌, Option, none, some, ◌⊎◌, inl, inr, if◌then◌else◌, codes,
  not,
}
use ptyrelay.Bytes.{same_bytes}
use ptyrelay.Bytes.Text.{trim_space}
use ptyrelay.Bytes.Split.{split, cut, trim_right, to_lower}
use ptyrelay.Session.Drive.{RunResult}
use ptyrelay.Shell.State.{
  ProbeResult, ShellError, backend_closed, lacks_base64, probe_exited, Shell, Session, Run, ◌>>=◌,
  return, throw, is_zero, run_shell,
}

-- `&probeResult{}`.
abbrev pub no_probe : ProbeResult
no_probe = record {
  os_name = [];
  has_base64 = false;
  base64_wrap = false;
  has_gzip = false;
  sha256_cmd = [];
  stat_style = [];
  has_find_printf = false;
}

abbrev pub is_yes : Bytes → Bool
is_yes v = same_bytes v (codes "y")

-- The `switch` on a key.
unfoldable pub set_key : ProbeResult → Bytes → Bytes → ProbeResult
set_key p k v =
    if same_bytes k (codes "OS")
    then record p { os_name = to_lower (trim_space v) }
    else if same_bytes k (codes "BASE64")
    then record p { has_base64 = is_yes v }
    else if same_bytes k (codes "BASE64WRAP")
    then record p { base64_wrap = is_yes v }
    else if same_bytes k (codes "GZIP")
    then record p { has_gzip = is_yes v }
    else if same_bytes k (codes "SHA256")
    then record p { sha256_cmd = trim_space v }
    else if same_bytes k (codes "STATSTYLE")
    then record p { stat_style = trim_space v }
    else if same_bytes k (codes "FINDPRINTF")
    then record p { has_find_printf = is_yes v }
    else p

abbrev pub set_line : ProbeResult → Option (Bytes × Bytes) → ProbeResult
set_line p none = p
set_line p (some (k, v)) = set_key p k v

unfoldable pub set_lines : ProbeResult → List Bytes → ProbeResult
set_lines p [] = p
set_lines p (line ∷ lines) = set_lines (set_line p (cut line b'=')) lines

-- What `detect` makes of the script's output.
abbrev pub parse_probe : Bytes → ProbeResult
parse_probe output = set_lines no_probe (split (trim_right output b'\n') b'\n')

abbrev pub b64_encode_cmd : ProbeResult → Bytes
b64_encode_cmd p = if p.base64_wrap then codes "base64 -w0" else codes "base64"

abbrev pub b64_decode_cmd : Bytes
b64_decode_cmd = codes "base64 -d"

module _ {S : Type 0} (run_framed : Session S) (script : Bytes) where
  abbrev pub checked : RunResult → Run S ProbeResult
  checked r =
      if not (is_zero r.exit_code)
      then throw (probe_exited r.exit_code r.output)
      else if not (parse_probe r.output).has_base64
      then throw lacks_base64
      else return (parse_probe r.output)

  -- `detect`, whose script is a constant text.
  unfoldable pub detect : Run S ProbeResult
  detect = run_shell run_framed script [] >>= checked

  -- `Probe`: what was known stays where the probe fails.
  abbrev pub probed :
      Shell → S → ShellError ⊎ ProbeResult → (Shell × S) × (ShellError ⊎ ProbeResult)
  probed b s (inl e) = ((b, s), inl e)
  probed b s (inr p) = ((record b { probe = some p }, s), inr p)

  unfoldable pub probe_shell : Shell → S → (Shell × S) × (ShellError ⊎ ProbeResult)
  probe_shell b s =
      if b.closed_flag
      then ((b, s), inl backend_closed)
      else (let (t, r) = detect s in probed b t r)

  abbrev pub known_or_probed :
      Shell → S → Option ProbeResult → (Shell × S) × (ShellError ⊎ ProbeResult)
  known_or_probed b s (some p) = ((b, s), inr p)
  known_or_probed b s none = probe_shell b s

  -- `ensureProbed`.
  unfoldable pub ensure_probed : Shell → S → (Shell × S) × (ShellError ⊎ ProbeResult)
  ensure_probed b s =
      if b.closed_flag then ((b, s), inl backend_closed) else known_or_probed b s b.probe

-- `Close`.
abbrev pub close_shell : Shell → Shell
close_shell b = record b { closed_flag = true }
