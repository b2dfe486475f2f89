-- ===== src/Shell/Write.antt =====
-- pkg/backend/shell/io.go: reading and writing files as base64 text.
pub mod Remote
pub mod Staged
pub mod Stored
pub mod Verified
use ptyrelay.Base.{
  ℕ, zero, suc, ◌+◌, ◌%◌, Bool, true, false, Bytes, List, [], ◌∷◌, ◌++◌, Option, none, some, ◌⊎◌,
  inl, inr, if◌then◌else◌, ltb, not, length, codes, ℤ, pos, negsuc,
}
use ptyrelay.Bytes.{same_bytes}
use ptyrelay.Bytes.Text.{trim_space}
use ptyrelay.Bytes.Split.{trim_right, format_octal, is_empty}
use ptyrelay.Base64.{encode, decode_string, pieces}
use ptyrelay.Quote.{quote}
use ptyrelay.Backend.{Op, op_write, op_read}
use ptyrelay.Session.Drive.{RunResult}
use ptyrelay.Shell.State.{
  ProbeResult, ShellError, backend_closed, too_large, corrupted, random_failed, bad_base64,
  writer_closed, Shell, Session, Run, ◌>>=◌, ◌>>◌, return, throw, and_then, run_shell, must_be_zero,
  run_must_succeed,
}
use ptyrelay.Shell.Probe.{ensure_probed, b64_encode_cmd, b64_decode_cmd}
use ptyrelay.Shell.Stat.{FileInfo}
use ptyrelay.Shell.Ops.{Outcome, on_probed, with_probe, stat_impl, perm, remove_cmd}

-- The command that appends a piece, or writes the first one.
unfoldable pub stage_cmd : Bytes → Bytes → Bytes → Bytes
stage_cmd piece redirect temp =
    codes "printf '%s' "
    ++ (quote piece
        ++ (codes " | "
            ++ (b64_decode_cmd ++ (codes " " ++ (redirect ++ (codes " " ++ quote temp))))))

unfoldable pub empty_cmd : Bytes → Bytes
empty_cmd temp = codes ": > " ++ quote temp

unfoldable pub digest_cmd : Bytes → Bytes → Bytes
digest_cmd sha256_cmd temp =
    sha256_cmd ++ (codes " -- " ++ (quote temp ++ codes " | awk '{print $1}'"))

unfoldable pub finalize_cmd : ℕ → Bytes → Bytes → Bytes
finalize_cmd mode temp path =
    codes "chmod "
    ++ (format_octal (perm mode)
        ++ (codes " "
            ++ (quote temp ++ (codes " && mv " ++ (quote temp ++ (codes " " ++ quote path))))))

unfoldable pub read_cmd : ProbeResult → Bytes → Bytes
read_cmd p path = codes "cat -- " ++ (quote path ++ (codes " | " ++ b64_encode_cmd p))

-- `tempPathFor`; the random suffix is a parameter, `none` for an error of `rand.Read`.
abbrev pub temp_path_for : Bytes → Bytes → Bytes
temp_path_for path suffix = path ++ (codes ".tmp." ++ suffix)

abbrev pub redirect_of : Bool → Bytes
redirect_of first = if first then codes ">" else codes ">>"

module _ {S : Type 0} (run_framed : Session S) (digest : Bytes → Bytes) where
  -- The loop over the pieces; `first` says that none was written yet.
  unfoldable pub stage_all : Bytes → Bool → List Bytes → Run S Unit
  stage_all temp first [] = return tt
  stage_all temp first (piece ∷ more) =
      run_must_succeed run_framed op_write (stage_cmd piece (redirect_of first) temp)
      >> stage_all temp false more

  -- With no piece, the temporary file is created all the same.
  abbrev pub stage_text : Bytes → List Bytes → Run S Unit
  stage_text temp [] = run_must_succeed run_framed op_write (empty_cmd temp)
  stage_text temp (piece ∷ more) = stage_all temp true (piece ∷ more)

  abbrev pub compare_digest : Bytes → RunResult → Run S Unit
  compare_digest data_bytes r =
      if same_bytes (trim_space r.output) (digest data_bytes)
      then return tt
      else throw (corrupted (digest data_bytes) (trim_space r.output))

  -- The check of the digest, where the remote has a command for it.
  abbrev pub verify : ProbeResult → Bytes → Bytes → Run S Unit
  verify p data_bytes temp =
      if is_empty p.sha256_cmd
      then return tt
      else (run_shell run_framed (digest_cmd p.sha256_cmd temp) [] >>= λ res.
          must_be_zero run_framed op_write res >>= compare_digest data_bytes)

  -- The deferred clean-up.
  abbrev pub clean_up : Bytes → S → ShellError ⊎ Unit {0} → S × (ShellError ⊎ Unit {0})
  clean_up temp s (inr u) = (s, inr u)
  clean_up temp s (inl e) = ((run_framed (remove_cmd temp) [] s).0, inl e)

  abbrev pub or_clean_up : Bytes → Run S Unit → Run S Unit
  or_clean_up temp m s = let (t, r) = m s in clean_up temp t r

  -- `Write` behind the temporary path.
  unfoldable pub store : ProbeResult → ℕ → Bytes → Bytes → ℕ → Bytes → Run S Unit
  store p chunk_size path data_bytes mode temp = or_clean_up temp (
      stage_text temp (pieces (length (encode data_bytes)) chunk_size (encode data_bytes))
      >> verify p data_bytes temp
      >> run_must_succeed run_framed op_write (finalize_cmd mode temp path))

  abbrev pub with_suffix : ProbeResult → ℕ → Bytes → Bytes → ℕ → Option Bytes → Run S Unit
  with_suffix p chunk_size path data_bytes mode none = throw random_failed
  with_suffix p chunk_size path data_bytes mode (some suffix) =
      store p chunk_size path data_bytes mode (temp_path_for path suffix)

  module _ (script : Bytes) (is_float : Bytes → Bool) where
    -- `Write`.
    unfoldable pub write_file :
        Bytes → Bytes → ℕ → Option Bytes → Shell → S → Outcome run_framed script is_float Unit
    write_file path data_bytes mode suffix b s =
        if ltb b.max_shell_file_size (length data_bytes)
        then ((b, s), inl (too_large (length data_bytes) b.max_shell_file_size))
        else with_probe run_framed script is_float
            (λ p. with_suffix p b.chunk_size path data_bytes mode suffix) b s

    abbrev pub decoded : Option Bytes → Run S Bytes
    decoded none = throw bad_base64
    decoded (some b) = return b

    abbrev pub fetch : ProbeResult → Bytes → Run S Bytes
    fetch p path = run_shell run_framed (read_cmd p path) [] >>= λ res.
        must_be_zero run_framed op_read res >>= λ r.
        decoded (decode_string (trim_right r.output b'\n'))

    abbrev pub above : ℕ → ℤ → Bool
    above limit (pos n) = ltb limit n
    above limit (negsuc n) = false

    abbrev pub size_of : ℤ → ℕ
    size_of (pos n) = n
    size_of (negsuc n) = 0

    -- The size is looked at if the file's information is there.
    abbrev pub if_small :
        ProbeResult
        → Bytes
        → Outcome run_framed script is_float FileInfo
        → Outcome run_framed script is_float Bytes
    if_small p path ((b, s), inl e) = ((b, (fetch p path s).0), (fetch p path s).1)
    if_small p path ((b, s), inr info) =
        if above b.max_shell_file_size info.size
        then ((b, s), inl (too_large (size_of info.size) b.max_shell_file_size))
        else ((b, (fetch p path s).0), (fetch p path s).1)

    -- `Read`, behind `ensureProbed`.
    abbrev pub read_probed :
        Bytes → (Shell × S) × (ShellError ⊎ ProbeResult) → Outcome run_framed script is_float Bytes
    read_probed path ((b, s), inl e) = ((b, s), inl e)
    read_probed path ((b, s), inr p) =
        if_small p path (stat_impl run_framed script is_float true path b s)

    unfoldable pub read_file : Bytes → Shell → S → Outcome run_framed script is_float Bytes
    read_file path b s = read_probed path (ensure_probed run_framed script b s)

-- `bufferedWriter`, less its backend and path.
pub record BufferedWriter : Type 0 where
  pub buf : Bytes
  pub closed : Bool

-- `bufferedWriter.Write`: the bytes written, or an error.
unfoldable pub writer_write : ℕ → BufferedWriter → Bytes → BufferedWriter × (ShellError ⊎ ℕ)
writer_write limit w b =
    if w.closed
    then (w, inl writer_closed)
    else if ltb limit (length w.buf + length b)
    then (w, inl (too_large (length w.buf + length b) limit))
    else (record w { buf = w.buf ++ b }, inr (length b))

-- `bufferedWriter.Close`: what is to be written, the first time.
unfoldable pub writer_close : BufferedWriter → BufferedWriter × Option Bytes
writer_close w = if w.closed then (w, none) else (record w { closed = true }, some w.buf)
