-- ===== src/Shell/Write/Remote.antt =====
-- What the write of pkg/backend/shell/io.go relies on of the remote.
use ptyrelay.Base.{
  ℕ, Bool, true, false, Bytes, [], ◌++◌, Option, some, ◌⊎◌, inl, inr, codes, ◌≡◌, ◌≢◌,
}
use ptyrelay.Base64.{decode}
use ptyrelay.Session.Drive.{RunResult, SessionError}
use ptyrelay.Shell.State.{Session, is_zero}
use ptyrelay.Shell.Ops.{remove_cmd}
use ptyrelay.Shell.Write.{stage_cmd, redirect_of, empty_cmd, digest_cmd, finalize_cmd}

-- The command has run to its end with exit code 0.
abbrev pub is_done : SessionError ⊎ RunResult → Bool
is_done (inl e) = false
is_done (inr r) = is_zero r.exit_code

-- What the commands of the write do to the contents of the remote's files, as the tools are
-- documented: a redirection and a removal concern one file; `base64 -d` writes what its input stands
-- for; a digest changes nothing; and `mv` puts a file in the place of another or leaves it, unless there is a
-- directory, which it moves the file into.
pub record Remote {S : Type 0} (run_framed : Session S) (sha256_cmd : Bytes) : Type 0 where
  -- What `cat` and `test -d` tell of a path.
  pub content : S → Bytes → Option Bytes
  pub is_dir : S → Bytes → Bool
  pub stage_spares :
      (piece temp p : Bytes) (first : Bool) (s : S)
      → temp ≢ p
      → content (run_framed (stage_cmd piece (redirect_of first) temp) [] s).0 p ≡ content s p
  pub stage_first :
      (piece temp raw : Bytes) (s : S)
      → decode piece ≡ some raw
      → is_done (run_framed (stage_cmd piece (codes ">") temp) [] s).1 ≡ true
      → content (run_framed (stage_cmd piece (codes ">") temp) [] s).0 temp ≡ some raw
  pub stage_more :
      (piece temp old raw : Bytes) (s : S)
      → content s temp ≡ some old
      → decode piece ≡ some raw
      → is_done (run_framed (stage_cmd piece (codes ">>") temp) [] s).1 ≡ true
      → content (run_framed (stage_cmd piece (codes ">>") temp) [] s).0 temp ≡ some (old ++ raw)
  pub empty_spares :
      (temp p : Bytes) (s : S)
      → temp ≢ p
      → content (run_framed (empty_cmd temp) [] s).0 p ≡ content s p
  pub emptied :
      (temp : Bytes) (s : S)
      → is_done (run_framed (empty_cmd temp) [] s).1 ≡ true
      → content (run_framed (empty_cmd temp) [] s).0 temp ≡ some []
  pub digest_keeps :
      (temp p : Bytes) (s : S)
      → content (run_framed (digest_cmd sha256_cmd temp) [] s).0 p ≡ content s p
  pub remove_spares :
      (temp p : Bytes) (s : S)
      → temp ≢ p
      → content (run_framed (remove_cmd temp) [] s).0 p ≡ content s p
  pub finalize_whole :
      (mode : ℕ) (temp path : Bytes) (s : S)
      → (content (run_framed (finalize_cmd mode temp path) [] s).0 path ≡ content s path)
        ⊎ (content (run_framed (finalize_cmd mode temp path) [] s).0 path ≡ content s temp)
  pub finalized :
      (mode : ℕ) (temp path : Bytes) (s : S)
      → is_done (run_framed (finalize_cmd mode temp path) [] s).1 ≡ true
      → is_dir (run_framed (finalize_cmd mode temp path) [] s).0 path ≡ false
      → content (run_framed (finalize_cmd mode temp path) [] s).0 path ≡ content s temp
