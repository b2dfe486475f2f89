-- ===== src/Bootstrap.antt =====
-- pkg/bootstrap/bootstrap.go: putting the agent on the remote by way of the shell backend. The provider of
-- binaries and the function for the URL are parameters.
pub mod Platform
pub mod Fetch
pub mod Kept
pub mod Installed
use ptyrelay.Base.{
  ℕ, zero, suc, Bytes, List, [], ◌∷◌, ◌++◌, Bool, true, false, ◌&&◌, not, Option, none, some, ◌⊎◌,
  inl, inr, if◌then◌else◌, codes, ℤ, pos, negsuc, ltb, ◌==◌, length, take, drop,
}
use ptyrelay.Base.Step.{Step, ◌>>=◌, ◌>>◌, return, throw, lift}
use ptyrelay.Bytes.{same_bytes}
use ptyrelay.Bytes.Text.{trim_space}
use ptyrelay.Bytes.Split.{is_empty}
use ptyrelay.Session.Drive.{RunResult}
use ptyrelay.Session.Streaming.{last_index_byte}
use ptyrelay.Agent.Os.{Failure}
use ptyrelay.Shell.State.{Shell, Session, ShellError, is_zero}
use ptyrelay.Shell.Ops.{run, mkdir_all}
use ptyrelay.Shell.Write.{write_file}
use ptyrelay.Bootstrap.Platform.{fields, normalize_os, normalize_arch}
use ptyrelay.Bootstrap.Fetch.{fetch_script, script_path, fetch_cmd}

-- `Options`; `Provider.Get` and `FromURL` are functions, `none` where they are nil.
pub record Options : Type 0 where
  pub provider : Option (Bytes → Bytes → Failure ⊎ Bytes)
  pub from_url : Option (Bytes → Bytes → Bytes × Bytes)
  pub install_path : Bytes

-- The options of a caller that brings the binary.
abbrev pub from_provider : (Bytes → Bytes → Failure ⊎ Bytes) → Bytes → Options
from_provider get wanted = record { provider = some get; from_url = none; install_path = wanted }

pub data BootstrapError : Type 0 where
  no_source home_empty nonce_failed : BootstrapError
  shell mkdir_failed stage_failed write_failed : ShellError → BootstrapError
  uname_exited : ℤ → Bytes → BootstrapError
  uname_malformed : Bytes → BootstrapError
  home_exited : ℤ → BootstrapError
  empty_url : Bytes → Bytes → BootstrapError
  fetch_exited : ℤ → Bytes → BootstrapError
  no_binary : Failure → BootstrapError

abbrev pub is_none : {A : Type 0} → Option A → Bool
is_none none = true
is_none (some a) = false

-- The directory of a path, where it is another path.
unfoldable pub parent_of : Bytes → Bytes
parent_of path = elim (last_index_byte path b'/') [ none ↦ path | some i ↦ take i path ]

module _ {S : Type 0} (run_framed : Session S) (digest : Bytes → Bytes) (script : Bytes)
    (is_float : Bytes → Bool) where
  abbrev pub Boot : Type 0 → Type 0
  Boot A = Step (Shell × S) BootstrapError A

  abbrev pub wrapped :
      {A : Type 0} → (ShellError → BootstrapError) → ShellError ⊎ A → BootstrapError ⊎ A
  wrapped wrap (inl e) = inl (wrap e)
  wrapped wrap (inr a) = inr a

  -- An operation of the shell backend, with its error wrapped.
  abbrev pub by_shell :
      {A : Type 0}
      → (ShellError → BootstrapError)
      → (Shell → S → (Shell × S) × (ShellError ⊎ A))
      → Boot A
  by_shell wrap op (b, s) = let (t, r) = op b s in (t, wrapped wrap r)

  abbrev pub run_cmd : Bytes → Boot RunResult
  run_cmd cmd = by_shell shell (run run_framed script is_float cmd [])

  abbrev pub platform_of : Bytes → List Bytes → BootstrapError ⊎ (Bytes × Bytes)
  platform_of out (os ∷ arch ∷ more) = inr (normalize_os os, normalize_arch arch)
  platform_of out parts = inl (uname_malformed out)

  abbrev pub read_uname : RunResult → BootstrapError ⊎ (Bytes × Bytes)
  read_uname r =
      if not (is_zero r.exit_code)
      then inl (uname_exited r.exit_code r.output)
      else platform_of r.output (fields (trim_space r.output))

  -- `detectPlatform`.
  unfoldable pub detect_platform : Boot (Bytes × Bytes)
  detect_platform = do r ← run_cmd (codes "uname -sm"); lift (read_uname r)

  abbrev pub under_home : Bytes → BootstrapError ⊎ Bytes
  under_home home =
      if is_empty home then inl home_empty else inr (home ++ codes "/.local/bin/ptyrelay-agent")

  abbrev pub read_home : RunResult → BootstrapError ⊎ Bytes
  read_home r =
      if not (is_zero r.exit_code)
      then inl (home_exited r.exit_code)
      else under_home (trim_space r.output)

  -- `resolveInstallPath`.
  unfoldable pub resolve_install_path : Bytes → Boot Bytes
  resolve_install_path [] = do r ← run_cmd (codes "printf '%s' \"$HOME\""); lift (read_home r)
  resolve_install_path (c ∷ requested) = return (c ∷ requested)

  abbrev pub make_parent : Bytes → Boot Unit
  make_parent path =
      let parent = parent_of path in
      if not (is_empty parent) && not (same_bytes parent path)
      then by_shell mkdir_failed (mkdir_all run_framed script is_float parent 493)
      else return tt

  abbrev pub fetched : RunResult → BootstrapError ⊎ Unit {0}
  fetched r =
      if not (is_zero r.exit_code)
      then inl (fetch_exited r.exit_code (trim_space r.output))
      else inr tt

  -- `fetchOnRemote`; `random` is the random name, and `suffix` that of the write.
  unfoldable pub fetch_on_remote : Option Bytes → Option Bytes → Bytes → Bytes → Bytes → Boot Unit
  fetch_on_remote none suffix url sha install_path = throw nonce_failed
  fetch_on_remote (some random) suffix url sha install_path = do
    by_shell stage_failed (
        write_file run_framed digest script is_float (script_path random)
          (fetch_script url sha install_path) 448 suffix)
    r ← run_cmd (fetch_cmd (script_path random))
    lift (fetched r)

  abbrev pub from_remote :
      Option Bytes → Option Bytes → Bytes → Bytes → Bytes → Bytes × Bytes → Boot Bytes
  from_remote random suffix path os arch (url, sha) =
      if is_empty url
      then throw (empty_url os arch)
      else fetch_on_remote random suffix url sha path >> return path

  abbrev pub upload : Option Bytes → Bytes → Failure ⊎ Bytes → Boot Bytes
  upload suffix path (inl e) = throw (no_binary e)
  upload suffix path (inr bin) = do
    by_shell write_failed (write_file run_framed digest script is_float path bin 493 suffix)
    return path

  -- Both sources are looked at in the order of the code.
  abbrev pub install : Options → Option Bytes → Option Bytes → Bytes → Bytes × Bytes → Boot Bytes
  install opts random suffix path (os, arch) = elim opts.from_url [
    | some url_for ↦ from_remote random suffix path os arch (url_for os arch)
    | none ↦ elim opts.provider [
      | none ↦ throw no_source
      | some get ↦ upload suffix path (get os arch)
    ]
  ]

  abbrev pub place : Options → Option Bytes → Option Bytes → Bytes × Bytes → Bytes → Boot Bytes
  place opts random suffix target path = make_parent path >> install opts random suffix path target

  abbrev pub has_source : Options → Bool
  has_source opts = not (is_none opts.provider && is_none opts.from_url)

  -- `Bootstrap`.
  unfoldable pub bootstrap : Options → Option Bytes → Option Bytes → Boot Bytes
  bootstrap opts random suffix =
      if not (has_source opts)
      then throw no_source
      else detect_platform >>= λ target.
          resolve_install_path opts.install_path >>= place opts random suffix target
