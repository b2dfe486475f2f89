-- ===== src/Shell/Ops.antt =====
-- The operations of pkg/backend/shell/fs.go and exec.go: which commands they run and what they make of
-- the results.
use ptyrelay.Base.{
  ℕ, ◌%◌, Bool, ◌&&◌, not, Bytes, List, [], ◌++◌, ◌⊎◌, inl, inr, if◌then◌else◌, codes,
}
use ptyrelay.Bytes.Text.{trim_space}
use ptyrelay.Bytes.Split.{trim_right, format_octal}
use ptyrelay.Quote.{quote}
use ptyrelay.Backend.{op_stat, op_list, op_mkdir_all, op_rename, op_remove}
use ptyrelay.Session.Drive.{RunResult}
use ptyrelay.Shell.State.{
  ProbeResult, ShellError, readlink_exited, Shell, Session, Run, ◌>>=◌, return, throw, is_zero,
  run_shell, must_be_zero, run_must_succeed,
}
use ptyrelay.Shell.Probe.{ensure_probed}
use ptyrelay.Shell.Stat.{FileInfo, build_stat_cmd, parse_stat_line, build_list_cmd, parse_list}

-- `mode.Perm()`.
abbrev pub perm : ℕ → ℕ
perm mode = mode % 512

unfoldable pub mkdir_all_cmd : Bytes → ℕ → Bytes
mkdir_all_cmd path mode =
    codes "mkdir -p "
    ++ (quote path
        ++ (codes " && chmod " ++ (format_octal (perm mode) ++ (codes " " ++ quote path))))

unfoldable pub rename_cmd : Bytes → Bytes → Bytes
rename_cmd old_path new_path = codes "mv " ++ (quote old_path ++ (codes " " ++ quote new_path))

unfoldable pub remove_cmd : Bytes → Bytes
remove_cmd path = codes "rm -f " ++ quote path

unfoldable pub readlink_cmd : Bytes → Bytes
readlink_cmd path = codes "readlink -- " ++ quote path

module _ {S : Type 0} (run_framed : Session S) (script : Bytes) (is_float : Bytes → Bool) where
  abbrev pub Outcome : Type 0 → Type 0
  Outcome A = (Shell × S) × (ShellError ⊎ A)

  abbrev pub in_state : {A : Type 0} → Shell → S × (ShellError ⊎ A) → Outcome A
  in_state b (s, r) = ((b, s), r)

  -- An operation behind `ensureProbed`.
  abbrev pub on_probed :
      {A : Type 0} → (ProbeResult → Run S A) → (Shell × S) × (ShellError ⊎ ProbeResult) → Outcome A
  on_probed op ((b, s), inl e) = ((b, s), inl e)
  on_probed op ((b, s), inr p) = in_state b (op p s)

  abbrev pub with_probe : {A : Type 0} → (ProbeResult → Run S A) → Shell → S → Outcome A
  with_probe op b s = on_probed op (ensure_probed run_framed script b s)

  abbrev pub mkdir_all : Bytes → ℕ → Shell → S → Outcome Unit
  mkdir_all path mode =
      with_probe λ p. run_must_succeed run_framed op_mkdir_all (mkdir_all_cmd path mode)

  abbrev pub rename : Bytes → Bytes → Shell → S → Outcome Unit
  rename old_path new_path =
      with_probe λ p. run_must_succeed run_framed op_rename (rename_cmd old_path new_path)

  abbrev pub remove : Bytes → Shell → S → Outcome Unit
  remove path = with_probe λ p. run_must_succeed run_framed op_remove (remove_cmd path)

  -- `readlink`.
  abbrev pub readlink : Bytes → Run S Bytes
  readlink path = run_shell run_framed (readlink_cmd path) [] >>= λ r.
      if not (is_zero r.exit_code)
      then throw (readlink_exited r.exit_code)
      else return (trim_right r.output b'\n')

  abbrev pub with_target : FileInfo → S → ShellError ⊎ Bytes → S × (ShellError ⊎ FileInfo)
  with_target info s (inl e) = (s, inr info)
  with_target info s (inr target) = (s, inr (record info { symlink_target = target }))

  abbrev pub add_target : Bool → Bytes → FileInfo → Run S FileInfo
  add_target follow path info s =
      if not follow && info.is_symlink
      then (let (t, r) = readlink path s in with_target info t r)
      else (s, inr info)

  abbrev pub parsed_or : {A : Type 0} → ShellError ⊎ A → Run S A
  parsed_or r s = (s, r)

  -- `statImpl`.
  unfoldable pub stat_impl : Bool → Bytes → Shell → S → Outcome FileInfo
  stat_impl follow path = with_probe λ p.
      run_shell run_framed (build_stat_cmd p.stat_style path follow) [] >>= λ res.
      must_be_zero run_framed op_stat res >>= λ r.
      parsed_or (parse_stat_line is_float p.stat_style (trim_space r.output) path)
      >>= add_target follow path

  -- `List`.
  unfoldable pub list_dir : Bytes → Shell → S → Outcome (List FileInfo)
  list_dir path = with_probe λ p.
      run_shell run_framed (build_list_cmd p.stat_style path) [] >>= λ res.
      must_be_zero run_framed op_list res >>= λ r.
      parsed_or (parse_list is_float p.stat_style r.output)

  -- `Run`; the output holds both streams.
  abbrev pub run : Bytes → Bytes → Shell → S → Outcome RunResult
  run cmd stdin = with_probe λ p. run_shell run_framed cmd stdin
