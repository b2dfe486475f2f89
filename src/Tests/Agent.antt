-- ===== src/Tests/Agent.antt =====
-- The agent over a remote whose files are a function, and which runs no commands.
use ptyrelay.Base.{
  ◌≡◌, ◌≢◌, refl, sym, ap, ◌∙◌, List, [], ◌∷◌, ◌++◌, Bytes, pos, true, false, none, some, inl, inr,
  codes, map, ◌⊎◌, length, take, drop, ◌==◌, arith, length-append, length-take, length-drop,
  Bool-cases,
}
use ptyrelay.Tests.Disk.{Disk, put, put_same, put_other}
use ptyrelay.Proto.{Op, ping, read, bye, Request}
use ptyrelay.Agent.Os.{Failure, new_error, Os, M, exited}
use ptyrelay.Agent.Handlers.{ArgsCodec, dir_of, base_of, split_at}
use ptyrelay.Agent.Handlers.Write.{Files}
use ptyrelay.Agent.Dispatch.{Env, dispatch, run_repl}
use ptyrelay.Agent.Dispatch.Answers.{Answers, dispatch-Answers}
use ptyrelay.Agent.Dispatch.Repl.{
  until_bye, dispatch_all, run_repl-dispatch_all, InOrder, run_repl-InOrder,
}

abbrev missing : Failure
missing = record { text = codes "no such file"; is_not_exist = true; is_permission = false }

abbrev get : Disk → Bytes → Disk × (Failure ⊎ Bytes)
get d path = (d, elim (d path) [ none ↦ inl missing | some b ↦ inr b ])

abbrev no_call : {A : Type 0} → M Disk A
no_call d = (d, inl (new_error (codes "no such call")))

abbrev pub disk_os : Os Disk
disk_os = record {
  read_file = λ path d. get d path;
  create_temp = λ dir base d. (put d (dir ++ base) (some []), inr (dir ++ base));
  write_temp = λ t b d. (put d t (some b), inr tt);
  chmod_temp = λ t m d. (d, inr tt);
  close_temp = λ t d. (d, inr tt);
  remove = λ t d. (put d t none, inr tt);
  rename = λ a b d. (put d b (d a), inr tt);
  mkdir_all = λ path m. no_call;
  chmod = λ path m. no_call;
  stat = λ path. no_call;
  lstat = λ path. no_call;
  readlink = λ path. no_call;
  read_dir = λ path. no_call;
  run_sh = λ cmd stdin d. (d, exited [] [] (pos 0));
  join = λ dir name. dir ++ (b'/' ∷ name);
}

temp_longer : (path : Bytes) → dir_of path ++ (base_of path ++ codes ".tmp.*") ≢ path
temp_longer path e = elim (Bool-cases (split_at path == 0)) [
  | inl no_dir ↦
      let zero_at : split_at path ≡ 0 = ground arith in
      omega (
        arith,
        ap length (rw no_dir at e),
        length-append (drop (split_at path) path) (codes ".tmp.*"),
        length-drop (split_at path) path,
        zero_at,
      )
  | inr has_dir ↦ omega (
    arith,
    ap length (rw has_dir at e),
    length-append (take (split_at path) path) (drop (split_at path) path ++ codes ".tmp.*"),
    length-append (drop (split_at path) path) (codes ".tmp.*"),
    length-drop (split_at path) path,
    length-take (split_at path) path,
  )
]

abbrev named : Bytes → Failure ⊎ Bytes
named b = inr b

inr_inj : {a b : Bytes} → named a ≡ named b → a ≡ b
inr_inj h = cc

pub disk_Files : Files disk_os
disk_Files = record {
  content = λ d p. d p;
  create_spares = λ dir base p d n. put_other d (dir ++ base) p (some []) (λ e. n (ap inr e));
  created_empty = λ dir base t d e.
      ap (λ z. put d (dir ++ base) (some []) z) (sym (inr_inj e))
      ∙ put_same d (dir ++ base) (some []);
  temp_differs = λ path d e. temp_longer path (inr_inj e);
  write_spares = λ t b p d n. put_other d t p (some b) n;
  written = λ t b d empty done. put_same d t (some b);
  chmod_keeps = λ t p m d. refl;
  close_keeps = λ t p d. refl;
  remove_spares = λ t p d n. put_other d t p none n;
  rename_fails = λ a b p d e h. absurd (cc);
  renamed = λ a b d h. put_same d b (d a);
}

-- The arguments are the text itself; a write has a fixed path and mode.
abbrev pub texts : ArgsCodec
texts = record {
  path_args = λ raw. inr raw;
  write_args = λ raw. inr (codes "/etc/motd", raw, 420);
  rename_args = λ raw. inr (raw, raw);
  mkdir_all_args = λ raw. inr (raw, 493);
  run_args = λ raw. inr (raw, []);
}

abbrev pub disk : Disk
disk = put (λ p. none) (codes "/etc/motd") (some (codes "old"))

abbrev pub env : Env Disk
env = record {
  agent_version = codes "0.3.0 linux/amd64";
  os = disk_os;
  codec = texts;
  marshal_data = λ d. inr (codes "{}");
  bad_version = λ v. codes "unsupported wire version";
  bad_op = λ name. codes "unknown op";
}

abbrev ask : Op → Bytes → Request
ask op id = record { v = 1; id = id; op = op; args = codes "/etc/motd" }

dispatch-Answers_example :
    Answers (ask read (codes "7")) (dispatch env (ask read (codes "7")) disk).1
dispatch-Answers_example = dispatch-Answers env (ask read (codes "7")) disk

abbrev talk : List Request
talk = ask ping (codes "1") ∷ ask bye (codes "2") ∷ ask read (codes "3") ∷ []

-- Two requests are answered: the third stands behind `bye`.
talk_served : length (run_repl env [] (map inr talk) disk).written ≡ 2
unfolding run_repl dispatch
talk_served = refl

run_repl-dispatch_all_example : run_repl env [] (map inr talk) disk ≡ record {
  state = (dispatch_all env (until_bye talk) disk).0;
  written = (dispatch_all env (until_bye talk) disk).1;
  error = none;
}
run_repl-dispatch_all_example = run_repl-dispatch_all env talk disk

run_repl-InOrder_example :
    let end =
      run_repl env
        (none ∷ some missing ∷ [])
        (inr (ask read (codes "1")) ∷ inl missing ∷ [])
        disk in
    InOrder env
      (none ∷ some missing ∷ [])
      (inr (ask read (codes "1")) ∷ inl missing ∷ [])
      end.written
      end.error
run_repl-InOrder_example =
    run_repl-InOrder env (none ∷ some missing ∷ []) (inr (ask read (codes "1")) ∷ inl missing ∷ [])
      disk
