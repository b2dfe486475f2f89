-- ===== src/Bootstrap/Kept.antt =====
-- The steps of `Bootstrap` leave a shell that was probed as it is.
use ptyrelay.Base.{
  Bool, not, Bytes, [], ◌∷◌, some, ◌⊎◌, inl, inr, ◌≡◌, sym, ap, ◌∙◌, ◌&&◌, codes, Bool-cases,
}
use ptyrelay.Base.Step.{◌>>=◌, lift, bind-inr}
use ptyrelay.Bytes.{same_bytes}
use ptyrelay.Bytes.Split.{is_empty}
use ptyrelay.Backend.{op_mkdir_all}
use ptyrelay.Session.Drive.{RunResult}
use ptyrelay.Shell.State.{
  ProbeResult, Shell, Session, ShellError, Run, run_shell, run_must_succeed, backend_closed,
}
use ptyrelay.Shell.Probe.{ensure_probed}
use ptyrelay.Shell.Ops.{with_probe, mkdir_all_cmd}
use ptyrelay.Bootstrap.{
  BootstrapError, detect_platform, resolve_install_path, make_parent, by_shell, run_cmd, wrapped,
  shell, read_uname, read_home, mkdir_failed, parent_of,
}

module _ {S : Type 0} (run_framed : Session S) (digest : Bytes → Bytes) (script : Bytes)
    (is_float : Bytes → Bool) (p : ProbeResult) where
  ensure_probed-known :
      (b : Shell) (s : S)
      → b.probe ≡ some p
      → (ensure_probed run_framed script b s ≡ ((b, s), inr p))
        ⊎ (ensure_probed run_framed script b s ≡ ((b, s), inl backend_closed))
  unfolding ensure_probed
  ensure_probed-known b s known = elim (Bool-cases b.closed_flag) [
    | inl shut ↦ inr (simp (shut))
    | inr live ↦ inl (simp (live, known))
  ]

  -- An operation of a shell that was probed leaves the shell as it is.
  pub with_probe-kept :
      {A : Type 0} (op : ProbeResult → Run S A) (b b' : Shell) (s t : S) (a : A)
      → b.probe ≡ some p
      → with_probe run_framed script is_float op b s ≡ ((b', t), inr a)
      → (b' ≡ b) × (op p s ≡ (t, inr a))
  with_probe-kept op b b' s t a known h = elim (ensure_probed-known b s known) [
    | inl ready ↦ let k = rw ready at h in (sym (ap (λ z. z.0.0) k), ap (λ z. (z.0.1, z.1)) k)
    | inr shut ↦
        let k = rw shut at h in absurd (let no : inl backend_closed ≡ inr a = ap (λ z. z.1) k in cc)
  ]

  pub wrapped-inr :
      {A : Type 0} (wrap : ShellError → BootstrapError) (r : ShellError ⊎ A) (a : A)
      → wrapped run_framed digest script is_float wrap r ≡ inr a
      → r ≡ inr a
  wrapped-inr wrap (inl e) a h = absurd cc
  wrapped-inr wrap (inr x) a h = let same : x ≡ a = cc in ap inr same

  pub by_shell-ran :
      {A : Type 0} (wrap : ShellError → BootstrapError)
      (op : Shell → S → (Shell × S) × (ShellError ⊎ A)) (b b' : Shell) (s t : S) (a : A)
      → by_shell run_framed digest script is_float wrap op (b, s) ≡ ((b', t), inr a)
      → op b s ≡ ((b', t), inr a)
  by_shell-ran wrap op b b' s t a h =
      let r = op b s in
      let ran = wrapped-inr wrap r.1 a (ap (λ z. z.1) h) in
      let there = ap (λ z. z.0) h in ap (λ z. (z, r.1)) there ∙ ap (λ z. ((b', t), z)) ran

  pub by_shell-kept :
      {A : Type 0} (wrap : ShellError → BootstrapError) (op : ProbeResult → Run S A) (b b' : Shell)
      (s t : S) (a : A)
      → b.probe ≡ some p
      → by_shell run_framed digest script is_float wrap
          (with_probe run_framed script is_float op)
          (b, s)
        ≡ ((b', t), inr a)
      → b' ≡ b
  by_shell-kept wrap op b b' s t a known h =
      (with_probe-kept op b b' s t a known
        (by_shell-ran wrap (with_probe run_framed script is_float op) b b' s t a h)).0

  -- So does a command whose result is looked at.
  run_cmd-kept :
      {A : Type 0} (cmd : Bytes) (f : RunResult → BootstrapError ⊎ A) (b b' : Shell) (s t : S)
      (a : A)
      → b.probe ≡ some p
      → (run_cmd run_framed digest script is_float cmd >>= λ r. lift (f r)) (b, s)
        ≡ ((b', t), inr a)
      → b' ≡ b
  run_cmd-kept cmd f b b' s t a known h =
      let (u, r, first, later) =
        bind-inr (run_cmd run_framed digest script is_float cmd) (λ r. lift (f r)) (b, s) (b', t) a
          h in
      sym (ap (λ z. z.0.0) later)
      ∙ by_shell-kept shell (λ q. run_shell run_framed cmd []) b u.0 s u.1 r known first

  pub detect_platform-kept :
      (b b' : Shell) (s t : S) (target : Bytes × Bytes)
      → b.probe ≡ some p
      → detect_platform run_framed digest script is_float (b, s) ≡ ((b', t), inr target)
      → b' ≡ b
  unfolding detect_platform
  detect_platform-kept b b' s t target known h =
      run_cmd-kept (codes "uname -sm") (read_uname run_framed digest script is_float) b b' s t
        target known h

  pub resolve_install_path-kept :
      (requested path : Bytes) (b b' : Shell) (s t : S)
      → b.probe ≡ some p
      → resolve_install_path run_framed digest script is_float requested (b, s)
        ≡ ((b', t), inr path)
      → b' ≡ b
  unfolding resolve_install_path
  resolve_install_path-kept [] path b b' s t known h =
      run_cmd-kept (codes "printf '%s' \"$HOME\"") (read_home run_framed digest script is_float) b
        b' s t path known h
  resolve_install_path-kept (x ∷ requested) path b b' s t known h = sym (ap (λ z. z.0.0) h)

  pub make_parent-kept :
      (path : Bytes) (b b' : Shell) (s t : S) (u : Unit {0})
      → b.probe ≡ some p
      → make_parent run_framed digest script is_float path (b, s) ≡ ((b', t), inr u)
      → b' ≡ b
  make_parent-kept path b b' s t u known h =
      elim (Bool-cases
        (not (is_empty (parent_of path)) && not (same_bytes (parent_of path) path))) [
          | inl needed ↦
              by_shell-kept mkdir_failed
                (λ q. run_must_succeed run_framed op_mkdir_all (mkdir_all_cmd (parent_of path) 493))
                b b' s t u known (rw needed at h)
          | inr there ↦ sym (ap (λ z. z.0.0) (rw there at h))
        ]
