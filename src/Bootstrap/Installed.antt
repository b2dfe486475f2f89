-- ===== src/Bootstrap/Installed.antt =====
-- What `Bootstrap` has installed when it returns a path.
use ptyrelay.Base.{
  ℕ, ◌%◌, ◌<◌, Bool, true, false, Bytes, List, [], ◌∷◌, codes, Option, none, some, ◌⊎◌, inl, inr,
  ltb, length, ◌≡◌, refl, sym, ap, ◌∙◌, Bool-cases,
}
use ptyrelay.Base.Step.{◌>>=◌, return, lift, bind-inr, throw_lem}
use ptyrelay.Base64.Groups.{Octets}
use ptyrelay.Agent.Os.{Failure}
use ptyrelay.Session.Drive.{RunResult}
use ptyrelay.Bytes.Text.{trim_space}
use ptyrelay.Bootstrap.Platform.{fields, normalize_os, normalize_arch}
use ptyrelay.Shell.State.{ProbeResult, Shell, Session, is_zero, too_large, random_failed}
use ptyrelay.Shell.Write.{write_file, with_suffix}
use ptyrelay.Shell.Write.Stored.{store-Replaced}
use ptyrelay.Shell.Write.Remote.{Remote}
use ptyrelay.Bootstrap.{
  bootstrap, install, upload, detect_platform, resolve_install_path, make_parent, by_shell, place,
  from_provider, run_cmd, platform_of, read_uname, uname_exited, no_binary, write_failed,
}
use ptyrelay.Bootstrap.Kept.{
  with_probe-kept, by_shell-ran, detect_platform-kept, resolve_install_path-kept, make_parent-kept,
}

module _ {S : Type 0} (run_framed : Session S) (digest : Bytes → Bytes) (script : Bytes)
    (is_float : Bytes → Bool) (p : ProbeResult) where
  module _ (remote : Remote run_framed p.sha256_cmd) where
    write_file-installed :
        (path bin : Bytes) (mode : ℕ) (suffix : Option Bytes) (b b' : Shell) (s t : S)
        (u : Unit {0})
        → b.probe ≡ some p
        → 0 < b.chunk_size
        → b.chunk_size % 4 ≡ 0
        → Octets bin
        → write_file run_framed digest script is_float path bin mode suffix b s ≡ ((b', t), inr u)
        → remote.is_dir t path ≡ false
        → remote.content t path ≡ some bin
    unfolding write_file
    write_file-installed path bin mode none b b' s t u known some_size whole octets h plain =
        elim (Bool-cases (ltb b.max_shell_file_size (length bin))) [
          | inl large ↦ absurd (
              throw_lem {S = Shell × S} (b, s) (b', t)
                (too_large (length bin) b.max_shell_file_size) u (rw large at h))
          | inr fits ↦
              let k =
                (with_probe-kept run_framed digest script is_float p
                  (λ q. with_suffix run_framed digest q b.chunk_size path bin mode none) b b' s t u
                  known (rw fits at h)).1 in
              absurd (throw_lem s t random_failed u k)
        ]
    write_file-installed path bin mode (some name) b b' s t u known some_size whole octets h plain =
        elim (Bool-cases (ltb b.max_shell_file_size (length bin))) [
          | inl large ↦ absurd (
              throw_lem {S = Shell × S} (b, s) (b', t)
                (too_large (length bin) b.max_shell_file_size) u (rw large at h))
          | inr fits ↦
              let k =
                (with_probe-kept run_framed digest script is_float p
                  (λ q. with_suffix run_framed digest q b.chunk_size path bin mode (some name)) b b'
                  s t u known (rw fits at h)).1 in
              let done =
                store-Replaced run_framed digest p remote b.chunk_size path bin name mode s
                  some_size whole octets (ap (λ z. remote.is_dir z.0 path) k ∙ plain) in
              (rw k at done).0
        ]

    upload-installed :
        (path to : Bytes) (binary : Failure ⊎ Bytes) (suffix : Option Bytes) (b b' : Shell)
        (s t : S)
        → b.probe ≡ some p
        → 0 < b.chunk_size
        → b.chunk_size % 4 ≡ 0
        → ((bin : Bytes) → binary ≡ inr bin → Octets bin)
        → upload run_framed digest script is_float suffix path binary (b, s) ≡ ((b', t), inr to)
        → remote.is_dir t to ≡ false
        → (bin : Bytes) × (binary ≡ inr bin) × (remote.content t to ≡ some bin)
    upload-installed path to (inl e) suffix b b' s t known some_size whole octets h plain =
        absurd (throw_lem {S = Shell × S} (b, s) (b', t) (no_binary e) to h)
    upload-installed path to (inr bin) suffix b b' s t known some_size whole octets h plain =
        let write = write_file run_framed digest script is_float path bin 493 suffix in
        let (v, u, first, later) =
          bind-inr (by_shell run_framed digest script is_float write_failed write)
            (λ _. return path) (b, s) (b', t) to h in
        let same_state : v.1 ≡ t = ap (λ z. z.0.1) later in
        let same_path : path ≡ to = let k : inr path ≡ inr to = ap (λ z. z.1) later in cc in
        let plain_there =
          ap (λ z. remote.is_dir z path) same_state ∙ ap (remote.is_dir t) same_path ∙ plain in
        let there =
          write_file-installed path bin 493 suffix b v.0 s v.1 u known some_size whole
            (octets bin refl)
            (by_shell-ran run_framed digest script is_float p write_failed write b v.0 s v.1 u
              first)
            plain_there in
        (
          bin,
          refl,
          ap (λ z. remote.content z to) (sym same_state)
              ∙ ap (λ z. remote.content v.1 z) (sym same_path)
              ∙ there,
        )

    -- The answer to `uname -sm` names the platform, and the names are normalized.
    abbrev pub Names : RunResult → Bytes → Bytes → Type 0
    Names res os arch =
        (is_zero res.exit_code ≡ true)
        × (o : Bytes) × (a : Bytes) × (more : List Bytes) × (fields (trim_space res.output)
            ≡ o ∷ a ∷ more)
        × (os ≡ normalize_os o)
        × (arch ≡ normalize_arch a)

    platform_of-names :
        (out : Bytes) (parts : List Bytes) (target : Bytes × Bytes)
        → platform_of run_framed digest script is_float out parts ≡ inr target
        → (o : Bytes) × (a : Bytes) × (more : List Bytes) × (parts ≡ o ∷ a ∷ more)
          × (target.0 ≡ normalize_os o)
          × (target.1 ≡ normalize_arch a)
    platform_of-names out (o ∷ a ∷ more) target h =
        let same : (normalize_os o, normalize_arch a) ≡ target = cc in
        (o, a, more, refl, ap (λ z. z.0) (sym same), ap (λ z. z.1) (sym same))
    platform_of-names out (o ∷ []) target h = absurd (cc)
    platform_of-names out [] target h = absurd (cc)

    read_uname-Names :
        (res : RunResult) (target : Bytes × Bytes)
        → read_uname run_framed digest script is_float res ≡ inr target
        → Names res target.0 target.1
    read_uname-Names res target h = elim (Bool-cases (is_zero res.exit_code)) [
      | inl good ↦
          let (o, a, more, cut, os_named, arch_named) =
            platform_of-names res.output (fields (trim_space res.output)) target (rw good at h) in
          (good, o, a, more, cut, os_named, arch_named)
      | inr bad ↦
          let no : inl (uname_exited res.exit_code res.output) ≡ inr target = rw bad at h in
          absurd (cc)
    ]

    detect_platform-Names :
        (z v : Shell × S) (target : Bytes × Bytes)
        → detect_platform run_framed digest script is_float z ≡ (v, inr target)
        → (res : RunResult) × (run_cmd run_framed digest script is_float (codes "uname -sm") z
            ≡ (v, inr res))
          × Names res target.0 target.1
    unfolding detect_platform
    detect_platform-Names z v target h =
        let (u, res, ran, later) =
          bind-inr (run_cmd run_framed digest script is_float (codes "uname -sm"))
            (λ r. lift (read_uname run_framed digest script is_float r)) z v target h in
        (
          res,
          ran ∙ ap (λ x. (x, inr res)) (ap (λ y. y.0) later),
          read_uname-Names res target (ap (λ y. y.1) later),
        )

    -- When `Bootstrap` with a provider returns a path, and there is no directory at that path, the file there holds
    -- exactly the provider's binary for the platform that the answer to `uname -sm` has named, normalized; the shell
    -- was probed, its chunk size is a multiple of 4, the binary is some bytes, and the remote's tools work as documented.
    pub bootstrap-installed :
        (get : Bytes → Bytes → Failure ⊎ Bytes) (wanted : Bytes) (random suffix : Option Bytes)
        (b b' : Shell) (s t : S) (path : Bytes)
        → b.probe ≡ some p
        → 0 < b.chunk_size
        → b.chunk_size % 4 ≡ 0
        → ((os arch bin : Bytes) → get os arch ≡ inr bin → Octets bin)
        → bootstrap run_framed digest script is_float
            (from_provider get wanted)
            random
            suffix
            (b, s)
          ≡ ((b', t), inr path)
        → remote.is_dir t path ≡ false
        → (v : Shell × S) × (res : RunResult) × (os : Bytes) × (arch : Bytes) × (bin : Bytes)
          × (run_cmd run_framed digest script is_float (codes "uname -sm") (b, s) ≡ (v, inr res))
          × Names res os arch
          × (get os arch ≡ inr bin)
          × (remote.content t path ≡ some bin)
    unfolding bootstrap
    bootstrap-installed get wanted random suffix b b' s t path known some_size whole octets h
          plain =
        let opts = from_provider get wanted in
        let rest = λ (target : Bytes × Bytes).
          resolve_install_path run_framed digest script is_float wanted
          >>= place run_framed digest script is_float opts random suffix target in
        let (v, target, detected, after) =
          bind-inr (detect_platform run_framed digest script is_float) rest (b, s) (b', t) path h in
        let (w, there, resolved, after2) =
          bind-inr (resolve_install_path run_framed digest script is_float wanted)
            (place run_framed digest script is_float opts random suffix target) v (b', t) path
            after in
        let (x, u, made, after3) =
          bind-inr (make_parent run_framed digest script is_float there)
            (λ _. install run_framed digest script is_float opts random suffix there target) w
            (b', t) path after2 in
        let same1 =
          detect_platform-kept run_framed digest script is_float p b v.0 s v.1 target known
            detected in
        let known1 = ap (λ (z : Shell). z.probe) same1 ∙ known in
        let same2 =
          resolve_install_path-kept run_framed digest script is_float p wanted there v.0 w.0 v.1 w.1
            known1 resolved
          ∙ same1 in
        let known2 = ap (λ (z : Shell). z.probe) same2 ∙ known in
        let same3 =
          make_parent-kept run_framed digest script is_float p there w.0 x.0 w.1 x.1 u known2 made
          ∙ same2 in
        let known3 = ap (λ (z : Shell). z.probe) same3 ∙ known in
        let size = ap (λ (z : Shell). z.chunk_size) same3 in
        let (bin, got, held) =
          upload-installed there path (get target.0 target.1) suffix x.0 b' x.1 t known3
            (rw size some_size) (rw size whole) (octets target.0 target.1) after3 plain in
        let (res, ran, names) = detect_platform-Names (b, s) v target detected in
        (v, res, target.0, target.1, bin, ran, names, got, held)
