-- ===== src/Shell/Write/Verified.antt =====
-- That `Write` of pkg/backend/shell/io.go succeeds only with the digest of what it was given.
use ptyrelay.Base.{true, false, Bytes, [], some, ◌⊎◌, inl, inr, ◌≡◌, Sum-cases, Bool-cases}
use ptyrelay.Bytes.{same_bytes}
use ptyrelay.Bytes.Same.{same_bytes→≡}
use ptyrelay.Bytes.Text.{trim_space}
use ptyrelay.Bytes.Split.{is_empty}
use ptyrelay.Backend.{op_write}
use ptyrelay.Session.Drive.{RunResult}
use ptyrelay.Shell.State.{ProbeResult, ShellError, Session, ◌>>=◌, and_then, is_zero, must_be_zero}
use ptyrelay.Shell.Write.{digest_cmd, verify, compare_digest, clean_up}
use ptyrelay.Shell.Write.Remote.{Remote}

module _ {S : Type 0} (run_framed : Session S) (digest : Bytes → Bytes) (p : ProbeResult)
    (remote : Remote run_framed p.sha256_cmd) where
  -- If the remote has a digest command, then it has ended with exit code 0 and printed the digest of `new` for the
  -- temporary file, at a time when that file held `new`.
  abbrev pub Verified : Bytes → Bytes → ShellError ⊎ Unit {0} → Type 0
  Verified temp new (inl e) = Unit
  Verified temp new (inr u) =
      is_empty p.sha256_cmd ≡ false
      → (v : S) × (res : RunResult) × (remote.content v temp ≡ some new)
        × ((run_framed (digest_cmd p.sha256_cmd temp) [] v).1 ≡ inr res)
        × (is_zero res.exit_code ≡ true)
        × (trim_space res.output ≡ digest new)

  compare_digest-Verified :
      (temp new : Bytes) (v t : S) (res : RunResult)
      → remote.content v temp ≡ some new
      → (run_framed (digest_cmd p.sha256_cmd temp) [] v).1 ≡ inr res
      → Verified temp new
          ((must_be_zero run_framed op_write res >>= compare_digest run_framed digest new) t).1
  compare_digest-Verified temp new v t res held ran = elim (Bool-cases (is_zero res.exit_code)) [
    | inr bad ↦ rw bad tt
    | inl good ↦ elim (Bool-cases (same_bytes (trim_space res.output) (digest new))) [
      | inl equal ↦ rw (good, equal) (λ h. (v, res, held, ran, good, same_bytes→≡ _ _ equal))
      | inr other ↦ rw (good, other) tt
    ]
  ]

  pub verify-Verified :
      (temp new : Bytes) (s : S)
      → remote.content s temp ≡ some new
      → Verified temp new (verify run_framed digest p new temp s).1
  verify-Verified temp new s held = elim (Bool-cases (is_empty p.sha256_cmd)) [
    | inl none_there ↦ rw none_there (λ h. absurd cc)
    | inr there ↦
        let sent = run_framed (digest_cmd p.sha256_cmd temp) [] s in
        elim (Sum-cases sent.1) [
          | inl (e, failed) ↦ rw (there, failed) tt
          | inr (res, ran) ↦
              simp (there, ran) (compare_digest-Verified temp new s sent.0 res held ran)
        ]
  ]

  Verified-later :
      (temp new : Bytes) (u : Unit {0}) (r : ShellError ⊎ Unit {0})
      → Verified temp new (inr u)
      → Verified temp new r
  Verified-later temp new u (inl e) h = tt
  Verified-later temp new u (inr v) h = h

  -- What follows the check keeps it.
  pub and_then-Verified :
      (temp new : Bytes) (k : S → S × (ShellError ⊎ Unit {0})) (t : S) (r : ShellError ⊎ Unit {0})
      → Verified temp new r
      → Verified temp new (and_then (λ _. k) t r).1
  and_then-Verified temp new k t (inl e) h = tt
  and_then-Verified temp new k t (inr u) h = Verified-later temp new u (k t).1 h

  pub clean_up-Verified :
      (temp new : Bytes) (t : S) (r : ShellError ⊎ Unit {0})
      → Verified temp new r
      → Verified temp new (clean_up run_framed digest temp t r).1
  clean_up-Verified temp new t (inl e) h = tt
  clean_up-Verified temp new t (inr u) h = h
