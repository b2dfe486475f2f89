-- ===== src/Shell/Write/Stored.antt =====
-- That `Write` of pkg/backend/shell/io.go replaces a file as a whole or not at all.
use ptyrelay.Base.{
  ℕ, ◌%◌, ◌<◌, Bool, false, Bytes, [], ◌++◌, Option, some, ◌⊎◌, inl, inr, length, codes, ◌≡◌, ◌≢◌,
  refl, ap, sym, ◌∙◌, arith, length-append, Sum-cases, Bool-cases,
}
use ptyrelay.Bytes.{same_bytes}
use ptyrelay.Bytes.Text.{trim_space}
use ptyrelay.Bytes.Split.{is_empty}
use ptyrelay.Base64.{encode, pieces}
use ptyrelay.Base64.Groups.{Octets, decode_all-pieces}
use ptyrelay.Backend.{op_write}
use ptyrelay.Session.Drive.{RunResult}
use ptyrelay.Shell.State.{
  ProbeResult, ShellError, Session, ◌>>=◌, and_then, is_zero, must_be_zero, run_must_succeed,
}
use ptyrelay.Shell.Write.{
  digest_cmd, finalize_cmd, temp_path_for, stage_text, verify, clean_up, store, compare_digest,
}
use ptyrelay.Shell.Write.Remote.{Remote}
use ptyrelay.Shell.Write.Verified.{Verified, verify-Verified, and_then-Verified, clean_up-Verified}
use ptyrelay.Shell.Write.Staged.{Staged, run_must_succeed-Ended, stage_text-Staged}

-- What becomes of a file that was to hold `new`: it does, or it is as before; and it does if there is
-- no error.
abbrev pub Replaced : Option Bytes → Option Bytes → Bytes → ShellError ⊎ Unit {0} → Type 0
Replaced before after new (inl e) = (after ≡ before) ⊎ (after ≡ some new)
Replaced before after new (inr u) = after ≡ some new

-- The same, where `dir` says whether there is a directory.
abbrev Moved : Option Bytes → Option Bytes → Bool → Bytes → ShellError ⊎ Unit {0} → Type 0
Moved before after dir new (inl e) = (after ≡ before) ⊎ (after ≡ some new)
Moved before after dir new (inr u) = dir ≡ false → after ≡ some new

Moved-Replaced :
    (before after : Option Bytes) (dir : Bool) (new : Bytes) (r : ShellError ⊎ Unit {0})
    → dir ≡ false
    → Moved before after dir new r
    → Replaced before after new r
Moved-Replaced before after dir new (inl e) plain h = h
Moved-Replaced before after dir new (inr u) plain h = h plain

temp_path_for-ne : (path suffix : Bytes) → temp_path_for path suffix ≢ path
temp_path_for-ne path suffix e =
    omega (arith, ap length e, length-append path (codes ".tmp." ++ suffix))

module _ {S : Type 0} (run_framed : Session S) (digest : Bytes → Bytes) (p : ProbeResult)
    (remote : Remote run_framed p.sha256_cmd) where
  -- Looking at the digest runs nothing.
  compare_digest_keeps :
      (data_bytes : Bytes) (t : S) (res : RunResult)
      → ((must_be_zero run_framed op_write res >>= compare_digest run_framed digest data_bytes) t).0
        ≡ t
  compare_digest_keeps data_bytes t res = elim (Bool-cases (is_zero res.exit_code)) [
    | inr bad ↦ rw bad refl
    | inl good ↦ elim (Bool-cases (same_bytes (trim_space res.output) (digest data_bytes))) [
      | inl equal ↦ rw (good, equal) refl
      | inr other ↦ rw (good, other) refl
    ]
  ]

  verify_keeps :
      (data_bytes temp q : Bytes) (s : S)
      → remote.content (verify run_framed digest p data_bytes temp s).0 q ≡ remote.content s q
  verify_keeps data_bytes temp q s = elim (Bool-cases (is_empty p.sha256_cmd)) [
    | inl none_there ↦ rw none_there refl
    | inr there ↦
        let sent = run_framed (digest_cmd p.sha256_cmd temp) [] s in
        let keeps = remote.digest_keeps temp q s in
        elim (Sum-cases sent.1) [
          | inl (e, failed) ↦ rw (there, failed) keeps
          | inr (res, ran) ↦
              rw (there, ran)
                (ap (λ z. remote.content z q) (compare_digest_keeps data_bytes sent.0 res) ∙ keeps)
        ]
  ]

  -- A clean-up concerns the temporary file only.
  clean_up-Moved :
      (path temp new : Bytes) (before : Option Bytes) (t : S) (r : ShellError ⊎ Unit {0})
      → temp ≢ path
      → Moved before (remote.content t path) (remote.is_dir t path) new r
      → let (t', r') = clean_up run_framed digest temp t r in
        Moved before (remote.content t' path) (remote.is_dir t' path) new r'
  clean_up-Moved path temp new before t (inr u) differs h = h
  clean_up-Moved path temp new before t (inl e) differs (inl same) =
      inl (remote.remove_spares temp path t differs ∙ same)
  clean_up-Moved path temp new before t (inl e) differs (inr whole) =
      inr (remote.remove_spares temp path t differs ∙ whole)

  finalize-Moved :
      (path temp new : Bytes) (mode : ℕ) (before : Option Bytes) (s : S)
      → remote.content s path ≡ before
      → remote.content s temp ≡ some new
      → let (t, r) = run_must_succeed run_framed op_write (finalize_cmd mode temp path) s in
        Moved before (remote.content t path) (remote.is_dir t path) new r
  finalize-Moved path temp new mode before s kept filled =
      let cmd = finalize_cmd mode temp path in
      let (same, ended) = run_must_succeed-Ended run_framed digest p remote op_write cmd s in
      let now = ap (λ z. remote.content z path) same in
      elim ended [
        | inr (good, ran) ↦ rw good λ plain.
            now
            ∙ remote.finalized mode temp path s ran
                (sym (ap (λ z. remote.is_dir z path) same) ∙ plain)
            ∙ filled
        | inl (x, failed) ↦ rw failed (elim (remote.finalize_whole mode temp path s) [
          | inl left ↦ inl (now ∙ left ∙ kept)
          | inr moved ↦ inr (now ∙ moved ∙ filled)
        ])
      ]

  after_verify-Moved :
      (path temp new : Bytes) (mode : ℕ) (before : Option Bytes) (t : S) (r : ShellError ⊎ Unit {0})
      → remote.content t path ≡ before
      → remote.content t temp ≡ some new
      → let (t', r') =
          and_then (λ _. run_must_succeed run_framed op_write (finalize_cmd mode temp path)) t r in
        Moved before (remote.content t' path) (remote.is_dir t' path) new r'
  after_verify-Moved path temp new mode before t (inl e) kept filled = inl kept
  after_verify-Moved path temp new mode before t (inr u) kept filled =
      finalize-Moved path temp new mode before t kept filled

  after_stage-Verified :
      (path temp new : Bytes) (mode : ℕ) (before : Option Bytes) (t : S) (r : ShellError ⊎ Unit {0})
      → Staged run_framed digest p remote path temp before new (t, r)
      → let (v, q) = and_then (λ _. verify run_framed digest p new temp) t r in
        Verified run_framed digest p remote temp new
          (and_then (λ _. run_must_succeed run_framed op_write (finalize_cmd mode temp path)) v q).1
  after_stage-Verified path temp new mode before t (inl e) h = tt
  after_stage-Verified path temp new mode before t (inr u) h =
      let (v, q) = verify run_framed digest p new temp t in
      and_then-Verified run_framed digest p remote temp new
        (run_must_succeed run_framed op_write (finalize_cmd mode temp path)) v q
        (verify-Verified run_framed digest p remote temp new t h.1)

  after_stage-Moved :
      (path temp new : Bytes) (mode : ℕ) (before : Option Bytes) (t : S) (r : ShellError ⊎ Unit {0})
      → Staged run_framed digest p remote path temp before new (t, r)
      → let (v, q) = and_then (λ _. verify run_framed digest p new temp) t r in
        let (t', r') =
          and_then (λ _. run_must_succeed run_framed op_write (finalize_cmd mode temp path)) v q in
        Moved before (remote.content t' path) (remote.is_dir t' path) new r'
  after_stage-Moved path temp new mode before t (inl e) h = inl h.0
  after_stage-Moved path temp new mode before t (inr u) h =
      let (v, q) = verify run_framed digest p new temp t in
      after_verify-Moved path temp new mode before v q (verify_keeps new temp path t ∙ h.0)
        (verify_keeps new temp temp t ∙ h.1)

  -- The write of bytes over a remote whose tools work as documented, from the temporary path on, to a path
  -- where there is no directory at the end: without an error the file there holds the bytes, and with one it holds
  -- them or is as it was before, never a part of them. Without an error, too, a remote that has a digest command has
  -- printed with it the digest of the bytes for the temporary file. The chunk size is a multiple of 4.
  pub store-Replaced :
      (chunk_size : ℕ) (path data_bytes suffix : Bytes) (mode : ℕ) (s : S)
      → 0 < chunk_size
      → chunk_size % 4 ≡ 0
      → Octets data_bytes
      → let temp = temp_path_for path suffix in
        remote.is_dir (store run_framed digest p chunk_size path data_bytes mode temp s).0 path
          ≡ false
        → let temp = temp_path_for path suffix in
          let (t, r) = store run_framed digest p chunk_size path data_bytes mode temp s in
          Replaced (remote.content s path) (remote.content t path) data_bytes r
          × Verified run_framed digest p remote temp data_bytes r
  unfolding store
  store-Replaced chunk_size path data_bytes suffix mode s some_size whole octets plain =
      let temp = temp_path_for path suffix in
      let before = remote.content s path in
      let differs = temp_path_for-ne path suffix in
      let ps = pieces (length (encode data_bytes)) chunk_size (encode data_bytes) in
      let (t, r) = stage_text run_framed digest temp ps s in
      let stage =
        stage_text-Staged run_framed digest p remote path temp data_bytes before ps s differs refl
          (decode_all-pieces chunk_size data_bytes some_size whole octets) in
      (
        Moved-Replaced before _ _ data_bytes _ plain (
            clean_up-Moved path temp data_bytes before _ _ differs
              (after_stage-Moved path temp data_bytes mode before t r stage)),
        clean_up-Verified run_framed digest p remote temp data_bytes _ _
            (after_stage-Verified path temp data_bytes mode before t r stage),
      )
