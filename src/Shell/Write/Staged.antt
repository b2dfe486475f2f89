-- ===== src/Shell/Write/Staged.antt =====
-- That `Write` of pkg/backend/shell/io.go fills the temporary file and leaves the file that it is to replace.
use ptyrelay.Base.{
  true, false, Bytes, List, [], ◌∷◌, ◌++◌, Option, none, some, ◌⊎◌, inl, inr, codes, ◌≡◌, ◌≢◌, refl,
  ap, sym, ◌∙◌, append_assoc, append-nil, Sum-cases, Bool-cases,
}
use ptyrelay.Base64.{decode, decode_all, joined}
use ptyrelay.Backend.{Op, op_write}
use ptyrelay.Shell.State.{ProbeResult, ShellError, Session, is_zero, run_must_succeed}
use ptyrelay.Shell.Write.{stage_cmd, empty_cmd, stage_all, stage_text}
use ptyrelay.Shell.Write.Remote.{is_done, Remote}

-- A file holds `new` if there was no error.
abbrev pub Filled : Option Bytes → Bytes → ShellError ⊎ Unit {0} → Type 0
Filled now new (inl e) = Unit
Filled now new (inr u) = now ≡ some new

some_inj : {a b : Bytes} → some a ≡ some b → a ≡ b
some_inj h = cc

joined_parts :
    (x y : Option Bytes) (r : Bytes)
    → joined x y ≡ some r
    → (a : Bytes) × (b : Bytes) × (x ≡ some a) × (y ≡ some b) × (r ≡ a ++ b)
joined_parts (some a) (some b) r h = (a, b, refl, refl, cc)
joined_parts (some a) none r h = absurd (cc)
joined_parts none y r h = absurd (cc)

module _ {S : Type 0} (run_framed : Session S) (digest : Bytes → Bytes) (p : ProbeResult)
    (remote : Remote run_framed p.sha256_cmd) where
  -- A command that must succeed leaves what it leaves, and has run to its end if there is no error.
  abbrev pub Ended : Bytes → S → S × (ShellError ⊎ Unit {0}) → Type 0
  Ended cmd s (t, r) =
      (t ≡ (run_framed cmd [] s).0)
      × (((e : ShellError) × (r ≡ inl e))
          ⊎ ((r ≡ inr tt) × (is_done (run_framed cmd [] s).1 ≡ true)))

  pub run_must_succeed-Ended :
      (op : Op) (cmd : Bytes) (s : S) → Ended cmd s (run_must_succeed run_framed op cmd s)
  unfolding run_must_succeed
  run_must_succeed-Ended op cmd s = elim (Sum-cases (run_framed cmd [] s).1) [
    | inl (e, failed) ↦ rw failed (refl, inl (_, refl))
    | inr (r, ran) ↦ elim (Bool-cases (is_zero r.exit_code)) [
      | inl good ↦ rw (ran, good) (refl, inr (refl, refl))
      | inr bad ↦ rw (ran, bad) (refl, inl (_, refl))
    ]
  ]

  -- The file to be replaced is as before, and the temporary file holds `new` if there was no error.
  abbrev pub Staged : Bytes → Bytes → Option Bytes → Bytes → S × (ShellError ⊎ Unit {0}) → Type 0
  Staged path temp before new (t, r) =
      (remote.content t path ≡ before) × Filled (remote.content t temp) new r

  stage_more-Staged :
      (path temp old raw : Bytes) (before : Option Bytes) (ps : List Bytes) (s : S)
      → temp ≢ path
      → remote.content s path ≡ before
      → remote.content s temp ≡ some old
      → decode_all ps ≡ some raw
      → Staged path temp before (old ++ raw) (stage_all run_framed digest temp false ps s)
  unfolding stage_all decode_all
  stage_more-Staged path temp old raw before [] s differs kept filled h =
      (kept, filled ∙ ap some (sym (append-nil old) ∙ ap (λ z. old ++ z) (some_inj h)))
  stage_more-Staged path temp old raw before (p ∷ ps) s differs kept filled h =
      let cmd = stage_cmd p (codes ">>") temp in
      let (a, b, ha, hb, e) = joined_parts (decode p) (decode_all ps) raw h in
      let m = run_must_succeed run_framed op_write cmd s in
      let (same, ended) = run_must_succeed-Ended op_write cmd s in
      let kept' =
        ap (λ z. remote.content z path) same
        ∙ remote.stage_spares p temp path false s differs
        ∙ kept in
      elim ended [
        | inl (x, failed) ↦ rw failed (kept', tt)
        | inr (good, ran) ↦
            rw (good, e)
              (rw (append_assoc old a b) at (
                stage_more-Staged path temp (old ++ a) b before ps m.0 differs kept'
                  (ap (λ z. remote.content z temp) same
                    ∙ remote.stage_more p temp old a s filled ha ran)
                  hb))
      ]

  pub stage_text-Staged :
      (path temp raw : Bytes) (before : Option Bytes) (ps : List Bytes) (s : S)
      → temp ≢ path
      → remote.content s path ≡ before
      → decode_all ps ≡ some raw
      → Staged path temp before raw (stage_text run_framed digest temp ps s)
  unfolding stage_all decode_all
  stage_text-Staged path temp raw before [] s differs kept h =
      let cmd = empty_cmd temp in
      let (same, ended) = run_must_succeed-Ended op_write cmd s in
      let kept' =
        ap (λ z. remote.content z path) same ∙ remote.empty_spares temp path s differs ∙ kept in
      elim ended [
        | inl (x, failed) ↦ rw failed (kept', tt)
        | inr (good, ran) ↦
            rw good (kept', ap (λ z. remote.content z temp) same ∙ remote.emptied temp s ran ∙ h)
      ]
  stage_text-Staged path temp raw before (p ∷ ps) s differs kept h =
      let cmd = stage_cmd p (codes ">") temp in
      let (a, b, ha, hb, e) = joined_parts (decode p) (decode_all ps) raw h in
      let m = run_must_succeed run_framed op_write cmd s in
      let (same, ended) = run_must_succeed-Ended op_write cmd s in
      let kept' =
        ap (λ z. remote.content z path) same
        ∙ remote.stage_spares p temp path true s differs
        ∙ kept in
      elim ended [
        | inl (x, failed) ↦ rw failed (kept', tt)
        | inr (good, ran) ↦
            rw (good, e)
              (stage_more-Staged path temp a b before ps m.0 differs kept'
                (ap (λ z. remote.content z temp) same ∙ remote.stage_first p temp a s ha ran) hb)
      ]
