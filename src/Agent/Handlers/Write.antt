-- ===== src/Agent/Handlers/Write.antt =====
-- That `handleWrite` of cmd/ptyrelay-agent/handlers.go replaces a file as a whole or not at all.
use ptyrelay.Base.{
  ℕ, Bytes, Option, some, [], ◌++◌, codes, ◌⊎◌, inl, inr, ◌≡◌, ◌≢◌, ap, ◌∙◌, Sum-cases,
}
use ptyrelay.Agent.Os.{Failure, Os}
use ptyrelay.Agent.Handlers.{
  ArgsCodec, Data, unmarshal_args, dir_of, base_of, perm, fill_and_rename, handle_write,
  or_clean_up,
}

-- What package os documents of the calls, on the contents of the files: a temporary file is empty and
-- has a longer name than the path it is made for; a write and a removal concern one file; a rename is
-- done or not done.
pub record Files {S : Type 0} (os : Os S) : Type 0 where
  pub content : S → Bytes → Option Bytes
  pub create_spares :
      (d b p : Bytes) (s : S)
      → (os.create_temp d b s).1 ≢ inr p
      → content (os.create_temp d b s).0 p ≡ content s p
  pub created_empty :
      (d b t : Bytes) (s : S)
      → (os.create_temp d b s).1 ≡ inr t
      → content (os.create_temp d b s).0 t ≡ some []
  pub temp_differs :
      (path : Bytes) (s : S)
      → (os.create_temp (dir_of path) (base_of path ++ codes ".tmp.*") s).1 ≢ inr path
  pub write_spares :
      (t b p : Bytes) (s : S) → t ≢ p → content (os.write_temp t b s).0 p ≡ content s p
  pub written :
      (t b : Bytes) (s : S)
      → content s t ≡ some []
      → (os.write_temp t b s).1 ≡ inr tt
      → content (os.write_temp t b s).0 t ≡ some b
  pub chmod_keeps : (t p : Bytes) (m : ℕ) (s : S) → content (os.chmod_temp t m s).0 p ≡ content s p
  pub close_keeps : (t p : Bytes) (s : S) → content (os.close_temp t s).0 p ≡ content s p
  pub remove_spares : (t p : Bytes) (s : S) → t ≢ p → content (os.remove t s).0 p ≡ content s p
  pub rename_fails :
      (a b p : Bytes) (s : S) (e : Failure)
      → (os.rename a b s).1 ≡ inl e
      → content (os.rename a b s).0 p ≡ content s p
  pub renamed :
      (a b : Bytes) (s : S)
      → (os.rename a b s).1 ≡ inr tt
      → content (os.rename a b s).0 b ≡ content s a

-- What becomes of a file that was to hold `new`: an error leaves it as it was.
abbrev pub Replaced : Option Bytes → Option Bytes → Bytes → Failure ⊎ Option Data → Type 0
Replaced before after new (inl e) = after ≡ before
Replaced before after new (inr d) = after ≡ some new

module _ {S : Type 0} (os : Os S) (codec : ArgsCodec) (files : Files os) where
  filled-Replaced :
      (path bytes tmp : Bytes) (mode : ℕ) (before : Option Bytes) (s : S)
      → tmp ≢ path
      → files.content s path ≡ before
      → files.content s tmp ≡ some []
      → let (t, r) = or_clean_up os codec tmp (fill_and_rename os codec path bytes mode tmp) s in
        Replaced before (files.content t path) bytes r
  unfolding fill_and_rename
  filled-Replaced path bytes tmp mode before s differs kept empty =
      let s2 = (os.write_temp tmp bytes s).0 in
      let s3 = (os.chmod_temp tmp (perm mode) s2).0 in
      let s4 = (os.close_temp tmp s3).0 in
      let kept2 = files.write_spares tmp bytes path s differs ∙ kept in
      let kept3 = files.chmod_keeps tmp path (perm mode) s2 ∙ kept2 in
      let kept4 = files.close_keeps tmp path s3 ∙ kept3 in
      elim (Sum-cases (os.write_temp tmp bytes s).1) [
        | inl (e, failed) ↦
            rw failed
              (files.remove_spares tmp path _ differs ∙ files.close_keeps tmp path s2 ∙ kept2)
        | inr (_, wrote) ↦ elim (Sum-cases (os.chmod_temp tmp (perm mode) s2).1) [
          | inl (e, failed) ↦
              rw (wrote, failed)
                (files.remove_spares tmp path _ differs ∙ files.close_keeps tmp path s3 ∙ kept3)
          | inr (_, moded) ↦ elim (Sum-cases (os.close_temp tmp s3).1) [
            | inl (e, failed) ↦
                rw (wrote, moded, failed) (files.remove_spares tmp path _ differs ∙ kept4)
            | inr (_, shut) ↦ elim (Sum-cases (os.rename tmp path s4).1) [
              | inl (e, failed) ↦
                  rw (wrote, moded, shut, failed)
                    (files.remove_spares tmp path _ differs
                      ∙ files.rename_fails tmp path path s4 e failed
                      ∙ kept4)
              | inr (_, moved) ↦
                  rw (wrote, moded, shut, moved)
                    (files.renamed tmp path s4 moved
                      ∙ files.close_keeps tmp tmp s3
                      ∙ files.chmod_keeps tmp tmp (perm mode) s2
                      ∙ files.written tmp bytes s empty wrote)
            ]
          ]
        ]
      ]

  -- A file that `write` is asked to replace holds the new bytes if the handler succeeds, and what it
  -- held before if the handler fails, at whatever call. The arguments are well formed.
  pub handle_write-Replaced :
      (raw path bytes : Bytes) (mode : ℕ) (s : S)
      → unmarshal_args codec.write_args raw ≡ inr (path, bytes, mode)
      → let (t, r) = handle_write os codec raw s in
        Replaced (files.content s path) (files.content t path) bytes r
  unfolding handle_write
  handle_write-Replaced raw path bytes mode s args =
      let dir = dir_of path in
      let base = base_of path ++ codes ".tmp.*" in
      let kept = files.create_spares dir base path s (files.temp_differs path s) in
      elim (Sum-cases (os.create_temp dir base s).1) [
        | inl (e, failed) ↦ rw (args, failed) kept
        | inr (tmp, made) ↦
            rw (args, made)
              (filled-Replaced path bytes tmp mode (files.content s path)
                (os.create_temp dir base s).0
                (λ same. files.temp_differs path s (made ∙ ap inr same)) kept
                (files.created_empty dir base tmp s made))
      ]
