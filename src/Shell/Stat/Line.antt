-- ===== src/Shell/Stat/Line.antt =====
-- Which file names `List` of pkg/backend/shell/fs.go reads back.
use ptyrelay.Base.{
  ℕ, ◌%◌, Bool, true, false, Bytes, List, [], ◌∷◌, ◌++◌, Option, none, some, ◌==◌, inl, inr, ◌≡◌,
  refl, ap, ◌∙◌, arith, Lacks, All, append_assoc, ℤ,
}
use ptyrelay.Bytes.{join}
use ptyrelay.Bytes.Text.{atoi}
use ptyrelay.Bytes.Split.{split, parse_octal}
use ptyrelay.Shell.State.{malformed}
use ptyrelay.Shell.Stat.{with_type, parsed, parse_parts, parse_stat_line, list_line, list_parts}

abbrev bar : ℕ
bar = b'|'

split_last : (p : Bytes) → Lacks bar p → split p bar ≡ p ∷ []
unfolding split
split_last [] h = refl
split_last (c ∷ p) h =
    let other : (c == bar) ≡ false = ground (arith, h.0) in rw (other, split_last p h.1) refl

split-part : (p rest : Bytes) → Lacks bar p → split (p ++ bar ∷ rest) bar ≡ p ∷ split rest bar
unfolding split
split-part [] rest h = refl
split-part (c ∷ p) rest h =
    let other : (c == bar) ≡ false = ground (arith, h.0) in rw (other, split-part p rest h.1) refl

split-join :
    (p : Bytes) (ps : List Bytes)
    → Lacks bar p
    → All (Lacks bar) ps
    → split (join (p ∷ ps) (bar ∷ [])) bar ≡ p ∷ ps
unfolding join
split-join p [] h hs = split_last p h
split-join p (q ∷ ps) h hs =
    split-part p (join (q ∷ ps) (bar ∷ [])) h ∙ ap (◌∷◌ p) (split-join q ps hs.0 hs.1)

-- A bar in the first part is a cut there.
join_bar :
    (before behind : Bytes) (p : Bytes) (ps : List Bytes)
    → join ((before ++ bar ∷ behind) ∷ p ∷ ps) (bar ∷ [])
      ≡ join (before ∷ behind ∷ p ∷ ps) (bar ∷ [])
unfolding join
join_bar before behind p ps = append_assoc before (bar ∷ behind) (bar ∷ join (p ∷ ps) (bar ∷ []))

module _ (is_float : Bytes → Bool) (style : Bytes) where
  parse_stat_line-join :
      (size mtime mode text path : Bytes) (more : List Bytes)
      → All (Lacks bar) (size ∷ mtime ∷ mode ∷ text ∷ more)
      → let line = join (size ∷ mtime ∷ mode ∷ text ∷ more) (bar ∷ []) in
        parse_stat_line is_float style line path
        ≡ parsed is_float style line path (atoi size) (is_float mtime) (parse_octal mode) text
  unfolding parse_stat_line
  parse_stat_line-join size mtime mode text path more h =
      ap (parse_parts is_float style (join (size ∷ mtime ∷ mode ∷ text ∷ more) (bar ∷ [])) path)
        (split-join size (mtime ∷ mode ∷ text ∷ more) h.0 h.1)

  parsed_good :
      (line path text : Bytes) (z : Option ℤ) (f : Bool) (o : Option ℕ) (n : ℤ) (bits : ℕ)
      → z ≡ some n
      → f ≡ true
      → o ≡ some bits
      → parsed is_float style line path z f o text ≡ inr (with_type style path n (bits % 4096) text)
  parsed_good line path text z f o n bits hz hf ho = rw (hz, hf, ho) refl

  -- A file whose path has no bar is read back from its line, where the parts behind it have no bar and
  -- are well formed.
  pub list_line_plain :
      (path size mtime mode text : Bytes) (n : ℤ) (bits : ℕ)
      → All (Lacks bar) (path ∷ size ∷ mtime ∷ mode ∷ text ∷ [])
      → atoi size ≡ some n
      → is_float mtime ≡ true
      → parse_octal mode ≡ some bits
      → list_line is_float style (join (path ∷ size ∷ mtime ∷ mode ∷ text ∷ []) (bar ∷ []))
        ≡ inr (with_type style path n (bits % 4096) text)
  list_line_plain path size mtime mode text n bits h s m o =
      let line = join (path ∷ size ∷ mtime ∷ mode ∷ text ∷ []) (bar ∷ []) in
      ap (list_parts is_float style line)
        (split-join path (size ∷ mtime ∷ mode ∷ text ∷ []) h.0 h.1)
      ∙ parse_stat_line-join size mtime mode text path [] h.1
      ∙ parsed_good (join (size ∷ mtime ∷ mode ∷ text ∷ []) (bar ∷ [])) path text (atoi size)
          (is_float mtime) (parse_octal mode) n bits s m o

  -- A file whose name has one bar spoils the list: its line is refused, if what follows the bar is no
  -- number.
  pub list_line-bar :
      (before behind size mtime mode text : Bytes)
      → All (Lacks bar) (before ∷ behind ∷ size ∷ mtime ∷ mode ∷ text ∷ [])
      → atoi behind ≡ none
      → list_line is_float style
          (join ((before ++ bar ∷ behind) ∷ size ∷ mtime ∷ mode ∷ text ∷ []) (bar ∷ []))
        ≡ inl (malformed (join (behind ∷ size ∷ mtime ∷ mode ∷ text ∷ []) (bar ∷ [])))
  list_line-bar before behind size mtime mode text h bad =
      let line = join (before ∷ behind ∷ size ∷ mtime ∷ mode ∷ text ∷ []) (bar ∷ []) in
      let inner = join (behind ∷ size ∷ mtime ∷ mode ∷ text ∷ []) (bar ∷ []) in
      ap (list_line is_float style) (join_bar before behind size (mtime ∷ mode ∷ text ∷ []))
      ∙ ap (list_parts is_float style line)
          (split-join before (behind ∷ size ∷ mtime ∷ mode ∷ text ∷ []) h.0 h.1)
      ∙ parse_stat_line-join behind size mtime mode before (text ∷ []) h.1
      ∙ ap (λ z. parsed is_float style inner before z (is_float size) (parse_octal mtime) mode) bad
