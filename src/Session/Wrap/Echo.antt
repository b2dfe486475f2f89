-- ===== src/Session/Wrap/Echo.antt =====
-- The command line that the terminal echoes holds neither marker, so that only the shell's own
-- `printf` produces one.
use ptyrelay.Base.{
  ℕ, suc, ◌-◌, ◌<◌, Bool, true, false, Bytes, [], ◌∷◌, ◌++◌, ◌==◌, ltb, append_assoc, if◌then◌else◌,
  none, some, length, take, get_or, codes, ◌≡◌, refl, sym, ap, ◌∙◌, arith, inl, inr, Option-cases,
  Bool-cases, length-append, ==_iff, ltb→lt, All-append,
}
use mathlib.Core.Path.{subst}
use ptyrelay.Bytes.{contains, index, has_prefix}
use ptyrelay.Bytes.Index.{index-sep, index-append, index_short, contains-index}
use ptyrelay.Session.Sentinel.{beg_marker_of, end_marker_of}
use ptyrelay.Session.Wrap.{stdin_delimiter, opening, closing, here_doc, wrap_command}
use ptyrelay.Session.Wrap.Words.{
  Absent, is_word, IsWord, Lacks-IsWord, short_runs, short_runs-word, short_runs-sep, ends_split,
}

-- What is sent when there is input, and when there is none.
with_input : Bytes → Bytes → Bytes → Bytes
with_input cmd stdin nonce =
    opening nonce (cmd ++ (codes "\n}" ++ here_doc nonce stdin (closing ++ b'\n' ∷ [])))

without_input : Bytes → Bytes → Bytes → Bytes
without_input cmd stdin nonce =
    opening nonce (cmd ++ (codes "\n}" ++ (codes "; " ++ (closing ++ b'\n' ∷ []))))

wrap_command-input :
    (cmd stdin nonce w : Bytes)
    → ltb 0 (length stdin) ≡ true
    → wrap_command cmd stdin nonce ≡ some w
    → w ≡ with_input cmd stdin nonce
unfolding wrap_command with_input
wrap_command-input cmd stdin nonce w h = rw h (go (contains stdin (stdin_delimiter nonce)))
  where
    go :
        (b : Bool)
        → (if b then none else some (with_input cmd stdin nonce)) ≡ some w
        → w ≡ with_input cmd stdin nonce
    go true e = cc
    go false e = cc

wrap_command-no_input :
    (cmd stdin nonce w : Bytes)
    → ltb 0 (length stdin) ≡ false
    → wrap_command cmd stdin nonce ≡ some w
    → w ≡ without_input cmd stdin nonce
unfolding wrap_command without_input
wrap_command-no_input cmd stdin nonce w h = rw h (λ e. cc)

module _ (m : Bytes) (word : IsWord m) (long : 10 < length m) where
  -- A byte that is no word byte may stand between two texts where the marker does not occur.
  Absent-sep :
      (b r : Bytes) (c : ℕ) → is_word c ≡ false → Absent m b → Absent m r → Absent m (b ++ c ∷ r)
  Absent-sep b r c sep h k = rw (index-sep b r m c (Lacks-IsWord m c sep word) (omega arith) h, k)

  Absent-prefix : (b r : Bytes) → Absent m (b ++ r) → Absent m b
  Absent-prefix b r h = elim (Option-cases (index b m)) [
    | inl e ↦ e
    | inr (i, e) ↦ absurd (cc (index-append b r m i e))
  ]

  -- A fixed text in front, read with the word bytes `p` before it.
  Absent-short_runs :
      (t p r : Bytes) → short_runs (length p) t ≡ true → Absent m r → Absent m (p ++ (t ++ r))
  unfolding short_runs
  Absent-short_runs [] p r h k = cc
  Absent-short_runs (c ∷ []) p r h k =
      Absent-sep p r c (ground arith) (index_short p m (ground arith)) k
  Absent-short_runs (c ∷ d ∷ t) p r h k = elim (Bool-cases (is_word c)) [
    | inl w ↦
        let more : length (p ++ c ∷ []) ≡ suc (length p) =
          omega (arith, length-append p (c ∷ [])) in
        rw (append_assoc p (c ∷ []) (d ∷ (t ++ r))) at (
          Absent-short_runs (d ∷ t) (p ++ c ∷ []) r (rw more (short_runs-word (length p) c d t w h))
            k)
    | inr sep ↦
        let (short, rest) = short_runs-sep (length p) c d t sep h in
        Absent-sep p (d ∷ (t ++ r)) c sep (index_short p m (omega arith))
          (Absent-short_runs (d ∷ t) [] r rest k)
  ]

  Absent-text : (t r : Bytes) → short_runs 0 t ≡ true → Absent m r → Absent m (t ++ r)
  Absent-text t r h k = Absent-short_runs t [] r h k

  module _ (nonce : Bytes) (fits : length nonce < length m)
      (no_delimiter : Absent m (stdin_delimiter nonce)) where
    Absent-closing : Absent m (closing ++ b'\n' ∷ [])
    Absent-closing =
        Absent-text (closing ++ b'\n' ∷ []) [] (unfold short_runs is_word in refl)
          (index_short [] m (omega arith))

    Absent-lines :
        (stdin : Bytes) (ends : Bool)
        → 0 < length stdin
        → (get_or stdin (length stdin - 1) 0 == b'\n') ≡ ends
        → Absent m stdin
        → Absent m (
            stdin
            ++ ((if ends then [] else b'\n' ∷ [])
                ++ (stdin_delimiter nonce ++ b'\n' ∷ (closing ++ b'\n' ∷ []))))
    Absent-lines stdin false some_input e h = Absent-sep stdin _ b'\n' (unfold is_word in refl) h (
        Absent-sep (stdin_delimiter nonce) _ b'\n' (unfold is_word in refl) no_delimiter
          Absent-closing)
    Absent-lines stdin true some_input e h =
        let init = take (length stdin - 1) stdin in
        let split =
          ends_split stdin b'\n' 0 (length stdin - 1) (omega arith) ((==_iff _ b'\n').0 e) in
        let tail = stdin_delimiter nonce ++ b'\n' ∷ (closing ++ b'\n' ∷ []) in
        let absent_tail =
          Absent-sep (stdin_delimiter nonce) _ b'\n' (unfold is_word in refl) no_delimiter
            Absent-closing in
        subst (Absent m)
          (sym (ap (λ (x : Bytes). x ++ tail) split ∙ append_assoc init (b'\n' ∷ []) tail))
          (Absent-sep init tail b'\n' (unfold is_word in refl)
            (Absent-prefix init (b'\n' ∷ []) (subst (Absent m) split h)) absent_tail)

    Absent-here_doc :
        (stdin : Bytes)
        → 0 < length stdin
        → Absent m stdin
        → Absent m (here_doc nonce stdin (closing ++ b'\n' ∷ []))
    Absent-here_doc stdin some_input h =
        Absent-text (codes " <<'") _ (unfold short_runs is_word in refl) (
          Absent-sep (stdin_delimiter nonce) _ b'\'' (unfold is_word in refl) no_delimiter (
            Absent-text (codes "\n") _ (unfold short_runs is_word in refl)
              (Absent-lines stdin _ some_input refl h)))

    Absent-opening : (r : Bytes) → Absent m r → Absent m (opening nonce r)
    Absent-opening r h = Absent-text (codes "__PR_N=") _ (unfold short_runs is_word in refl) (
        Absent-sep nonce _ b';' (unfold is_word in refl) (index_short nonce m fits) (
          Absent-text (codes " printf '\\n__PR_BEG_'$__PR_N'__\\n'; { ") _
            (unfold short_runs is_word in refl) h))

    Absent-wrap_command :
        (cmd stdin w : Bytes)
        → wrap_command cmd stdin nonce ≡ some w
        → Absent m cmd
        → Absent m stdin
        → Absent m w
    unfolding with_input without_input
    Absent-wrap_command cmd stdin w e h k = elim (Bool-cases (ltb 0 (length stdin))) [
      | inl input ↦ rw (wrap_command-input cmd stdin nonce w input e) (
          Absent-opening _ (
            Absent-sep cmd _ b'\n' (unfold is_word in refl) h (
              Absent-text (codes "}") _ (unfold short_runs is_word in refl)
                (Absent-here_doc stdin (ltb→lt 0 (length stdin) input) k))))
      | inr none_given ↦ rw (wrap_command-no_input cmd stdin nonce w none_given e) (
          Absent-opening _ (
            Absent-sep cmd _ b'\n' (unfold is_word in refl) h
              (Absent-text (codes "}; ") _ (unfold short_runs is_word in refl) Absent-closing)))
    ]

Absent-skip : (m b : Bytes) (x : ℕ) → has_prefix m (x ∷ b) ≡ false → Absent m b → Absent m (x ∷ b)
Absent-skip m b x e h = unfold index in rw (e, h)

delimiter_beg : (nonce : Bytes) → Absent (beg_marker_of nonce) (stdin_delimiter nonce)
delimiter_beg nonce =
    let m = beg_marker_of nonce in
    Absent-skip m _ b'_' (unfold has_prefix in refl) (
      Absent-skip m _ b'_' (unfold has_prefix in refl) (
        Absent-skip m _ b'P' (unfold has_prefix in refl) (
          index_short (codes "R_STDIN_" ++ (nonce ++ codes "__")) m
            (omega (arith, length-append nonce (codes "__"))))))

delimiter_end : (nonce : Bytes) → Absent (end_marker_of nonce) (stdin_delimiter nonce)
delimiter_end nonce =
    let m = end_marker_of nonce in
    Absent-skip m _ b'_' (unfold has_prefix in refl) (
      Absent-skip m _ b'_' (unfold has_prefix in refl) (
        index_short (codes "PR_STDIN_" ++ (nonce ++ codes "__")) m
          (omega (arith, length-append nonce (codes "__"), length-append nonce (codes "__:")))))

IsWord-around :
    (head nonce tail : Bytes)
    → IsWord head
    → IsWord nonce
    → IsWord tail
    → IsWord (head ++ (nonce ++ tail))
IsWord-around head nonce tail h n t =
    All-append (λ (c : ℕ). is_word c ≡ true) head (nonce ++ tail) h
      (All-append (λ (c : ℕ). is_word c ≡ true) nonce tail n t)

IsWord-beg_marker : (nonce : Bytes) → IsWord nonce → IsWord (beg_marker_of nonce)
unfolding is_word
IsWord-beg_marker nonce h = IsWord-around (codes "__PR_BEG_") nonce (codes "__") (search) h (search)

IsWord-end_marker : (nonce : Bytes) → IsWord nonce → IsWord (end_marker_of nonce)
unfolding is_word
IsWord-end_marker nonce h =
    IsWord-around (codes "__PR_END_") nonce (codes "__:") (search) h (search)

index-contains : (b m : Bytes) → index b m ≡ none → contains b m ≡ false
unfolding contains
index-contains b m h = rw (h, contains)

-- What is sent to the shell, and so what the terminal may echo, holds neither the BEG nor the END
-- marker, if the command and its input hold neither. The nonce is made of letters and digits.
pub wrap_command-echo :
    (cmd stdin nonce w : Bytes)
    → IsWord nonce
    → wrap_command cmd stdin nonce ≡ some w
    → (contains cmd (beg_marker_of nonce) ≡ false) × (contains cmd (end_marker_of nonce) ≡ false)
    → (contains stdin (beg_marker_of nonce) ≡ false)
      × (contains stdin (end_marker_of nonce) ≡ false)
    → (contains w (beg_marker_of nonce) ≡ false) × (contains w (end_marker_of nonce) ≡ false)
wrap_command-echo cmd stdin nonce w word e c s =
    let beg = beg_marker_of nonce in
    let end = end_marker_of nonce in
    let n = length-append nonce (codes "__") in
    let k = length-append nonce (codes "__:") in
    (
      index-contains w beg (
          Absent-wrap_command beg (IsWord-beg_marker nonce word) (omega (arith, n)) nonce
            (omega (arith, n)) (delimiter_beg nonce) cmd stdin w e (contains-index cmd beg c.0)
            (contains-index stdin beg s.0)),
      index-contains w end (
          Absent-wrap_command end (IsWord-end_marker nonce word) (omega (arith, k)) nonce
            (omega (arith, k)) (delimiter_end nonce) cmd stdin w e (contains-index cmd end c.1)
            (contains-index stdin end s.1)),
    )
