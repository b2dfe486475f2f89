-- ===== src/Channel/Tmux/Typed.antt =====
-- What `Write` of pkg/channel/tmux/tmux.go types into a pane.
use native.Mathlib.Nat.{add_comm, suc-mul}
use ptyrelay.Base.{
  ℕ, zero, suc, ◌+◌, ◌*◌, ◌==◌, false, drop-drop, ◌≤◌, ◌<◌, Bool, Bytes, List, [], ◌∷◌, ◌++◌,
  Option, none, some, ◌⊎◌, inl, inr, length, take, drop, codes, ℤ, pos, negsuc, ◌≡◌, refl, sym, ap,
  ◌∙◌, arith, append_assoc, append-nil, take-append-drop, length-append, length-drop, Option-cases,
  Bool-cases,
}
use ptyrelay.Base.Step.{bind-inr, throw_lem}
use ptyrelay.Bytes.Split.{is_empty}
use ptyrelay.Channel.Tmux.{
  Pane, Options, Host, TmuxError, chunk_of, socket_args, find_log, pipe_to_log, pane_of, attach,
  open_pane, run_tmux, pane_required, open_log, send_chunks, send_keys, channel_closed, write, new,
}

pub chunk_of_positive : (n : ℤ) → 0 < chunk_of n
chunk_of_positive (pos zero) = omega arith
chunk_of_positive (pos (suc n)) = omega arith
chunk_of_positive (negsuc n) = omega arith

-- The arguments behind those of the socket.
abbrev pub typing : Pane → Bytes → List Bytes
typing c b = codes "send-keys" ∷ codes "-l" ∷ codes "-t" ∷ c.pane ∷ codes "--" ∷ b ∷ []

-- The last byte is `;`, which tmux takes for the end of a command, even behind `-l`.
abbrev pub last_is_separator : ℕ → Bytes → Bool
last_is_separator c [] = c == b';'
last_is_separator c (x ∷ b) = last_is_separator x b

abbrev pub ends_in_separator : Bytes → Bool
ends_in_separator b = last_is_separator 0 b

-- No chunk of the payload ends in `;`.
abbrev pub Plain : ℕ → Bytes → Type 0
Plain size p =
    (k : ℕ) → k * size < length p → ends_in_separator (take size (drop (k * size) p)) ≡ false

-- `send-keys -l` types an argument that does not end in `;` into the pane, or fails and types nothing.
abbrev pub TypesLiterally : {S : Type 0} → Host S → Pane → (S → Bytes) → Type 0
TypesLiterally {S} host c typed =
    (b : Bytes) (s : S)
    → ends_in_separator b ≡ false
    → let (t, out, e) = host.exec (c.tmux_args ++ typing c b) s in
      typed t ≡ elim e [ none ↦ typed s ++ b | some _ ↦ typed s ]

-- From `before` to `after`, a part of the payload was typed, whose length is reported; without an error
-- it is the whole.
pub record Sent (before after payload : Bytes) (written reported : ℕ) (e : Option TmuxError)
    : Type 0 where
  pub part : Bytes
  pub rest : Bytes
  pub spells : part ++ rest ≡ payload
  pub typed_part : after ≡ before ++ part
  pub counted : reported ≡ written + length part
  pub complete : e ≡ none → rest ≡ []

Sent-nil :
    (before payload : Bytes) (written : ℕ) (e : Option TmuxError)
    → (e ≡ none → payload ≡ [])
    → Sent before before payload written written e
Sent-nil before payload written e h = record {
  part = [];
  rest = payload;
  spells = refl;
  typed_part = sym (append-nil before);
  counted = omega arith;
  complete = h;
}

Sent-cons :
    (before between after chunk more payload : Bytes) (written reported : ℕ) (e : Option TmuxError)
    → between ≡ before ++ chunk
    → chunk ++ more ≡ payload
    → Sent between after more (written + length chunk) reported e
    → Sent before after payload written reported e
Sent-cons before between after chunk more payload written reported e h k later = record {
  part = chunk ++ later.part;
  rest = later.rest;
  spells = append_assoc chunk later.part later.rest ∙ ap (◌++◌ chunk) later.spells ∙ k;
  typed_part =
      later.typed_part
      ∙ ap (λ (x : Bytes). x ++ later.part) h
      ∙ append_assoc before chunk later.part;
  counted = omega (arith, later.counted, length-append chunk later.part);
  complete = later.complete;
}

Plain-first :
    (size x : ℕ) (rest : Bytes)
    → Plain size (x ∷ rest)
    → ends_in_separator (take size (x ∷ rest)) ≡ false
Plain-first size x rest plain =
    let at_zero : 0 * size ≡ 0 = omega arith in
    ap (λ n. ends_in_separator (take size (drop n (x ∷ rest)))) (sym at_zero)
    ∙ plain 0 (omega arith)

Plain-later : (size : ℕ) (p : Bytes) → Plain size p → Plain size (drop size p)
Plain-later size p plain k inside =
    let next : size + k * size ≡ suc k * size = add_comm size (k * size) ∙ sym (suc-mul k size) in
    let more : size + k * size < length p = omega (arith, inside, length-drop size p) in
    ap (λ b. ends_in_separator (take size b))
      (sym (drop-drop size (k * size) p) ∙ ap (λ n. drop n p) next)
    ∙ plain (suc k) (rw next at more)

module _ {S : Type 0} (host : Host S) (c : Pane) (typed : S → Bytes)
    (types : TypesLiterally host c typed) where
  run_tmux-typed :
      (b : Bytes) (s : S)
      → ends_in_separator b ≡ false
      → let (t, e) = run_tmux host c.tmux_args (typing c b) s in
        typed t ≡ elim e [ none ↦ typed s ++ b | some _ ↦ typed s ]
  unfolding run_tmux
  run_tmux-typed b s plain =
      let h = types b s plain in
      elim (Option-cases (host.exec (c.tmux_args ++ typing c b) s).2) [
        | inl fine ↦ rw fine (rw fine at h)
        | inr (e, failed) ↦ rw failed (rw failed at h)
      ]

  send_chunks-Sent :
      (fuel written : ℕ) (rest : Bytes) (s : S)
      → 0 < c.chunk_size
      → length rest ≤ fuel
      → Plain c.chunk_size rest
      → let (t, n, e) = send_chunks host c fuel written rest s in
        Sent (typed s) (typed t) rest written n e
  unfolding send_chunks
  send_chunks-Sent zero written [] s positive enough plain =
      Sent-nil (typed s) [] written none (λ _. refl)
  send_chunks-Sent zero written (x ∷ rest) s positive enough plain = absurd (omega arith)
  send_chunks-Sent (suc fuel) written [] s positive enough plain =
      Sent-nil (typed s) [] written none (λ _. refl)
  send_chunks-Sent (suc fuel) written (x ∷ rest) s positive enough plain =
      let chunk = take c.chunk_size (x ∷ rest) in
      let more = drop c.chunk_size (x ∷ rest) in
      let t = (run_tmux host c.tmux_args (typing c chunk) s).0 in
      let typed_chunk = run_tmux-typed chunk s (Plain-first c.chunk_size x rest plain) in
      let later =
        send_chunks-Sent fuel (written + length chunk) more t positive
          (omega (arith, length-drop c.chunk_size (x ∷ rest)))
          (Plain-later c.chunk_size (x ∷ rest) plain) in
      let whole = take-append-drop c.chunk_size (x ∷ rest) in
      elim (Option-cases (run_tmux host c.tmux_args (typing c chunk) s).1) [
        | inl fine ↦
            rw (send_chunks, fine)
              (Sent-cons (typed s) (typed t) _ chunk more (x ∷ rest) written _ _
                (rw fine at typed_chunk) whole later)
        | inr (e, failed) ↦
            rw (send_chunks, failed, rw failed at typed_chunk)
              (Sent-nil (typed s) (x ∷ rest) written (some (send_keys e)) (λ no. absurd cc))
      ]

abbrev chunk_size_of : {S : Type 0} → S × (TmuxError ⊎ Pane) → ℕ
chunk_size_of (s, inl e) = 0
chunk_size_of (s, inr c) = c.chunk_size

open_pane-chunk :
    {S : Type 0} (host : Host S) (d c : Pane) (s t : S)
    → open_pane host d s ≡ (t, inr c)
    → c.chunk_size ≡ d.chunk_size
open_pane-chunk host d c s t h = elim (Option-cases (host.open_file d.log_path s).1) [
  | inl fine ↦ sym (ap chunk_size_of (rw fine at h))
  | inr (e, failed) ↦ elim (Bool-cases d.log_is_temp) [
    | inl temp ↦ absurd (throw_lem _ t (open_log e) c (rw temp at (rw failed at h)))
    | inr kept ↦ absurd (throw_lem _ t (open_log e) c (rw kept at (rw failed at h)))
  ]
]

attach-chunk :
    {S : Type 0} (host : Host S) (opts : Options) (args : List Bytes) (log : Bytes × Bool)
    (c : Pane) (s t : S)
    → attach host opts args log s ≡ (t, inr c)
    → c.chunk_size ≡ chunk_of opts.chunk_size
attach-chunk host opts args log c s t h =
    let (u, _, k, l) =
      bind-inr (pipe_to_log host opts args log.0) (λ _. open_pane host (pane_of host opts args log))
        s t c h in
    open_pane-chunk host (pane_of host opts args log) c u t l

new-chunk :
    {S : Type 0} (host : Host S) (opts : Options) (c : Pane) (s t : S)
    → new host opts s ≡ (t, inr c)
    → 0 < c.chunk_size
unfolding new
new-chunk host opts c s t h = elim (Bool-cases (is_empty opts.pane)) [
  | inl empty ↦ let k = rw empty at h in absurd (throw_lem s t pane_required c k)
  | inr some_pane ↦
      let args = socket_args opts.socket opts.socket_is_path in
      let (u, a, k, l) =
        bind-inr (find_log host opts args) (attach host opts args) s t c (rw some_pane at h) in
      rw (attach-chunk host opts args a c u t l) (chunk_of_positive opts.chunk_size)
]

-- A `Write` on a channel that `New` made types into the pane, in order, as many of the payload's bytes as it
-- reports, and the whole payload if it returns no error, however large that is; no chunk
-- of the payload ends in `;`, and tmux types an argument that does not end so literally, or fails and types nothing.
pub write-Sent :
    {S : Type 0} (host : Host S) (opts : Options) (c : Pane) (typed : S → Bytes) (s0 s1 : S)
    → new host opts s0 ≡ (s1, inr c)
    → TypesLiterally host c typed
    → (p : Bytes) (s : S) → Plain c.chunk_size p
    → let (t, n, e) = write host c p s in Sent (typed s) (typed t) p 0 n e
unfolding write
write-Sent host opts c typed s0 s1 made types p s plain = elim (Bool-cases c.closed) [
  | inl shut ↦ simp (write, shut) (Sent-nil (typed s) p 0 (some channel_closed) (λ no. absurd cc))
  | inr live ↦
      simp (write, live)
        (send_chunks-Sent host c typed types (length p) 0 p s (new-chunk host opts c s0 s1 made)
          (omega arith) plain)
]
