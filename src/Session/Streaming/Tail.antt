-- ===== src/Session/Streaming/Tail.antt =====
-- The end of a streamed output: the wrapper's newline goes if it is still in the buffer.
use mathlib.Core.Path.{subst}
use ptyrelay.Base.{
  ℕ, suc, ◌-◌, Bytes, [], ◌∷◌, ◌++◌, ◌==◌, lt→ltb, get_or, length, length-append, ◌≡◌, refl, sym,
  ap, ◌∙◌, arith, inl, inr, ◌⊎◌, Bool-cases,
}
use ptyrelay.Session.Sentinel.{strip_newline}
use ptyrelay.Session.Sentinel.Frame.{strip_cr, strip_newline-printf}

-- What the reader gets of the output: all but one CR at its end, all of it, or one newline more.
abbrev pub Passed : Bytes → Bytes → Type 0
Passed body w = (w ≡ strip_cr body) ⊎ ((w ≡ body) ⊎ (w ≡ body ++ b'\n' ∷ []))

-- A text that ends with `c`, cut in two.
cut_last :
    (f r body : Bytes) (c : ℕ)
    → f ++ r ≡ body ++ c ∷ []
    → (r ≡ []) ⊎ ((s : Bytes) × (r ≡ s ++ c ∷ []) × (f ++ s ≡ body))
cut_last [] r body c h = inr (body, h, refl)
cut_last (x ∷ f) [] body c h = inl refl
cut_last (x ∷ f) (y ∷ r) [] c h = absurd (omega (arith, ap length h, length-append f (y ∷ r)))
cut_last (x ∷ f) (y ∷ r) (z ∷ body) c h = elim (cut_last f (y ∷ r) body c (cc)) [
  | inl none_left ↦ absurd (cc)
  | inr (s, e, g) ↦ inr (s, e, cc)
]

strip_cr-cons : (x y : ℕ) (s : Bytes) → strip_cr (x ∷ y ∷ s) ≡ x ∷ strip_cr (y ∷ s)
strip_cr-cons x y s =
    let two : length (x ∷ y ∷ s) - 1 ≡ suc (length s) = omega arith in
    let one : length (y ∷ s) - 1 ≡ length s = omega arith in
    rw
      (
        two,
        one,
        lt→ltb 0 (length (x ∷ y ∷ s)) (omega arith),
        lt→ltb 0 (length (y ∷ s)) (omega arith),
      )
      (elim (Bool-cases (get_or (y ∷ s) (length s) 0 == b'\r')) [ inl e ↦ rw e | inr e ↦ rw e ])

strip_cr-append : (f : Bytes) (y : ℕ) (s : Bytes) → strip_cr (f ++ y ∷ s) ≡ f ++ strip_cr (y ∷ s)
strip_cr-append [] y s = refl
strip_cr-append (x ∷ []) y s = strip_cr-cons x y s
strip_cr-append (x ∷ z ∷ f) y s =
    strip_cr-cons x z (f ++ y ∷ s) ∙ ap (◌∷◌ x) (strip_cr-append (z ∷ f) y s)

Passed-front : (f s : Bytes) → Passed (f ++ s) (f ++ strip_cr s)
Passed-front f [] = inr (inl refl)
Passed-front f (y ∷ s) = inl (sym (strip_cr-append f y s))

strip_newline-nil : strip_newline [] ≡ []
unfolding strip_newline
strip_newline-nil = refl

-- Where the output and the wrapper's newline were cut, and the second part was stripped.
pub cut-Passed :
    (body f r : Bytes) → f ++ r ≡ body ++ b'\n' ∷ [] → Passed body (f ++ strip_newline r)
cut-Passed body f r h = elim (cut_last f r body b'\n' h) [
  | inl e ↦ inr (
      inr
        (ap (λ (x : Bytes). f ++ strip_newline x) e ∙ ap (◌++◌ f) (strip_newline-nil ∙ sym e) ∙ h))
  | inr (s, e, g) ↦
      let cut : f ++ strip_cr s ≡ f ++ strip_newline r =
        ap (◌++◌ f) (sym (ap strip_newline e ∙ strip_newline-printf s)) in
      subst (Passed body) cut
        (subst (λ (x : Bytes). Passed x (f ++ strip_cr s)) g (Passed-front f s))
]
