-- ===== src/Base/Step.antt =====
-- Computations over a state that may fail, in `do`-like chains.
use mathlib.Core.Path.{◌≡◌, refl, sym, ap}
use mathlib.Core.Bool.{Bool, true, false}
use mathlib.Core.Logic.{◌⊎◌, inl, inr}

-- The state is kept when a computation fails.
abbrev pub Step : Type 0 → Type 0 → Type 0 → Type 0
Step S E A = S → S × (E ⊎ A)

-- What follows a result; an error ends the computation.
abbrev pub and_then : {S E A B : Type 0} → (A → Step S E B) → S → E ⊎ A → S × (E ⊎ B)
and_then f s (inl e) = (s, inl e)
and_then f s (inr a) = f a s

infixl 5 ◌>>=◌ ◌>>◌
abbrev pub ◌>>=◌ : {S E A B : Type 0} → Step S E A → (A → Step S E B) → Step S E B
◌>>=◌ m f s = let (t, r) = m s in and_then f t r

abbrev pub ◌>>◌ : {S E A B : Type 0} → Step S E A → Step S E B → Step S E B
m >> k = m >>= λ _. k

abbrev pub return : {S E A : Type 0} → A → Step S E A
return a s = (s, inr a)

abbrev pub throw : {S E A : Type 0} → E → Step S E A
throw e s = (s, inl e)

abbrev pub lift : {S E A : Type 0} → E ⊎ A → Step S E A
lift r s = (s, r)

-- A chain that succeeds has a first part that does.
pub bind-inr :
    {S E A B : Type 0} (m : Step S E A) (f : A → Step S E B) (s t : S) (b : B)
    → (m >>= f) s ≡ (t, inr b)
    → (u : S) × (a : A) × (m s ≡ (u, inr a)) × (f a u ≡ (t, inr b))
bind-inr m f s t b h =
    let (u, r) = m s in
    elim r
        as (λ r.
          and_then f u r ≡ (t, inr b)
          → r ≡ (m s).1
          → (u : _) × (a : _) × (m s ≡ (u, inr a)) × (f a u ≡ (t, inr b))) [
            | inl e ↦ λ k. λ q. absurd (let no : inl e ≡ inr b = ap (λ p. p.1) k in cc)
            | inr a ↦ λ k. λ q. ((m s).0, a, ap (λ r. ((m s).0, r)) (sym q), k)
          ]
      h refl

-- Whether a computation has succeeded.
abbrev pub succeeded : {S E A : Type 0} → S × (E ⊎ A) → Bool
succeeded (s, inl e) = false
succeeded (s, inr a) = true

pub throw_lem :
    {S E A : Type 0} (s t : S) (e : E) (a : A) → throw {A = A} e s ≡ return {E = E} a t → ⊥
throw_lem s t e a h = absurd (let no : false ≡ true = ap succeeded h in cc)
