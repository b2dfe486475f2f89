-- ===== src/Channel/Websocket/Dial/Decided.antt =====
-- The outcome of the retries, told from the attempts.
use native.Mathlib.Nat.{zero-add, mul-one, mul_left_comm, pow-succ'}
use ptyrelay.Base.{
  ℕ, zero, suc, ◌+◌, ◌*◌, ◌^◌, ◌%◌, ◌<◌, ◌≤◌, Bool, true, false, pos, List, [], ◌∷◌, ◌==◌, ◌≡◌,
  refl, sym, ap, ◌∙◌, arith, ◌⊎◌, inl, inr,
}
use ptyrelay.Channel.Websocket.Dial.{
  Attempt, connected, bad_handshake, transient, Dialed, opened, dial_error, is_retryable, wait_for,
  after_dial, dial_loop, dial_with_retry, then_wait,
}

-- What an attempt decides that is not followed by another.
abbrev pub verdict : Attempt → Dialed
verdict (connected conn) = opened conn
verdict (bad_handshake e) = dial_error e
verdict (transient e) = dial_error e

-- `k` waits from `wait` on: each is the double of the one before, in 64 bits.
abbrev pub waits : ℕ → ℕ → List ℕ
waits wait zero = []
waits wait (suc k) = wait ∷ waits ((2 * wait) % 2 ^ 64) k

wait_for-zero : (backoff : ℕ) → wait_for backoff 0 ≡ backoff % 2 ^ 64
wait_for-zero backoff = ap (λ n. n % 2 ^ 64) (mul-one backoff)

double_mod : (x : ℕ) → (2 * x) % 2 ^ 64 ≡ (2 * (x % 2 ^ 64)) % 2 ^ 64
double_mod x = omega arith

wait_for-suc : (backoff i : ℕ) → wait_for backoff (i + 1) ≡ (2 * wait_for backoff i) % 2 ^ 64
wait_for-suc backoff i =
    let next : i + 1 ≡ suc i = omega arith in
    let twice : backoff * 2 ^ (i + 1) ≡ 2 * (backoff * 2 ^ i) =
      ap (λ n. backoff * 2 ^ n) next
      ∙ ap (λ n. backoff * n) (pow-succ' 2 i)
      ∙ mul_left_comm backoff 2 (2 ^ i) in
    ap (λ n. n % 2 ^ 64) twice ∙ double_mod (backoff * 2 ^ i)

module _ (dial : ℕ → Attempt) (ends : ℕ → Bool) (backoff n : ℕ) where
  last_round :
      (a : Attempt) (i : ℕ) (again : Dialed × List ℕ)
      → (is_retryable a ≡ false) ⊎ (i ≡ n)
      → after_dial dial ends backoff (pos n) again i a ≡ (verdict a, [])
  last_round (connected conn) i again h = refl
  last_round (bad_handshake e) i again h = refl
  last_round (transient e) i again (inl h) = absurd (cc)
  last_round (transient e) i again (inr h) = let last : (i == n) ≡ true = ground arith in rw last

  next_round :
      (a : Attempt) (i : ℕ) (again : Dialed × List ℕ)
      → is_retryable a ≡ true
      → ends i ≡ false
      → i < n
      → after_dial dial ends backoff (pos n) again i a ≡ then_wait (wait_for backoff i) again
  next_round (connected conn) i again h g l = absurd (cc)
  next_round (bad_handshake e) i again h g l = absurd (cc)
  next_round (transient e) i again h g l =
      let more : (i == n) ≡ false = ground arith in rw (more, g)

  loop_decided :
      (k i left : ℕ)
      → ((j : ℕ) → j < k → (is_retryable (dial (i + j)) ≡ true) × (ends (i + j) ≡ false))
      → (is_retryable (dial (i + k)) ≡ false) ⊎ (i + k ≡ n)
      → i + k ≤ n
      → k < left
      → dial_loop dial ends backoff (pos n) left i
        ≡ (verdict (dial (i + k)), waits (wait_for backoff i) k)
  unfolding dial_loop
  loop_decided k i zero h last fits room = absurd (omega arith)
  loop_decided zero i (suc left) h last fits room =
      let here : i + 0 ≡ i = omega arith in rw here (last_round (dial i) i _ (rw here at last))
  loop_decided (suc k) i (suc left) h last fits room =
      let here : i + 0 ≡ i = omega arith in
      let step : i + suc k ≡ i + 1 + k = omega arith in
      let (again, goes) = h 0 (omega arith) in
      let rest =
        loop_decided k (i + 1) left
          (λ j l.
            let (a, g) = h (suc j) (omega arith) in
            let e : i + suc j ≡ i + 1 + j = omega arith in (rw e at a, rw e at g))
          (rw step at last) (omega arith) (omega arith) in
      next_round (dial i) i _ (rw here at again) (rw here at goes) (omega arith)
      ∙ ap (then_wait (wait_for backoff i)) rest
      ∙ rw (step, wait_for-suc backoff i)

-- The retries end with the first attempt that connects, that the server rejects, or that is the last allowed, and with
-- its connection or error, if the context does not end before; before it each failed
-- attempt was followed by one wait: the first is the backoff, each later one the double of the one before, in 64 bits.
pub dial_with_retry-decided :
    (dial : ℕ → Attempt) (ends : ℕ → Bool) (backoff n k : ℕ)
    → ((j : ℕ) → j < k → (is_retryable (dial j) ≡ true) × (ends j ≡ false))
    → (is_retryable (dial k) ≡ false) ⊎ (k ≡ n)
    → k ≤ n
    → dial_with_retry dial ends backoff (pos n) ≡ (verdict (dial k), waits (backoff % 2 ^ 64) k)
dial_with_retry-decided dial ends backoff n k h last fits = rw (sym (wait_for-zero backoff)) (
    rw (zero-add k) at (
      loop_decided dial ends backoff n k 0 (suc n) (λ j l. rw (zero-add j) (h j l))
        (rw (zero-add k) last) (omega arith) (omega arith)))
