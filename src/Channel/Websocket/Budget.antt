-- ===== src/Channel/Websocket/Budget.antt =====
-- How often the connection is replaced, and how often a reader is told so.
use ptyrelay.Base.{
  ℕ, zero, suc, ◌+◌, ◌≤◌, Bool, true, false, Bytes, ℤ, pos, negsuc, List, [], ◌∷◌, ltb, ◌==◌,
  Option, none, some, length, ◌≡◌, refl, ap, ◌∙◌, arith, inl, inr, Bool-cases,
}
use ptyrelay.Channel.Websocket.{
  Options, Socket, new_socket, PumpState, receiving, stopped, redialing, Arrival, message, lost,
  dialed, stop_ping, decoded, store_payload, lose_connection, attempt_reconnect,
  should_try_reconnect, pump_at, read, ReadError, read_end, close, may_reconnect, spend,
}
use ptyrelay.Channel.Websocket.History.{
  Action, arrives, reads, closes, History, no_history, take_payload, swap_unless, arrival_noted,
  read_noted, act, noted, run,
}

-- What is left of the budget after `s` reconnects: nothing is counted without a cap, and a cap below
-- 0 allows none.
abbrev Left : ℤ → ℤ → ℕ → Type 0
Left (pos zero) r s = Unit
Left (pos (suc k)) (pos r) s = s + r ≡ suc k
Left (pos (suc k)) (negsuc r) s = ⊥
Left (negsuc k) r s = (r ≡ negsuc k) × (s ≡ 0)

-- What the cap allows.
abbrev pub Within : ℤ → ℕ → Type 0
Within (pos zero) s = Unit
Within (pos (suc k)) s = s ≤ suc k
Within (negsuc k) s = s ≡ 0

Left-Within : (max r : ℤ) (s : ℕ) → Left max r s → Within max s
Left-Within (pos zero) r s h = tt
Left-Within (pos (suc k)) (pos r) s h = omega arith
Left-Within (pos (suc k)) (negsuc r) s h = absurd h
Left-Within (negsuc k) r s h = h.1

spend-Left :
    (max r : ℤ) (s : ℕ) → may_reconnect max r ≡ true → Left max r s → Left max (spend max r) (s + 1)
spend-Left (pos zero) r s e h = tt
spend-Left (pos (suc k)) (pos zero) s e h = absurd (cc)
spend-Left (pos (suc k)) (pos (suc r)) s e h = omega arith
spend-Left (pos (suc k)) (negsuc r) s e h = absurd h
spend-Left (negsuc k) r s e h = absurd (let f = rw h.0 at e in cc)

abbrev is_redialing : PumpState → Bool
is_redialing receiving = false
is_redialing stopped = false
is_redialing (redialing clean) = true

abbrev due : Bool → ℕ
due true = 1
due false = 0

record Budget (max : ℤ) (c : Socket) (h : History) : Type 0 where
  same_max : c.opts.max_reconnects ≡ max
  marked : h.reported + due c.pending_reconnect ≤ h.swaps
  allowed : is_redialing c.pump ≡ true → may_reconnect max c.reconnects_remaining ≡ true
  left : Left max c.reconnects_remaining h.swaps

-- The parts of a channel that the budget is about.
abbrev spent : Socket → ℤ × Bool × ℤ
spent c = (c.opts.max_reconnects, c.pending_reconnect, c.reconnects_remaining)

-- A step that spends nothing.
keep-Budget :
    (max : ℤ) (c d : Socket) (h : History)
    → spent d ≡ spent c
    → (is_redialing d.pump ≡ true → may_reconnect max c.reconnects_remaining ≡ true)
    → Budget max c h
    → Budget max d h
keep-Budget max c d h e on b =
    let max_kept = ap (λ (z : ℤ × Bool × ℤ). z.0) e in
    let pending_kept = ap (λ (z : ℤ × Bool × ℤ). z.1) e in
    let left_kept = ap (λ (z : ℤ × Bool × ℤ). z.2) e in
    record {
      same_max = max_kept ∙ b.same_max;
      marked = rw pending_kept b.marked;
      allowed = λ k. rw left_kept (on k);
      left = rw left_kept b.left;
    }

payload-Budget :
    (max : ℤ) (c : Socket) (h : History) (o : Option Bytes)
    → Budget max c h
    → Budget max (store_payload c o) (take_payload h o)
payload-Budget max c h none b = keep-Budget max c _ h refl (λ on. absurd (cc)) b
payload-Budget max c h (some x) b = record {
  same_max = b.same_max;
  marked = b.marked;
  allowed = b.allowed;
  left = b.left;
}

lose-spent : (c : Socket) (clean : Bool) → spent (lose_connection c clean) ≡ spent c
lose-spent c clean = ground arith

lose_redialing :
    (c : Socket) (clean : Bool)
    → is_redialing (lose_connection c clean).pump ≡ true
    → should_try_reconnect c ≡ true
lose_redialing c clean h = ground arith

failed-spent : (c : Socket) (clean : Bool) → spent (attempt_reconnect c clean none) ≡ spent c
failed-spent c clean = ground arith

failed_redialing :
    (c : Socket) (clean : Bool) → is_redialing (attempt_reconnect c clean none).pump ≡ false
failed_redialing c clean = ground arith

connected-Budget :
    (max : ℤ) (c : Socket) (h : History) (clean : Bool) (conn : ℕ)
    → may_reconnect max c.reconnects_remaining ≡ true
    → Budget max c h
    → Budget max (attempt_reconnect c clean (some conn)) (swap_unless h c.closed)
connected-Budget max c h clean conn on b = elim (Bool-cases c.closed) [
  | inl shut ↦ simp shut (keep-Budget max c _ h refl (λ k. absurd (cc)) b)
  | inr still ↦ simp still (record {
    same_max = b.same_max;
    marked = let m = b.marked in omega arith;
    allowed = λ k. absurd (cc);
    left = rw b.same_max (spend-Left max c.reconnects_remaining h.swaps on b.left);
  })
]

arrival-Budget :
    (max : ℤ) (st : PumpState) (c : Socket) (h : History) (a : Arrival)
    → c.pump ≡ st
    → Budget max c h
    → Budget max (pump_at st c a) (arrival_noted st c a h)
unfolding pump_at
arrival-Budget max receiving c h (message mt body) e b =
    payload-Budget max c h (decoded c.opts.decode mt body) b
arrival-Budget max receiving c h (lost clean) e b =
    keep-Budget max c _ h (lose-spent c clean) (λ k. rw b.same_max at (lose_redialing c clean k)) b
arrival-Budget max receiving c h (dialed o) e b = b
arrival-Budget max receiving c h stop_ping e b = b
arrival-Budget max (redialing clean) c h (message mt body) e b = b
arrival-Budget max (redialing clean) c h (lost x) e b = b
arrival-Budget max (redialing clean) c h (dialed none) e b =
    keep-Budget max c _ h (failed-spent c clean) (λ k. absurd (cc (failed_redialing c clean))) b
arrival-Budget max (redialing clean) c h (dialed (some conn)) e b =
    connected-Budget max c h clean conn (b.allowed (ap is_redialing e)) b
arrival-Budget max (redialing clean) c h stop_ping e b = elim (Bool-cases c.closed) [
  | inl shut ↦ simp shut (keep-Budget max c _ h refl (λ k. absurd (cc)) b)
  | inr still ↦ simp still b
]
arrival-Budget max stopped c h (message mt body) e b = b
arrival-Budget max stopped c h (lost x) e b = b
arrival-Budget max stopped c h (dialed o) e b = b
arrival-Budget max stopped c h stop_ping e b = b

read_end-Budget :
    (max : ℤ) (c : Socket) (h : History) (shut : Bool) (e : Option ReadError)
    → Budget max c h
    → Budget max c (read_noted (read_end shut e) h)
read_end-Budget max c h true e b = b
read_end-Budget max c h false none b = b
read_end-Budget max c h false (some e) b = b

read-Budget :
    (max : ℤ) (c : Socket) (h : History) (n : ℕ)
    → Budget max c h
    → Budget max (read c n).0 (read_noted (read c n).1 h)
unfolding read
read-Budget max c h n b = elim (Bool-cases (n == 0)) [
  | inl empty ↦
      rw empty
        (record { same_max = b.same_max; marked = b.marked; allowed = b.allowed; left = b.left })
  | inr some_room ↦ elim (Bool-cases (ltb 0 (length c.buf))) [
    | inl full ↦
        rw (some_room, full)
          (record { same_max = b.same_max; marked = b.marked; allowed = b.allowed; left = b.left })
    | inr bare ↦ elim (Bool-cases c.pending_reconnect) [
      | inl owed ↦
          simp (some_room, bare, owed)
            (record {
              same_max = b.same_max;
              marked = let m = simp owed at b.marked in omega arith;
              allowed = b.allowed;
              left = b.left;
            })
      | inr quiet ↦ simp (some_room, bare, quiet) (read_end-Budget max c h c.closed c.read_err b)
    ]
  ]
]

close-Budget : (max : ℤ) (c : Socket) (h : History) → Budget max c h → Budget max (close c).0 h
unfolding close
close-Budget max c h b = elim (Bool-cases c.closed) [
  | inl shut ↦ simp shut b
  | inr still ↦
      simp still
        (record { same_max = b.same_max; marked = b.marked; allowed = b.allowed; left = b.left })
]

act-Budget :
    (max : ℤ) (c : Socket) (h : History) (a : Action)
    → Budget max c h
    → Budget max (act c a) (noted c a h)
act-Budget max c h (arrives a) b = arrival-Budget max c.pump c h a refl b
act-Budget max c h (reads n) b = read-Budget max c h n b
act-Budget max c h closes b = close-Budget max c h b

run-Budget :
    (max : ℤ) (c : Socket) (h : History) (steps : List Action)
    → Budget max c h
    → Budget max (run c h steps).0 (run c h steps).1
unfolding run
run-Budget max c h [] b = b
run-Budget max c h (a ∷ steps) b =
    run-Budget max (act c a) (noted c a h) steps (act-Budget max c h a b)

start-Left : (max : ℤ) → Left max max 0
start-Left (pos zero) = tt
start-Left (pos (suc k)) = omega arith
start-Left (negsuc k) = (refl, refl)

-- Whatever happens to a channel, and in whatever order: a positive cap bounds how often the connection
-- is replaced, a cap below 0 allows no replacement, and a reader is told of a discontinuity at most as
-- often as the connection was replaced.
pub run-Within :
    (opts : Options) (conn : ℕ) (steps : List Action)
    → let (c, h) = run (new_socket opts conn) no_history steps in
      Within opts.max_reconnects h.swaps × (h.reported ≤ h.swaps)
run-Within opts conn steps =
    let max = opts.max_reconnects in
    let c = new_socket opts conn in
    let b = run-Budget max c no_history steps (record {
      same_max = refl;
      marked = omega arith;
      allowed = λ k. absurd (cc);
      left = start-Left max;
    }) in
    let m = b.marked in (Left-Within max _ _ b.left, omega arith)
