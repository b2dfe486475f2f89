-- ===== src/Tests/Websocket.antt =====
-- The WebSocket channel at short runs.
use ptyrelay.Base.{
  ℕ, zero, suc, Bool, true, false, codes, pos, ◌<◌, List, [], ◌∷◌, ◌++◌, none, some, ◌≡◌, refl,
  arith, ◌≤◌, inl,
}
use ptyrelay.Channel.Websocket.{
  Options, Socket, new_socket, binary_message, redialing, message, lost, dialed, pump_at, read, got,
}
use ptyrelay.Channel.Websocket.History.{Action, arrives, reads, no_history, run, run-in_order}
use ptyrelay.Channel.Websocket.Budget.{Within, run-Within}
use ptyrelay.Channel.Websocket.Discontinuity.{replaced, read-unmarked}
use ptyrelay.Channel.Websocket.Dial.{Attempt, connected, transient, is_retryable, dial_with_retry}
use ptyrelay.Channel.Websocket.Dial.Decided.{verdict, waits, dial_with_retry-decided}

abbrev raw_options : Options
raw_options = record {
  encode = none;
  decode = none;
  encode_resize = none;
  reconnect = true;
  max_reconnects = pos 1;
}

abbrev steps : List Action
steps =
    arrives (message binary_message (codes "ab"))
    ∷ reads 1
    ∷ arrives (lost false)
    ∷ arrives (dialed (some 8))
    ∷ arrives (message binary_message (codes "cd"))
    ∷ reads 1
    ∷ arrives (lost true)
    ∷ []

-- The first byte of the new connection comes with no word of the change.
first_of_new : (run (new_socket raw_options 7) no_history steps).1.given ≡ codes "c"
unfolding run pump_at read
first_of_new = refl

run-in_order_example :
    let (c, h) = run (new_socket raw_options 7) no_history steps in h.given ++ c.buf ≡ h.taken
run-in_order_example = run-in_order raw_options 7 steps

run-Within_example :
    let (c, h) = run (new_socket raw_options 7) no_history steps in
    Within (pos 1) h.swaps × (h.reported ≤ h.swaps)
run-Within_example = run-Within raw_options 7 steps

abbrev dropped : Socket
dropped = record (new_socket raw_options 7) { pump = redialing false }

read-unmarked_example :
    let (d, r) = read (replaced dropped 8 binary_message (codes "cd")) 1 in
    (r ≡ got (codes "c")) × (d.pending_reconnect ≡ true)
read-unmarked_example =
    read-unmarked dropped false 8 1 binary_message (codes "cd") (codes "cd") refl refl refl
      (omega arith) (omega arith)

abbrev third : ℕ → Attempt
third (suc (suc n)) = connected n
third _ = transient (codes "refused")

abbrev never : ℕ → Bool
never n = false

failed_twice : (j : ℕ) → j < 2 → (is_retryable (third j) ≡ true) × (never j ≡ false)
failed_twice zero h = (refl, refl)
failed_twice (suc zero) h = (refl, refl)
failed_twice (suc (suc j)) h = absurd (omega arith)

dial_with_retry-decided_example :
    dial_with_retry third never 200 (pos 5) ≡ (verdict (third 2), waits 200 2)
dial_with_retry-decided_example =
    dial_with_retry-decided third never 200 5 2 failed_twice (inl refl) (omega arith)
