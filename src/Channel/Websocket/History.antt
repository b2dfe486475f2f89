-- ===== src/Channel/Websocket/History.antt =====
-- What happened to a channel: the bytes and the discontinuities, counted by an observer.
use ptyrelay.Base.{
  ℕ, ◌+◌, Bool, true, false, Bytes, List, [], ◌∷◌, ◌++◌, ltb, ◌==◌, Option, none, some, take, drop,
  length, ◌≡◌, refl, sym, ap, ◌∙◌, arith, inl, inr, Bool-cases, append_assoc, append-nil,
  take-append-drop,
}
use ptyrelay.Channel.Websocket.{
  Options, Socket, new_socket, PumpState, receiving, stopped, redialing, Arrival, message, lost,
  dialed, stop_ping, decoded, store_payload, lose_connection, attempt_reconnect, pump_at, pump_step,
  read, ReadResult, got, reconnected, close, read_end, ReadError,
}

-- What is done to the channel.
pub data Action : Type 0 where
  arrives : Arrival → Action
  reads : ℕ → Action
  closes : Action

-- The bytes that the present connection brought and that were read of them, how often the connection was
-- replaced, and how often a reader was told so.
pub record History : Type 0 where
  pub taken : Bytes
  pub given : Bytes
  pub swaps : ℕ
  pub reported : ℕ

abbrev pub no_history : History
no_history = record { taken = []; given = []; swaps = 0; reported = 0 }

abbrev pub take_payload : History → Option Bytes → History
take_payload h none = h
take_payload h (some payload) = record h { taken = h.taken ++ payload }

abbrev pub swap_unless : History → Bool → History
swap_unless h true = h
swap_unless h false = record h { taken = []; given = []; swaps = h.swaps + 1 }

abbrev pub arrival_noted : PumpState → Socket → Arrival → History → History
arrival_noted receiving c (message mt body) h = take_payload h (decoded c.opts.decode mt body)
arrival_noted (redialing clean) c (dialed (some conn)) h = swap_unless h c.closed
arrival_noted _ c _ h = h

abbrev pub read_noted : ReadResult → History → History
read_noted (got b) h = record h { given = h.given ++ b }
read_noted reconnected h = record h { reported = h.reported + 1 }
read_noted _ h = h

abbrev pub noted : Socket → Action → History → History
noted c (arrives a) h = arrival_noted c.pump c a h
noted c (reads n) h = read_noted (read c n).1 h
noted c closes h = h

abbrev pub act : Socket → Action → Socket
act c (arrives a) = pump_step c a
act c (reads n) = (read c n).0
act c closes = (close c).0

-- The channel and its history after some actions.
unfoldable pub run : Socket → History → List Action → Socket × History
run c h [] = (c, h)
run c h (a ∷ more) = run (act c a) (noted c a h) more

-- What was read of the connection, and then what stands in the buffer, is what it brought.
abbrev InOrder : Socket → History → Type 0
InOrder c h = h.given ++ c.buf ≡ h.taken

payload-InOrder :
    (c : Socket) (h : History) (o : Option Bytes)
    → InOrder c h
    → InOrder (store_payload c o) (take_payload h o)
payload-InOrder c h none k = k
payload-InOrder c h (some b) k = sym (append_assoc h.given c.buf b) ∙ ap (λ (x : Bytes). x ++ b) k

lose-buf : (c : Socket) (clean : Bool) → (lose_connection c clean).buf ≡ c.buf
lose-buf c clean = ground arith

failed-buf : (c : Socket) (clean : Bool) → (attempt_reconnect c clean none).buf ≡ c.buf
failed-buf c clean = ground arith

stop-buf : (c : Socket) (clean : Bool) → (pump_at (redialing clean) c stop_ping).buf ≡ c.buf
unfolding pump_at
stop-buf c clean = ground arith

same-InOrder :
    {b b' : Bytes} (h : History) → b' ≡ b → h.given ++ b ≡ h.taken → h.given ++ b' ≡ h.taken
same-InOrder h e k = ap (◌++◌ h.given) e ∙ k

attempt-InOrder :
    (c : Socket) (h : History) (clean : Bool) (conn : ℕ)
    → InOrder c h
    → InOrder (attempt_reconnect c clean (some conn)) (swap_unless h c.closed)
attempt-InOrder c h clean conn k = elim (Bool-cases c.closed) [
  | inl shut ↦ simp shut k
  | inr open_yet ↦ simp open_yet refl
]

arrival-InOrder :
    (st : PumpState) (c : Socket) (h : History) (a : Arrival)
    → InOrder c h
    → InOrder (pump_at st c a) (arrival_noted st c a h)
unfolding pump_at
arrival-InOrder receiving c h (message mt body) k =
    payload-InOrder c h (decoded c.opts.decode mt body) k
arrival-InOrder receiving c h (lost clean) k = same-InOrder h (lose-buf c clean) k
arrival-InOrder receiving c h (dialed o) k = k
arrival-InOrder receiving c h stop_ping k = k
arrival-InOrder (redialing clean) c h (message mt body) k = k
arrival-InOrder (redialing clean) c h (lost b) k = k
arrival-InOrder (redialing clean) c h (dialed none) k = same-InOrder h (failed-buf c clean) k
arrival-InOrder (redialing clean) c h (dialed (some conn)) k = attempt-InOrder c h clean conn k
arrival-InOrder (redialing clean) c h stop_ping k = same-InOrder h (stop-buf c clean) k
arrival-InOrder stopped c h (message mt body) k = k
arrival-InOrder stopped c h (lost b) k = k
arrival-InOrder stopped c h (dialed o) k = k
arrival-InOrder stopped c h stop_ping k = k

read_end-noted : (b : Bool) (e : Option ReadError) (h : History) → read_noted (read_end b e) h ≡ h
read_end-noted true e h = refl
read_end-noted false none h = refl
read_end-noted false (some e) h = refl

read-InOrder :
    (c : Socket) (h : History) (n : ℕ)
    → InOrder c h
    → InOrder (read c n).0 (read_noted (read c n).1 h)
unfolding read
read-InOrder c h n k = elim (Bool-cases (n == 0)) [
  | inl empty ↦ rw empty (ap (λ (x : Bytes). x ++ c.buf) (append-nil h.given) ∙ k)
  | inr some_room ↦ elim (Bool-cases (ltb 0 (length c.buf))) [
    | inl full ↦
        rw (some_room, full)
          (append_assoc h.given (take n c.buf) (drop n c.buf)
            ∙ ap (◌++◌ h.given) (take-append-drop n c.buf)
            ∙ k)
    | inr bare ↦ elim (Bool-cases c.pending_reconnect) [
      | inl due ↦ simp (some_room, bare, due) k
      | inr quiet ↦ simp (some_room, bare, quiet, read_end-noted) k
    ]
  ]
]

act-InOrder :
    (c : Socket) (h : History) (a : Action) → InOrder c h → InOrder (act c a) (noted c a h)
act-InOrder c h (arrives a) k = arrival-InOrder c.pump c h a k
act-InOrder c h (reads n) k = read-InOrder c h n k
act-InOrder c h closes k = unfold close in ground arith

run-InOrder :
    (c : Socket) (h : History) (steps : List Action)
    → InOrder c h
    → InOrder (run c h steps).0 (run c h steps).1
unfolding run
run-InOrder c h [] k = k
run-InOrder c h (a ∷ steps) k = run-InOrder (act c a) (noted c a h) steps (act-InOrder c h a k)

-- Whatever arrives, is read or is closed, and in whatever order: what was read since the present connection
-- was made, and then what is buffered, is what that connection has brought, in its order and with nothing
-- lost, added or left over from a connection before it.
pub run-in_order :
    (opts : Options) (conn : ℕ) (steps : List Action)
    → let (c, h) = run (new_socket opts conn) no_history steps in h.given ++ c.buf ≡ h.taken
run-in_order opts conn steps = run-InOrder (new_socket opts conn) no_history steps refl
