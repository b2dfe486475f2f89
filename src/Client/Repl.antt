-- ===== src/Client/Repl.antt =====
-- pkg/backend/agent/repl.go and the methods' common part of agent.go: calls over a long-lived agent.
pub mod Served
pub mod Close
use ptyrelay.Base.{
  ℕ, zero, suc, ◌+◌, ◌-◌, ◌^◌, ◌/◌, ◌%◌, Bool, true, false, ◌&&◌, not, Bytes, List, [], ◌∷◌, ◌++◌,
  Option, none, some, ◌==◌, ltb, if◌then◌else◌, ◌⊎◌, inl, inr, length, codes,
}
use ptyrelay.Bytes.{same_bytes}
use ptyrelay.Proto.{Op, ping, bye, Request, Response, version}
use ptyrelay.Client.Errors.{ClientError, plain_error, map_err_kind}

-- The far side of the pipe, as the client uses it: `Session.Pipe`, a write to its input, and the next
-- message of its output; `none` is success for the first two and an error for the third.
pub record Peer (P : Type 0) : Type 0 where
  pub pipe : P → P × Option Bytes
  pub send : Request → P → P × Option Bytes
  pub receive : P → P × (Bytes ⊎ Response)

-- `replState`: whether it is closed.
pub record ReplState : Type 0 where
  pub closed : Bool

-- `Backend` in the REPL mode.
pub record Client : Type 0 where
  pub id_counter : ℕ
  pub repl : Option ReplState

abbrev pub hex_digit : ℕ → ℕ
hex_digit n = if ltb n 10 then b'0' + n else b'a' + n - 10

-- `strconv.FormatUint(n, 16)` in front of what follows, with a round for each digit.
unfoldable pub hex_onto : ℕ → ℕ → Bytes → Bytes
hex_onto zero n rest = rest
hex_onto (suc fuel) n rest =
    let more = hex_onto fuel (n / 16) (hex_digit (n % 16) ∷ rest) in
    if ltb n 16 then hex_digit n ∷ rest else more

-- A counter of 64 bits has sixteen digits at most.
abbrev pub format_hex : ℕ → Bytes
format_hex n = hex_onto 16 n []

-- `idCounter.Add(1)`, on 64 bits.
abbrev pub next_id : Client → ℕ
next_id c = (c.id_counter + 1) % (2 ^ 64)

-- The errors of a call, apart from those of the agent.
pub data CallError : Type 0 where
  start_failed warmup_write warmup_read warmup_failed marshal_failed write_failed read_failed
        decode_failed :
      Bytes → CallError
  repl_closed : CallError
  id_mismatch : Bytes → Bytes → CallError
  remote : ClientError → CallError

module _ {A : Type 0} (decode : Bytes → Bytes ⊎ A) (empty : A) where
  abbrev pub decoded : Bytes ⊎ A → CallError ⊎ A
  decoded (inl e) = inl (decode_failed e)
  decoded (inr a) = inr a

  -- The end of `callREPL`, at the response.
  abbrev pub result_of : Bytes → Response → CallError ⊎ A
  result_of id resp =
      if ltb 0 (length resp.id) && not (same_bytes resp.id id)
      then inl (id_mismatch resp.id id)
      else if not resp.ok
      then inl (remote (map_err_kind resp.err_kind resp.err))
      else if ltb 0 (length resp.payload)
      then decoded (decode resp.payload)
      else inr empty

module _ {P : Type 0} (peer : Peer P) where
  -- What a call leaves, and its result.
  abbrev pub Called : Type 0 → Type 0
  Called A = (Client × P) × (CallError ⊎ A)

  abbrev pub warmup : Request
  warmup = record { v = version; id = codes "_warmup"; op = ping; args = [] }

  -- `startREPL`, at the answer to the warm-up.
  abbrev pub warmed : Client → P → Bytes ⊎ Response → (Client × P) × Option CallError
  warmed c p (inl e) = ((record c { repl = none }, p), some (warmup_read e))
  warmed c p (inr resp) =
      if resp.ok
      then ((c, p), none)
      else ((record c { repl = none }, p), some (warmup_failed resp.err))

  abbrev pub warm_up : Client → P → Option Bytes → (Client × P) × Option CallError
  warm_up c p (some e) = ((record c { repl = none }, p), some (warmup_write e))
  warm_up c p none = let (q, r) = peer.receive p in warmed c q r

  abbrev pub piped : Client → P → Option Bytes → (Client × P) × Option CallError
  piped c p (some e) = ((c, p), some (start_failed e))
  piped c p none =
      let (q, r) = peer.send warmup p in
      warm_up (record c { repl = some (record { closed = false }) }) q r

  unfoldable pub start_repl : Client → P → (Client × P) × Option CallError
  start_repl c p = let (q, r) = peer.pipe p in piped c q r

  -- The pipe is started on the first call.
  abbrev pub ensure_repl : Client → P → Option ReplState → (Client × P) × Option CallError
  ensure_repl c p none = start_repl c p
  ensure_repl c p (some r) = ((c, p), none)

  abbrev pub close_it : Client → Client
  close_it c = record c { repl = some (record { closed = true }) }

  module _ {A : Type 0} (decode : Bytes → Bytes ⊎ A) (empty : A) where
    abbrev pub received : Client → Bytes → P → Bytes ⊎ Response → Called A
    received c id p (inl e) = ((close_it c, p), inl (read_failed e))
    received c id p (inr resp) = ((c, p), result_of decode empty id resp)

    abbrev pub sent : Client → Bytes → P → Option Bytes → Called A
    sent c id p (some e) = ((close_it c, p), inl (write_failed e))
    sent c id p none = let (q, r) = peer.receive p in received c id q r

    -- `callREPL` behind the test for a closed pipe; `args` is what `json.Marshal` returned.
    abbrev pub exchange : Client → P → Op → Bytes ⊎ Bytes → Called A
    exchange c p op (inl e) = ((record c { id_counter = next_id c }, p), inl (marshal_failed e))
    exchange c p op (inr args) =
        let id = format_hex (next_id c) in
        let (q, r) = peer.send (record { v = version; id = id; op = op; args = args }) p in
        sent (record c { id_counter = next_id c }) id q r

    abbrev pub is_closed : Option ReplState → Bool
    is_closed none = false
    is_closed (some r) = r.closed

    abbrev pub with_repl : Op → Bytes ⊎ Bytes → (Client × P) × Option CallError → Called A
    with_repl op args (s, some e) = (s, inl e)
    with_repl op args ((c, p), none) =
        if is_closed c.repl then ((c, p), inl repl_closed) else exchange c p op args

    unfoldable pub call_repl : Client → P → Op → Bytes ⊎ Bytes → Called A
    call_repl c p op args = with_repl op args (ensure_repl c p c.repl)
