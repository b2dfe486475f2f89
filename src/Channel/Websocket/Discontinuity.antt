-- ===== src/Channel/Websocket/Discontinuity.antt =====
-- The order in which `Read` reports bytes and a replaced connection.
use ptyrelay.Base.{
  ℕ, ◌<◌, Bool, true, false, Bytes, some, length, take, drop, lt→ltb, ◌==◌, ◌≡◌, refl, ap, ◌∙◌,
  arith,
}
use ptyrelay.Channel.Websocket.{
  Socket, redialing, message, dialed, decoded, MessageType, pump_at, pump_step, read, ReadResult,
  got,
}

-- The connection was replaced, and then a message came.
abbrev pub replaced : Socket → ℕ → MessageType → Bytes → Socket
replaced c conn mt body = pump_step (pump_step c (dialed (some conn))) (message mt body)

replaced_lem :
    (c : Socket) (clean : Bool) (conn : ℕ) (mt : MessageType) (body payload : Bytes)
    → c.pump ≡ redialing clean
    → c.closed ≡ false
    → decoded c.opts.decode mt body ≡ some payload
    → ((replaced c conn mt body).buf ≡ payload)
      × ((replaced c conn mt body).pending_reconnect ≡ true)
unfolding pump_at
replaced_lem c clean conn mt body payload p k e = simp (p, k, e) (refl, refl)

-- Bytes that are buffered are read first.
read_buffered :
    (d : Socket) (n : ℕ)
    → 0 < n
    → 0 < length d.buf
    → read d n ≡ (record d { buf = drop n d.buf }, got (take n d.buf))
unfolding read
read_buffered d n room full =
    let some_room : (n == 0) ≡ false = ground arith in rw (some_room, lt→ltb 0 (length d.buf) full)

-- A connection is replaced, and the new one brings bytes before the next call of `Read`: that call returns
-- those bytes as if nothing had happened, and the discontinuity is reported only behind them.
pub read-unmarked :
    (c : Socket) (clean : Bool) (conn n : ℕ) (mt : MessageType) (body payload : Bytes)
    → c.pump ≡ redialing clean
    → c.closed ≡ false
    → decoded c.opts.decode mt body ≡ some payload
    → 0 < length payload
    → 0 < n
    → let (d, r) = read (replaced c conn mt body) n in
      (r ≡ got (take n payload)) × (d.pending_reconnect ≡ true)
read-unmarked c clean conn n mt body payload p k e some_bytes room =
    let d = replaced c conn mt body in
    let (brought, owed) = replaced_lem c clean conn mt body payload p k e in
    let first = read_buffered d n room (rw brought some_bytes) in
    (
      ap (λ (z : Socket × ReadResult). z.1) first ∙ ap (λ (b : Bytes). got (take n b)) brought,
      ap (λ (z : Socket × ReadResult). z.0.pending_reconnect) first ∙ owed,
    )
