-- ===== src/Channel/Websocket.antt =====
-- pkg/channel/websocket/websocket.go: a channel over one WebSocket connection, which may be replaced
-- by a new one. The library's connections are numbers; what they deliver, and what dialling,
-- decoding and writing give, are arguments. What the read pump, `Read`, `Write` and `Close` do under
-- a lock is one step; the steps come in any order.
pub mod History
pub mod Dial
pub mod Discontinuity
pub mod Budget
use ptyrelay.Base.{
  ℕ, zero, suc, ◌+◌, ◌-◌, ◌*◌, ◌^◌, Bool, true, false, ◌&&◌, Bytes, ℤ, pos, negsuc, List, [], ◌∷◌,
  ◌++◌, ltb, ◌==◌, if◌then◌else◌, Option, none, some, length, take, drop,
}
use ptyrelay.Channel.{Caps}

pub data MessageType : Type 0 where
  text_message binary_message : MessageType

-- The options that the channel reads after the handshake. A hook that is nil is `none`; a hook
-- fails with `none`.
pub record Options : Type 0 where
  pub encode : Option (Bytes → Option (Bytes × MessageType))
  pub decode : Option (MessageType → Bytes → Option Bytes)
  pub encode_resize : Option (ℕ → ℕ → Option (Bytes × MessageType))
  pub reconnect : Bool
  pub max_reconnects : ℤ

-- What `readErr` is set to: `io.EOF` for a clean close, another error of the connection, or an
-- error of the decoder.
pub data ReadError : Type 0 where
  eof torn undecodable : ReadError

-- Where the read pump stands: in `ReadMessage`, in `attemptReconnect` after an error that was a clean
-- close or not, or behind its end.
pub data PumpState : Type 0 where
  receiving stopped : PumpState
  redialing : Bool → PumpState

-- `Channel`.
pub record Socket : Type 0 where
  pub opts : Options
  pub conn : ℕ
  pub buf : Bytes
  pub read_err : Option ReadError
  pub pending_reconnect : Bool
  pub reconnects_remaining : ℤ
  pub reconnect_attempt_count : ℕ
  pub closed : Bool
  pub pump : PumpState

-- What `Dial` returns for a connection.
abbrev pub new_socket : Options → ℕ → Socket
new_socket opts conn = record {
  opts = opts;
  conn = conn;
  buf = [];
  read_err = none;
  pending_reconnect = false;
  reconnects_remaining = opts.max_reconnects;
  reconnect_attempt_count = 0;
  closed = false;
  pump = receiving;
}

-- `shouldTryReconnect`.
abbrev pub may_reconnect : ℤ → ℤ → Bool
may_reconnect (pos zero) remaining = true
may_reconnect max (pos n) = ltb 0 n
may_reconnect max (negsuc n) = false

abbrev pub should_try_reconnect : Socket → Bool
should_try_reconnect c = may_reconnect c.opts.max_reconnects c.reconnects_remaining

-- The pump's end, with the error that the readers see.
abbrev pub end_pump : Socket → ReadError → Socket
end_pump c e = record c { read_err = some e; pump = stopped }

abbrev pub close_error : Bool → ReadError
close_error true = eof
close_error false = torn

abbrev pub decoded :
    Option (MessageType → Bytes → Option Bytes) → MessageType → Bytes → Option Bytes
decoded none mt body = some body
decoded (some dec) mt body = dec mt body

-- `readPump`, at what the decoder returned; an empty payload leaves the buffer as it is.
abbrev pub store_payload : Socket → Option Bytes → Socket
store_payload c none = end_pump c undecodable
store_payload c (some payload) = record c { buf = c.buf ++ payload }

-- `readPump`, where `ReadMessage` failed.
abbrev pub lose_connection : Socket → Bool → Socket
lose_connection c clean =
    if c.closed
    then record c { pump = stopped }
    else if c.opts.reconnect && should_try_reconnect c
    then record c { pump = redialing clean }
    else end_pump c (close_error clean)

abbrev pub spend : ℤ → ℤ → ℤ
spend (pos (suc n)) (pos (suc k)) = pos k
spend (pos (suc n)) (pos zero) = negsuc 0
spend (pos (suc n)) (negsuc k) = negsuc (suc k)
spend max remaining = remaining

-- `attemptReconnect`, behind the dial, and what `readPump` does with its answer; `none` is a dial that failed.
abbrev pub attempt_reconnect : Socket → Bool → Option ℕ → Socket
attempt_reconnect c clean none =
    if c.closed
    then end_pump c (close_error clean)
    else end_pump (record c { reconnect_attempt_count = c.reconnect_attempt_count + 1 })
        (close_error clean)
attempt_reconnect c clean (some conn) =
    if c.closed then end_pump c (close_error clean) else record c {
      reconnect_attempt_count = c.reconnect_attempt_count + 1;
      reconnects_remaining = spend c.opts.max_reconnects c.reconnects_remaining;
      buf = [];
      pending_reconnect = true;
      conn = conn;
      pump = receiving;
    }

-- What the read pump meets: a message, an error of the connection (a clean close or not), a dial that
-- connected or failed, and `stopPing` closed during the wait before it.
pub data Arrival : Type 0 where
  message : MessageType → Bytes → Arrival
  lost : Bool → Arrival
  dialed : Option ℕ → Arrival
  stop_ping : Arrival

-- `readPump` with `attemptReconnect`; what does not fit the pump's state does not happen.
unfoldable pub pump_at : PumpState → Socket → Arrival → Socket
pump_at receiving c (message mt body) = store_payload c (decoded c.opts.decode mt body)
pump_at receiving c (lost clean) = lose_connection c clean
pump_at (redialing clean) c (dialed conn) = attempt_reconnect c clean conn
pump_at (redialing clean) c stop_ping = if c.closed then end_pump c (close_error clean) else c
pump_at _ c _ = c

abbrev pub pump_step : Socket → Arrival → Socket
pump_step c a = pump_at c.pump c a

-- What `Read` returns; `blocks` is a call that waits.
pub data ReadResult : Type 0 where
  got : Bytes → ReadResult
  reconnected channel_closed blocks : ReadResult
  read_failed : ReadError → ReadResult

abbrev pub read_end : Bool → Option ReadError → ReadResult
read_end true e = channel_closed
read_end false none = blocks
read_end false (some e) = read_failed e

-- `Read`, with a buffer of `n` bytes.
unfoldable pub read : Socket → ℕ → Socket × ReadResult
read c n =
    if n == 0
    then (c, got [])
    else if ltb 0 (length c.buf)
    then (record c { buf = drop n c.buf }, got (take n c.buf))
    else if c.pending_reconnect
    then (record c { pending_reconnect = false }, reconnected)
    else (c, read_end c.closed c.read_err)

-- What a writing call gives to the connection: `none` where a hook failed, or there is no hook to resize.
abbrev pub encoded :
    Option (Bytes → Option (Bytes × MessageType)) → Bytes → Option (Bytes × MessageType)
encoded none b = some (b, binary_message)
encoded (some enc) b = enc b

-- `WriteMessage` on the connection, the count that `Write` reports, and whether it succeeds. The
-- library's answer is an argument.
abbrev pub write_encoded :
    Socket
    → Bytes
    → Bool
    → Option (Bytes × MessageType)
    → Option (ℕ × Bytes × MessageType) × ℕ × Bool
write_encoded c b fine none = (none, 0, false)
write_encoded c b fine (some (body, mt)) =
    (some (c.conn, body, mt), (if fine then length b else 0), fine)

-- `Write`.
unfoldable pub write : Socket → Bytes → Bool → Option (ℕ × Bytes × MessageType) × ℕ × Bool
write c b fine = write_encoded c b fine (encoded c.opts.encode b)

abbrev pub resize_encoded :
    Socket → Bool → Option (Bytes × MessageType) → Option (ℕ × Bytes × MessageType) × Bool
resize_encoded c fine none = (none, false)
resize_encoded c fine (some (body, mt)) = (some (c.conn, body, mt), fine)

abbrev pub resize_with :
    Socket
    → ℕ
    → ℕ
    → Bool
    → Option (ℕ → ℕ → Option (Bytes × MessageType))
    → Option (ℕ × Bytes × MessageType) × Bool
resize_with c cols rows fine none = (none, true)
resize_with c cols rows fine (some rs) = resize_encoded c fine (rs cols rows)

-- `Resize`.
unfoldable pub resize : Socket → ℕ → ℕ → Bool → Option (ℕ × Bytes × MessageType) × Bool
resize c cols rows fine = resize_with c cols rows fine c.opts.encode_resize

-- `Close`; the flag says whether this call did the work.
unfoldable pub close : Socket → Socket × Bool
close c = if c.closed then (c, false) else (record c { closed = true }, true)

abbrev pub caps : Caps
caps = record {
  binary_safe = true;
  separate_stderr = false;
  scrollback_limited = false;
  max_write_chunk = 0;
  concurrent = false;
}
