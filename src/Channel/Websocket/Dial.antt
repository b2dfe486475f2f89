-- ===== src/Channel/Websocket/Dial.antt =====
-- `Dial`, `dialWithRetry` and `isRetryableDialError` of pkg/channel/websocket/websocket.go. What an
-- attempt gives, and whether the context ends in the wait behind it, are functions of its number.
pub mod Decided
use ptyrelay.Base.{
  ℕ, zero, suc, ◌+◌, ◌*◌, ◌^◌, ◌%◌, Bool, true, false, Bytes, ℤ, pos, negsuc, List, [], ◌∷◌, ◌==◌,
  if◌then◌else◌, Option, none, some,
}
use ptyrelay.Channel.Websocket.{Options, Socket, new_socket}

-- A connection, an error that wraps `ErrBadHandshake`, or another error.
pub data Attempt : Type 0 where
  connected : ℕ → Attempt
  bad_handshake transient : Bytes → Attempt

-- What `dialWithRetry` returns; `nothing` is a nil connection with a nil error.
pub data Dialed : Type 0 where
  opened : ℕ → Dialed
  dial_error : Bytes → Dialed
  context_ended nothing : Dialed

-- `isRetryableDialError`, of the error of an attempt that failed.
abbrev pub is_retryable : Attempt → Bool
is_retryable (connected conn) = false
is_retryable (bad_handshake e) = false
is_retryable (transient e) = true

-- `backoff << attempt`, as the bits of a 64-bit duration.
abbrev pub wait_for : ℕ → ℕ → ℕ
wait_for backoff attempt = (backoff * 2 ^ attempt) % 2 ^ 64

abbrev pub is_last : ℤ → ℕ → Bool
is_last (pos n) attempt = attempt == n
is_last (negsuc n) attempt = false

-- `attempt <= opts.DialRetries`, as the number of rounds.
abbrev pub rounds : ℤ → ℕ
rounds (pos n) = suc n
rounds (negsuc n) = zero

abbrev pub then_wait : ℕ → Dialed × List ℕ → Dialed × List ℕ
then_wait wait (d, waits) = (d, wait ∷ waits)

module _ (dial : ℕ → Attempt) (ends : ℕ → Bool) (backoff : ℕ) (retries : ℤ) where
  -- A round, behind its dial; `again` is the next one.
  abbrev pub after_dial : Dialed × List ℕ → ℕ → Attempt → Dialed × List ℕ
  after_dial again attempt (connected conn) = (opened conn, [])
  after_dial again attempt (bad_handshake e) = (dial_error e, [])
  after_dial again attempt (transient e) =
      if is_last retries attempt
      then (dial_error e, [])
      else then_wait (wait_for backoff attempt)
          (if ends attempt then (context_ended, []) else again)

  -- The loop of `dialWithRetry`, from an attempt on, with the waits that it makes.
  unfoldable pub dial_loop : ℕ → ℕ → Dialed × List ℕ
  dial_loop zero attempt = (nothing, [])
  dial_loop (suc left) attempt =
      let again = dial_loop left (attempt + 1) in after_dial again attempt (dial attempt)

  -- `dialWithRetry`.
  abbrev pub dial_with_retry : Dialed × List ℕ
  dial_with_retry = dial_loop (rounds retries) 0

-- What `Dial` returns: a channel, an error, or a channel that has no connection.
pub data Opened : Type 0 where
  channel : Socket → Opened
  failed : Bytes → Opened
  url_required canceled unconnected : Opened

abbrev pub opened_as : Options → Dialed → Opened
opened_as opts (opened conn) = channel (new_socket opts conn)
opened_as opts (dial_error e) = failed e
opened_as opts context_ended = canceled
opened_as opts nothing = unconnected

-- A duration that is not positive gives the default.
abbrev pub or_default : ℤ → ℕ → ℕ
or_default (pos (suc n)) d = suc n
or_default _ d = d

abbrev pub dial_url : (ℕ → Attempt) → (ℕ → Bool) → Options → Bytes → ℤ → ℤ → Opened
dial_url dial ends opts [] backoff retries = url_required
dial_url dial ends opts (x ∷ url) backoff retries =
    opened_as opts (dial_with_retry dial ends (or_default backoff 200000000) retries).0
