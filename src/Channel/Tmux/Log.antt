-- ===== src/Channel/Tmux/Log.antt =====
-- `Read` of pkg/channel/tmux/tmux.go, on a log file that only grows. `unread` is what stands behind the
-- file's offset; what ends a wait for the timer or for `Close` is an event.
use ptyrelay.Base.{
  ℕ, Bool, Bytes, List, [], ◌∷◌, All, ◌++◌, if◌then◌else◌, take, drop, ◌≡◌, ◌≢◌, length, ◌≤◌,
}
use ptyrelay.Agent.Os.{Failure}

pub data Event : Type 0 where
  -- The timer fires, and the pane has printed these bytes.
  ticked : Bytes → Event
  -- The channel was closed.
  shut : Event
  -- The timer fires, and the file cannot be read.
  unreadable : Failure → Event

pub data ReadResult : Type 0 where
  delivered : Bytes → ReadResult
  blocked closed_channel : ReadResult
  read_failed : Failure → ReadResult

-- A round that found nothing waits; the bytes of the file's next round come first.
abbrev pub or_wait :
    Bytes → Bytes → Bytes × List Event × ReadResult → List Event → Bytes × List Event × ReadResult
or_wait (x ∷ got) left waited es = (left, es, delivered (x ∷ got))
or_wait [] left waited es = waited

-- The rounds of the loop behind the first, on the events that are still to come.
unfoldable pub await : ℕ → Bytes → List Event → Bytes × List Event × ReadResult
await n unread [] = (unread, [], blocked)
await n unread (ticked b ∷ es) =
    or_wait (take n (unread ++ b)) (drop n (unread ++ b)) (await n (unread ++ b) es) es
await n unread (shut ∷ es) = (unread, es, closed_channel)
await n unread (unreadable e ∷ es) = (unread, es, read_failed e)

-- `Read` with a buffer of `n` bytes: what is left in the log, the events left, and the result.
unfoldable pub read : Bool → ℕ → Bytes → List Event → Bytes × List Event × ReadResult
read closed n unread es =
    if closed
    then (unread, es, closed_channel)
    else or_wait (take n unread) (drop n unread) (await n unread es) es

-- What the pane printed in some events.
abbrev pub printed : List Event → Bytes
printed [] = []
printed (ticked b ∷ es) = b ++ printed es
printed (_ ∷ es) = printed es

abbrev pub bytes_of : ReadResult → Bytes
bytes_of (delivered b) = b
bytes_of _ = []

-- The timer fired, and the log could be read.
abbrev pub IsTick : Event → Type 0
IsTick (ticked b) = Unit
IsTick _ = ⊥

abbrev pub IsDelivered : ReadResult → Type 0
IsDelivered (delivered b) = Unit
IsDelivered _ = ⊥

-- The events that a call with nothing to read goes through, and what it returns at the last of them: bytes
-- when the first ones are printed, the error when the channel is closed or the log cannot be read. It still waits when
-- all of them were ticks with nothing printed.
abbrev pub Waited : List Event → ReadResult → Type 0
Waited [] r = r ≡ blocked
Waited (ticked [] ∷ used) r = Waited used r
Waited (ticked (x ∷ b) ∷ used) r = (used ≡ []) × IsDelivered r
Waited (shut ∷ used) r = (used ≡ []) × (r ≡ closed_channel)
Waited (unreadable e ∷ used) r = (used ≡ []) × (r ≡ read_failed e)

-- A call that finds bytes in the log goes through no event.
abbrev pub InTime : Bytes → List Event → ReadResult → Type 0
InTime [] used r = Waited used r
InTime (x ∷ b) used r = (used ≡ []) × IsDelivered r

-- What a `Read` must have done: it has gone through `used` events and no more than it had to, its bytes are the next
-- ones of the log, as many as fit, and no others are lost, and it waits only where all was read and there is
-- no further event.
pub record Served (n : ℕ) (unread : Bytes) (es : List Event) (left : Bytes) (later : List Event)
    (r : ReadResult) : Type 0 where
  pub used : List Event
  pub split : used ++ later ≡ es
  pub in_order : bytes_of r ++ left ≡ unread ++ printed used
  pub fits : length (bytes_of r) ≤ n
  pub in_time : InTime unread used r
  pub some_byte : r ≢ delivered []
  pub waits_for_more : r ≡ blocked → (left ≡ []) × (later ≡ []) × All IsTick used
