-- ===== src/Tests/Proto.antt =====
-- Frames of pkg/proto/wire.go, with texts as messages.
use ptyrelay.Base.{◌≡◌, refl, sym, List, [], ◌∷◌, ◌++◌, Bytes, none, some, inr, codes, flatten}
use ptyrelay.Session.Wire.{Wire, write_channel}
use ptyrelay.Proto.Frame.{Codec, write_frame, put_uint32}
use ptyrelay.Proto.Frame.RoundTrip.{write_frames, read_frames, read_frames-write_frames}

abbrev plain : Codec Bytes
plain = record { marshal = λ b. some b; unmarshal = λ b. some b }

abbrev wire : Wire
wire = record { sent = []; fates = []; max_write_chunk = 0 }

abbrev messages : List Bytes
messages = codes "ping" ∷ [] ∷ codes "bye" ∷ []

abbrev after : Wire
after = (write_frames plain wire messages).0

frames_fine : write_frames plain wire messages ≡ (after, none)
unfolding write_frames write_frame write_channel put_uint32
frames_fine = refl

read_frames-write_frames_example :
    (s : Bytes) × (flatten after.sent ≡ [] ++ s)
    × (read_frames plain 3 (s ++ codes "x") ≡ inr (messages, codes "x"))
read_frames-write_frames_example =
    read_frames-write_frames plain (λ msg body h. sym h) wire after messages (codes "x") frames_fine
