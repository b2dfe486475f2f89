-- ===== src/Proto/Frame.antt =====
-- pkg/proto/wire.go: messages with a length in front, on a writer and a reader that may fail. The
-- JSON codec is a parameter.
pub mod RoundTrip
use ptyrelay.Base.{
  ℕ, zero, suc, ◌+◌, ◌*◌, ◌/◌, ◌%◌, Bool, true, false, Bytes, List, [], ◌∷◌, ◌++◌, Option, none,
  some, ltb, if◌then◌else◌, length, take, drop, ◌⊎◌, inl, inr,
}
use ptyrelay.Session.Wire.{Wire, write_channel}

-- `json.Marshal` and `json.Unmarshal` for a type; `none` is an error.
pub record Codec (A : Type 0) : Type 0 where
  pub marshal : A → Option Bytes
  pub unmarshal : Bytes → Option A

abbrev pub max_frame_size : ℕ
max_frame_size = 33554432

-- The errors, and `io.EOF` and `io.ErrUnexpectedEOF` of `io.ReadFull`.
pub data FrameError : Type 0 where
  marshal_failed unmarshal_failed write_failed eof unexpected_eof : FrameError
  too_large : ℕ → FrameError

-- `binary.BigEndian.PutUint32`, for a number of 32 bits.
unfoldable pub put_uint32 : ℕ → Bytes
put_uint32 n = (n / 16777216) % 256 ∷ (n / 65536) % 256 ∷ (n / 256) % 256 ∷ n % 256 ∷ []

-- `binary.BigEndian.Uint32`; there are four bytes where it is called.
unfoldable pub uint32 : Bytes → ℕ
uint32 (a ∷ b ∷ c ∷ d ∷ _) = a * 16777216 + b * 65536 + c * 256 + d
uint32 _ = 0

abbrev pub written : Wire × ℕ × Bool → Wire × Option FrameError
written (w, _, true) = (w, none)
written (w, _, false) = (w, some write_failed)

-- The two writes of `WriteFrame`; the second is reached if the first does not fail.
abbrev pub write_body : Bytes → Wire × ℕ × Bool → Wire × Option FrameError
write_body body (w, _, true) = written (write_channel w body)
write_body body (w, _, false) = (w, some write_failed)

-- `WriteFrame`, at what `json.Marshal` returned.
abbrev pub write_marshalled : Wire → Option Bytes → Wire × Option FrameError
write_marshalled w none = (w, some marshal_failed)
write_marshalled w (some body) =
    if ltb max_frame_size (length body)
    then (w, some (too_large (length body)))
    else write_body body (write_channel w (put_uint32 (length body)))

unfoldable pub write_frame : {A : Type 0} → Codec A → Wire → A → Wire × Option FrameError
write_frame codec w msg = write_marshalled w (codec.marshal msg)

-- `io.ReadFull` of `n` bytes from what the reader still holds: the bytes and the rest.
unfoldable pub read_full : ℕ → Bytes → FrameError ⊎ (Bytes × Bytes)
read_full zero b = inr ([], b)
read_full (suc n) [] = inl eof
read_full (suc n) (x ∷ b) =
    if ltb (length b) n then inl unexpected_eof else inr (x ∷ take n b, drop n b)

abbrev pub unmarshalled : {A : Type 0} → Bytes → Option A → FrameError ⊎ (A × Bytes)
unmarshalled rest none = inl unmarshal_failed
unmarshalled rest (some msg) = inr (msg, rest)

-- `ReadFrame`, at what `io.ReadFull` returned for the body.
abbrev pub read_body :
    {A : Type 0} → Codec A → FrameError ⊎ (Bytes × Bytes) → FrameError ⊎ (A × Bytes)
read_body codec (inl e) = inl e
read_body codec (inr (body, rest)) = unmarshalled rest (codec.unmarshal body)

-- `ReadFrame`, at what `io.ReadFull` returned for the header.
abbrev pub read_header :
    {A : Type 0} → Codec A → FrameError ⊎ (Bytes × Bytes) → FrameError ⊎ (A × Bytes)
read_header codec (inl e) = inl e
read_header codec (inr (hdr, rest)) =
    if ltb max_frame_size (uint32 hdr)
    then inl (too_large (uint32 hdr))
    else read_body codec (read_full (uint32 hdr) rest)

unfoldable pub read_frame : {A : Type 0} → Codec A → Bytes → FrameError ⊎ (A × Bytes)
read_frame codec b = read_header codec (read_full 4 b)
