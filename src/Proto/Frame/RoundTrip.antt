-- ===== src/Proto/Frame/RoundTrip.antt =====
-- Frames that are written are read back, in order and with nothing between them.
use ptyrelay.Base.{
  ℕ, zero, suc, ◌≤◌, ◌<◌, Bool, true, false, Bytes, List, [], ◌∷◌, ◌++◌, Option, none, some, ltb,
  length, ◌⊎◌, inl, inr, ◌≡◌, refl, sym, ap, ◌∙◌, arith, flatten, append_assoc, append-nil,
  length-append, le→ltb, take-length, drop-length, Option-cases, Bool-cases,
}
use ptyrelay.Session.Wire.{Wire, write_channel}
use ptyrelay.Proto.Frame.{
  Codec, max_frame_size, FrameError, put_uint32, uint32, write_frame, read_full, read_frame,
  write_body, written, read_header,
}

uint32-put_uint32 : (n : ℕ) → n < 4294967296 → uint32 (put_uint32 n) ≡ n
unfolding uint32 put_uint32
uint32-put_uint32 n h = omega arith

read_full-append : (a b : Bytes) → read_full (length a) (a ++ b) ≡ inr (a, b)
unfolding read_full
read_full-append [] b = refl
read_full-append (x ∷ a) b =
    let long : ltb (length (a ++ b)) (length a) ≡ false = ground (arith, length-append a b) in
    rw (long, take-length a b, drop-length a b)

-- The bytes of a frame with the body `body`.
abbrev pub frame_of : Bytes → Bytes
frame_of body = put_uint32 (length body) ++ body

read_header-put_uint32 :
    {A : Type 0} (codec : Codec A) (msg : A) (body rest : Bytes)
    → codec.unmarshal body ≡ some msg
    → length body ≤ max_frame_size
    → read_header codec (inr (put_uint32 (length body), body ++ rest)) ≡ inr (msg, rest)
read_header-put_uint32 codec msg body rest h small = rw (
  uint32-put_uint32 (length body) (omega arith),
  le→ltb max_frame_size (length body) small,
  read_full-append body rest,
  h,
)

read_frame-frame_of :
    {A : Type 0} (codec : Codec A) (msg : A) (body rest : Bytes)
    → codec.unmarshal body ≡ some msg
    → length body ≤ max_frame_size
    → read_frame codec (frame_of body ++ rest) ≡ inr (msg, rest)
unfolding read_frame put_uint32
read_frame-frame_of codec msg body rest h small =
    ap (read_header codec) (read_full-append (put_uint32 (length body)) (body ++ rest))
    ∙ read_header-put_uint32 codec msg body rest h small

-- The rest of the messages is written if this one was.
abbrev pub go_on : Wire × Option FrameError → Wire → Option FrameError → Wire × Option FrameError
go_on others w none = others
go_on others w (some e) = (w, some e)

-- `WriteFrame` for each message, up to an error.
unfoldable pub write_frames : {A : Type 0} → Codec A → Wire → List A → Wire × Option FrameError
write_frames codec w [] = (w, none)
write_frames codec w (msg ∷ msgs) =
    let (w', e) = write_frame codec w msg in
    let others = write_frames codec w' msgs in go_on others w' e

abbrev pub keep : {A : Type 0} → A → FrameError ⊎ (List A × Bytes) → FrameError ⊎ (List A × Bytes)
keep msg (inl e) = inl e
keep msg (inr (msgs, rest)) = inr (msg ∷ msgs, rest)

abbrev pub read_on :
    {A : Type 0}
    → (Bytes → FrameError ⊎ (List A × Bytes))
    → FrameError ⊎ (A × Bytes)
    → FrameError ⊎ (List A × Bytes)
read_on others (inl e) = inl e
read_on others (inr (msg, rest)) = keep msg (others rest)

-- `ReadFrame`, `n` times, up to an error.
unfoldable pub read_frames : {A : Type 0} → Codec A → ℕ → Bytes → FrameError ⊎ (List A × Bytes)
read_frames codec zero b = inr ([], b)
read_frames codec (suc n) b = read_on (λ rest. read_frames codec n rest) (read_frame codec b)

flatten-append :
    (xss : List Bytes) (yss : List Bytes) → flatten (xss ++ yss) ≡ flatten xss ++ flatten yss
flatten-append [] yss = refl
flatten-append (xs ∷ xss) yss =
    rw (flatten-append xss yss) (sym (append_assoc xs (flatten xss) (flatten yss)))

-- What a successful `WriteFrame` has written.
record Framed {A : Type 0} (codec : Codec A) (w w' : Wire) (msg : A) : Type 0 where
  pub body : Bytes
  pub marshalled : codec.marshal msg ≡ some body
  pub small : length body ≤ max_frame_size
  pub sent : flatten w'.sent ≡ flatten w.sent ++ frame_of body

sent-two :
    (w : Wire) (a b : Bytes) → flatten ((w.sent ++ a ∷ []) ++ b ∷ []) ≡ flatten w.sent ++ (a ++ b)
sent-two w a b =
    rw
      (
        flatten-append (w.sent ++ a ∷ []) (b ∷ []),
        flatten-append w.sent (a ∷ []),
        append-nil a,
        append-nil b,
      )
      (append_assoc (flatten w.sent) a b)

written_done : (t : Wire × ℕ × Bool) (w' : Wire) → written t ≡ (w', none) → t.0 ≡ w'
written_done (w, n, true) w' h = cc
written_done (w, n, false) w' h = absurd (cc)

write_body_done :
    (t : Wire × ℕ × Bool) (w' : Wire) (body : Bytes)
    → write_body body t ≡ (w', none)
    → (write_channel t.0 body).0 ≡ w'
write_body_done (w, n, true) w' body h = written_done (write_channel w body) w' h
write_body_done (w, n, false) w' body h = absurd (cc)

write_body-sent :
    (w w' : Wire) (body : Bytes)
    → write_body body (write_channel w (put_uint32 (length body))) ≡ (w', none)
    → flatten w'.sent ≡ flatten w.sent ++ frame_of body
unfolding write_channel
write_body-sent w w' body h =
    sym (
      ap (λ (u : Wire). flatten u.sent)
        (write_body_done (write_channel w (put_uint32 (length body))) w' body h))
    ∙ sent-two w (put_uint32 (length body)) body

write_frame-Framed :
    {A : Type 0} (codec : Codec A) (w w' : Wire) (msg : A)
    → write_frame codec w msg ≡ (w', none)
    → Framed codec w w' msg
unfolding write_frame
write_frame-Framed codec w w' msg h = elim (Option-cases (codec.marshal msg)) [
  | inl bad ↦ absurd (cc (rw bad at h))
  | inr (body, good) ↦ elim (Bool-cases (ltb max_frame_size (length body))) [
    | inl large ↦ absurd (cc (rw (good, large) at h))
    | inr small ↦ record {
      body = body;
      marshalled = good;
      small = ground arith;
      sent = write_body-sent w w' body (rw (good, small) at h);
    }
  ]
]

read_frames-first :
    {A : Type 0} (codec : Codec A) (msg : A) (msgs : List A) (body s rest : Bytes)
    → codec.unmarshal body ≡ some msg
    → length body ≤ max_frame_size
    → read_frames codec (length msgs) (s ++ rest) ≡ inr (msgs, rest)
    → read_frames codec (suc (length msgs)) ((frame_of body ++ s) ++ rest) ≡ inr (msg ∷ msgs, rest)
unfolding read_frames
read_frames-first codec msg msgs body s rest h small others =
    ap (λ z. read_on (read_frames codec (length msgs)) (read_frame codec z))
      (append_assoc (frame_of body) s rest)
    ∙ ap (read_on (read_frames codec (length msgs)))
        (read_frame-frame_of codec msg body (s ++ rest) h small)
    ∙ ap (keep msg) others

-- The messages behind the first, once that is written.
go_on_done :
    (others : Wire × Option FrameError) (t : Wire × Option FrameError) (w' : Wire)
    → go_on others t.0 t.1 ≡ (w', none)
    → (t ≡ (t.0, none)) × (others ≡ (w', none))
go_on_done others (w, none) w' h = (refl, h)
go_on_done others (w, some e) w' h = absurd (cc)

-- A message that is written and read back by the codec is read back from its frame, and the bytes
-- behind it are left. So a sequence of messages that is written without an error is read back, in
-- order, whatever the reader holds behind it.
pub read_frames-write_frames :
    {A : Type 0} (codec : Codec A)
    → ((msg : A) (body : Bytes) → codec.marshal msg ≡ some body → codec.unmarshal body ≡ some msg)
    → (w w' : Wire) (msgs : List A) (rest : Bytes) → write_frames codec w msgs ≡ (w', none)
    → (s : Bytes) × (flatten w'.sent ≡ flatten w.sent ++ s)
      × (read_frames codec (length msgs) (s ++ rest) ≡ inr (msgs, rest))
unfolding write_frames read_frames
read_frames-write_frames codec law w w' [] rest h = (
  [],
  ap (λ (t : Wire × Option FrameError). flatten t.0.sent) (sym h)
      ∙ sym (append-nil (flatten w.sent)),
  refl,
)
read_frames-write_frames codec law w w' (msg ∷ msgs) rest h =
    let t = write_frame codec w msg in
    let (first, later) = go_on_done (write_frames codec t.0 msgs) t w' h in
    let f = write_frame-Framed codec w t.0 msg first in
    let (s, sent, others) = read_frames-write_frames codec law t.0 w' msgs rest later in
    (
      frame_of f.body ++ s,
      sent ∙ ap (λ z. z ++ s) f.sent ∙ append_assoc (flatten w.sent) (frame_of f.body) s,
      read_frames-first codec msg msgs f.body s rest (law msg f.body f.marshalled) f.small others,
    )
