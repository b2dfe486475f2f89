-- ===== src/Session/Wire/Pieces.antt =====
-- What reaches the channel when a payload is written piece by piece.
use ptyrelay.Base.{
  ℕ, zero, suc, ◌<◌, ◌≤◌, Bool, true, false, ◌||◌, Bytes, List, [], ◌∷◌, ◌++◌, leb, if◌then◌else◌,
  length, take, drop, flatten, All, ◌≡◌, refl, sym, ap, ◌∙◌, arith, append_assoc, append-nil,
  take-append-drop, length-take, length-drop, Bool-cases, inl, inr,
}
use ptyrelay.Session.Wire.{
  Wire, Fate, whole, fault, next_fate, later_fates, reported, write_channel, write_pieces,
  write_all,
}

-- The write of this fate is the last one and the payload is reported as not written, or others follow.
abbrev pub AfterFate : Fate → List Bytes → Bool → Type 0 → Type 0
AfterFate whole ps fine Later = Later
AfterFate (fault short) ps fine Later = (ps ≡ []) × (fine ≡ false)

-- Each write but the last was whole; the payload is reported as written exactly if the last one was too.
abbrev pub Stops : List Fate → List Bytes → Bool → Type 0
Stops fates [] fine = fine ≡ true
Stops fates (p ∷ ps) fine = AfterFate (next_fate fates) ps fine (Stops (later_fates fates) ps fine)

-- The writes made from `w` to `w'`: `pieces`, none longer than `limit`, that spell the bytes `b` up
-- to a `rest`, which is empty if no write failed; they stop at the first that fails, and have used up
-- one fate each.
pub record Wrote (limit : ℕ) (w w' : Wire) (b : Bytes) (fine : Bool) : Type 0 where
  pub pieces : List Bytes
  pub rest : Bytes
  pub logged : w'.sent ≡ w.sent ++ pieces
  pub spells : flatten pieces ++ rest ≡ b
  pub fits : All (λ p. length p ≤ limit) pieces
  pub all_sent : fine ≡ true → rest ≡ []
  pub stops : Stops w.fates pieces fine
  pub used_up : w'.fates ≡ drop (length pieces) w.fates
  pub same_limit : w'.max_write_chunk ≡ w.max_write_chunk

Wrote-nil : (limit : ℕ) (w : Wire) → Wrote limit w w [] true
Wrote-nil limit w = record {
  pieces = [];
  rest = [];
  logged = sym (append-nil w.sent);
  spells = refl;
  fits = tt;
  all_sent = λ _. refl;
  stops = refl;
  used_up = refl;
  same_limit = refl;
}

write_channel_sent : (w : Wire) (b : Bytes) → (write_channel w b).0.sent ≡ w.sent ++ b ∷ []
unfolding write_channel
write_channel_sent w b = refl

-- What a write does besides logging the bytes: it takes a fate, which decides whether it fails.
record Written (w w' : Wire) (fine : Bool) : Type 0 where
  fate_taken : w'.fates ≡ later_fates w.fates
  fate_told : (reported (next_fate w.fates) 0).1 ≡ fine
  limit_kept : w'.max_write_chunk ≡ w.max_write_chunk

fine_of : (f : Fate) (n : ℕ) → (reported f 0).1 ≡ (reported f n).1
fine_of whole n = refl
fine_of (fault short) n = refl

write_channel-Written :
    (w : Wire) (b : Bytes) → Written w (write_channel w b).0 (write_channel w b).2
unfolding write_channel
write_channel-Written w b = record {
  fate_taken = refl;
  fate_told = fine_of (next_fate w.fates) (length b);
  limit_kept = refl;
}

drop_later : (n : ℕ) (fs : List Fate) → drop n (later_fates fs) ≡ drop (suc n) fs
drop_later zero [] = refl
drop_later (suc n) [] = refl
drop_later n (f ∷ fs) = refl

stops_whole :
    (f : Fate) (ps : List Bytes) (fine : Bool) (Later : Type 0)
    → (reported f 0).1 ≡ true
    → Later
    → AfterFate f ps fine Later
stops_whole whole ps fine Later h l = l
stops_whole (fault short) ps fine Later h l = absurd (cc)

stops_failed : (f : Fate) → (reported f 0).1 ≡ false → AfterFate f [] false (false ≡ true)
stops_failed whole h = absurd (cc)
stops_failed (fault short) h = (refl, refl)

stops_single :
    (f : Fate) (fine : Bool) → (reported f 0).1 ≡ fine → AfterFate f [] fine (fine ≡ true)
stops_single whole fine h = sym h
stops_single (fault short) fine h = (refl, sym h)

-- One write, after which `later` is written, or nothing if it failed.
Wrote-cons :
    (limit : ℕ) (w w' w'' : Wire) (p b payload : Bytes) (fine : Bool)
    → p ++ b ≡ payload
    → w'.sent ≡ w.sent ++ p ∷ []
    → length p ≤ limit
    → Written w w' true
    → Wrote limit w' w'' b fine
    → Wrote limit w w'' payload fine
Wrote-cons limit w w' w'' p b payload fine e one short made later = record {
  pieces = p ∷ later.pieces;
  rest = later.rest;
  logged = later.logged ∙ rw one (append_assoc w.sent (p ∷ []) later.pieces);
  spells = append_assoc p (flatten later.pieces) later.rest ∙ ap (◌++◌ p) later.spells ∙ e;
  fits = (short, later.fits);
  all_sent = later.all_sent;
  stops =
      stops_whole (next_fate w.fates) later.pieces fine _ made.fate_told
        (rw made.fate_taken at later.stops);
  used_up =
      later.used_up
      ∙ ap (drop (length later.pieces)) made.fate_taken
      ∙ drop_later (length later.pieces) w.fates;
  same_limit = later.same_limit ∙ made.limit_kept;
}

Wrote-failed :
    (limit : ℕ) (w w' : Wire) (p b payload : Bytes)
    → p ++ b ≡ payload
    → w'.sent ≡ w.sent ++ p ∷ []
    → length p ≤ limit
    → Written w w' false
    → Wrote limit w w' payload false
Wrote-failed limit w w' p b payload e one short made = record {
  pieces = p ∷ [];
  rest = b;
  logged = one;
  spells = ap (λ (x : Bytes). x ++ b) (append-nil p) ∙ e;
  fits = (short, tt);
  all_sent = λ e. cc;
  stops = stops_failed (next_fate w.fates) made.fate_told;
  used_up = made.fate_taken ∙ drop_later 0 w.fates;
  same_limit = made.limit_kept;
}

module _ (fuel chunk : ℕ) (w : Wire) (x : ℕ) (b : Bytes) where
  abbrev piece : Bytes
  piece = take chunk (x ∷ b)

  abbrev left : Bytes
  left = drop chunk (x ∷ b)

  abbrev after : Wire
  after = (write_channel w piece).0

  write_pieces-fine :
      (write_channel w piece).2 ≡ true
      → write_pieces (suc fuel) chunk w (x ∷ b) ≡ write_pieces fuel chunk after left
  unfolding write_pieces
  write_pieces-fine fine = rw fine

  write_pieces-failed :
      (write_channel w piece).2 ≡ false → write_pieces (suc fuel) chunk w (x ∷ b) ≡ (after, false)
  unfolding write_pieces
  write_pieces-failed failed = rw failed

  piece_short : length piece ≤ chunk
  piece_short = omega (arith, length-take chunk (x ∷ b))

write_pieces-Wrote :
    (fuel chunk : ℕ) (w : Wire) (b : Bytes)
    → 0 < chunk
    → length b ≤ fuel
    → Wrote chunk w (write_pieces fuel chunk w b).0 b (write_pieces fuel chunk w b).1
write_pieces-Wrote zero chunk w [] h k = unfold write_pieces in Wrote-nil chunk w
write_pieces-Wrote zero chunk w (x ∷ b) h k = absurd (omega arith)
write_pieces-Wrote (suc fuel) chunk w [] h k = unfold write_pieces in Wrote-nil chunk w
write_pieces-Wrote (suc fuel) chunk w (x ∷ b) h k =
    let one = write_channel_sent w (piece fuel chunk w x b) in
    let short = piece_short fuel chunk w x b in
    let made = write_channel-Written w (piece fuel chunk w x b) in
    let whole_text = take-append-drop chunk (x ∷ b) in
    let later =
      write_pieces-Wrote fuel chunk (after fuel chunk w x b) (left fuel chunk w x b) h
        (omega (arith, length-drop chunk (x ∷ b))) in
    elim (Bool-cases (write_channel w (piece fuel chunk w x b)).2) [
      | inl fine ↦ rw (write_pieces-fine fuel chunk w x b fine) (
          Wrote-cons chunk w (after fuel chunk w x b) _ _ _ (x ∷ b) _ whole_text one short
            (rw fine at made) later)
      | inr failed ↦ rw (write_pieces-failed fuel chunk w x b failed) (
          Wrote-failed chunk w (after fuel chunk w x b) _ _ (x ∷ b) whole_text one short
            (rw failed at made))
    ]

-- The longest write that a payload may be put into: the channel's limit, or none.
abbrev pub write_limit : Wire → Bytes → ℕ
write_limit w b = if leb w.max_write_chunk 0 then length b else w.max_write_chunk

single-Wrote :
    (limit : ℕ) (w : Wire) (b : Bytes)
    → length b ≤ limit
    → Wrote limit w (write_channel w b).0 b (write_channel w b).2
single-Wrote limit w b h = record {
  pieces = b ∷ [];
  rest = [];
  logged = write_channel_sent w b;
  spells = append-nil (b ++ []) ∙ append-nil b;
  fits = (h, tt);
  all_sent = λ _. refl;
  stops = stops_single (next_fate w.fates) _ (write_channel-Written w b).fate_told;
  used_up = (write_channel-Written w b).fate_taken ∙ drop_later 0 w.fates;
  same_limit = (write_channel-Written w b).limit_kept;
}

write_all-single :
    (w : Wire) (b : Bytes)
    → (leb w.max_write_chunk 0 || leb (length b) w.max_write_chunk) ≡ true
    → write_all w b ≡ ((write_channel w b).0, (write_channel w b).2)
unfolding write_all
write_all-single w b h = rw h

write_all-pieces :
    (w : Wire) (b : Bytes)
    → (leb w.max_write_chunk 0 || leb (length b) w.max_write_chunk) ≡ false
    → write_all w b ≡ write_pieces (length b) w.max_write_chunk w b
unfolding write_all
write_all-pieces w b h = rw h

-- `writeAll` writes the payload in order, in pieces that the channel takes at once; it stops at the first write that
-- fails, with an error, and not before; it returns no error exactly if every write was whole, and then
-- the pieces spell the whole payload.
pub write_all-Wrote :
    (w : Wire) (b : Bytes) → Wrote (write_limit w b) w (write_all w b).0 b (write_all w b).1
write_all-Wrote w b =
    elim (Bool-cases (leb w.max_write_chunk 0 || leb (length b) w.max_write_chunk)) [
      | inl one ↦ rw (write_all-single w b one) (single-Wrote (write_limit w b) w b (ground arith))
      | inr several ↦
          let unlimited : leb w.max_write_chunk 0 ≡ false = ground arith in
          rw (write_all-pieces w b several, unlimited)
            (write_pieces-Wrote (length b) w.max_write_chunk w b (ground arith) (omega arith))
    ]
