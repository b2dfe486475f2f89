-- ===== src/Session/Wire.antt =====
-- The channel as the session writes to it (`Channel.Write` and `Caps.MaxWriteChunk` of
-- pkg/channel/channel.go), and the writers of pkg/session/framed.go: `writeChannel`, `writeAll` and
-- `channelWriter.Write`. An implementation is known by what it is given and by which of its writes
-- fail, so a wire carries the writes made so far and the faults to come.
pub mod Pieces
use ptyrelay.Base.{
  ℕ, zero, suc, ◌+◌, Bool, true, false, ◌||◌, Bytes, List, [], ◌∷◌, ◌++◌, leb, if◌then◌else◌,
  length, take, drop,
}

-- The outcome of a write: all of the bytes, or an error after `short` of them.
pub data Fate : Type 0 where
  whole : Fate
  fault : ℕ → Fate

pub record Wire : Type 0 where
  pub sent : List Bytes
  pub fates : List Fate
  pub max_write_chunk : ℕ

abbrev pub next_fate : List Fate → Fate
next_fate [] = whole
next_fate (f ∷ _) = f

abbrev pub later_fates : List Fate → List Fate
later_fates [] = []
later_fates (_ ∷ fs) = fs

-- How many bytes `Write` reports, and whether it fails.
abbrev pub reported : Fate → ℕ → ℕ × Bool
reported whole n = (n, true)
reported (fault short) n = (short, false)

-- `Channel.Write`; the flag is `err == nil`.
unfoldable pub write_channel : Wire → Bytes → Wire × ℕ × Bool
write_channel w b =
    let (n, fine) = reported (next_fate w.fates) (length b) in
    (record w { sent = w.sent ++ b ∷ []; fates = later_fates w.fates }, n, fine)

-- The loop of `writeAll`, on the bytes behind `off`. A round takes a byte at least, so there is a
-- round for each byte.
unfoldable pub write_pieces : ℕ → ℕ → Wire → Bytes → Wire × Bool
write_pieces zero chunk w rest = (w, true)
write_pieces (suc fuel) chunk w [] = (w, true)
write_pieces (suc fuel) chunk w (x ∷ rest) =
    let b = x ∷ rest in
    let (w', _, fine) = write_channel w (take chunk b) in
    let others = write_pieces fuel chunk w' (drop chunk b) in if fine then others else (w', false)

-- `writeAll`; the flag is `err == nil`.
unfoldable pub write_all : Wire → Bytes → Wire × Bool
write_all w b =
    let chunk = w.max_write_chunk in
    if leb chunk 0 || leb (length b) chunk
    then (let (w', _, fine) = write_channel w b in (w', fine))
    else write_pieces (length b) chunk w b

-- The loop of `channelWriter.Write`, with the count of the bytes written.
unfoldable pub count_pieces : ℕ → ℕ → Wire → ℕ → Bytes → Wire × ℕ × Bool
count_pieces zero chunk w written rest = (w, written, true)
count_pieces (suc fuel) chunk w written [] = (w, written, true)
count_pieces (suc fuel) chunk w written (x ∷ rest) =
    let b = x ∷ rest in
    let (w', n, fine) = write_channel w (take chunk b) in
    let others = count_pieces fuel chunk w' (written + n) (drop chunk b) in
    if fine then others else (w', written + n, false)

-- `channelWriter.Write`.
unfoldable pub writer_write : Wire → Bytes → Wire × ℕ × Bool
writer_write w b =
    let chunk = w.max_write_chunk in
    if leb chunk 0 || leb (length b) chunk
    then write_channel w b
    else count_pieces (length b) chunk w 0 b
