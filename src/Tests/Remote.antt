-- ===== src/Tests/Remote.antt =====
-- A remote that reads the command lines of the shell backend's write and does what they say.
use ptyrelay.Base.{
  ℕ, ◌≡◌, ◌≢◌, ◌<◌, refl, sym, ap, ◌∙◌, [], ◌∷◌, ◌++◌, ◌==◌, Bytes, Bool, true, false, Option, none,
  some, inr, ◌⊎◌, codes, pos, if◌then◌else◌, drop, append_assoc, append-nil, arith,
}
use ptyrelay.Tests.Disk.{Disk, put, put_same, put_other}
use ptyrelay.Bytes.{replace_loop}
use ptyrelay.Bytes.Split.{format_octal}
use ptyrelay.Base64.{decode}
use ptyrelay.Quote.{quote, escaped_quote}
use ptyrelay.Quote.RoundTrip.{quoted_text, quoted_text-cons, quote-quotes}
use ptyrelay.Session.Drive.{RunResult, SessionError}
use ptyrelay.Shell.State.{Session}
use ptyrelay.Shell.Ops.{remove_cmd, perm}
use ptyrelay.Shell.Write.{stage_cmd, empty_cmd, digest_cmd, finalize_cmd, redirect_of}
use ptyrelay.Shell.Write.Remote.{Remote}

-- Where a reader of quoted text stands: in the text, behind a quote, and inside an escaped quote.
pub data Place : Type 0 where
  inside behind_quote behind_backslash behind_escape : Place

-- The quoted text, and what follows it.
unfoldable pub unquote : Place → Bytes → Bytes → Bytes × Bytes
unquote p w [] = (w, [])
unquote inside w (c ∷ b) =
    let end = unquote behind_quote w b in
    let on = unquote inside (w ++ c ∷ []) b in if c == b'\'' then end else on
unquote behind_quote w (c ∷ b) =
    let on = unquote behind_backslash w b in if c == b'\\' then on else (w, c ∷ b)
unquote behind_backslash w (c ∷ b) = unquote behind_escape (w ++ c ∷ []) b
unquote behind_escape w (c ∷ b) = unquote inside w b

unquote-byte :
    (w : Bytes) (c : ℕ) (rest : Bytes)
    → unquote inside w ((if c == b'\'' then escaped_quote else c ∷ []) ++ rest)
      ≡ unquote inside (w ++ c ∷ []) rest
unfolding unquote
unquote-byte w c rest = ground arith

unquote-quoted_text :
    (s w rest : Bytes) → unquote inside w (quoted_text s ++ rest) ≡ unquote inside (w ++ s) rest
unquote-quoted_text [] w rest = unfold quoted_text replace_loop in rw append-nil
unquote-quoted_text (c ∷ s) w rest =
    rw (quoted_text-cons c s, append_assoc)
      (unquote-byte w c (quoted_text s ++ rest)
        ∙ unquote-quoted_text s (w ++ c ∷ []) rest
        ∙ rw append_assoc)

-- The first quoted text of a line that begins with a quote.
abbrev pub first_quoted : Bytes → Bytes × Bytes
first_quoted b = unquote inside [] (drop 1 b)

pub first_quoted-space : (s rest : Bytes) → first_quoted (quote s ++ b' ' ∷ rest) ≡ (s, b' ' ∷ rest)
unfolding unquote
first_quoted-space s rest =
    ap first_quoted (quote-quotes s (b' ' ∷ rest)) ∙ unquote-quoted_text s [] (b'\'' ∷ b' ' ∷ rest)

pub first_quoted-end : (s : Bytes) → first_quoted (quote s) ≡ (s, [])
unfolding unquote
first_quoted-end s =
    ap first_quoted (sym (append-nil (quote s)) ∙ quote-quotes s [])
    ∙ unquote-quoted_text s [] (b'\'' ∷ [])

abbrev pub finished : ℕ → SessionError ⊎ RunResult
finished n = inr (record { output = []; exit_code = pos n })

abbrev appended : Option Bytes → Bytes → Option Bytes
appended none raw = some raw
appended (some old) raw = some (old ++ raw)

-- `printf '%s' <piece> | base64 -d > <file>`, or `>>`, at what the piece is decoded to.
abbrev stage : Bool → Bytes → Option Bytes → Disk → Disk × (SessionError ⊎ RunResult)
stage more temp none d = (d, finished 1)
stage true temp (some raw) d = (put d temp (appended (d temp) raw), finished 0)
stage false temp (some raw) d = (put d temp (some raw), finished 0)

-- The byte behind ` | base64 -d >` tells the two redirections apart.
abbrev is_more : Bytes → Bool
is_more (c ∷ _) = c == b'>'
is_more [] = false

abbrev stage_line : Bytes × Bytes → Disk → Disk × (SessionError ⊎ RunResult)
stage_line (piece, rest) d =
    let more = is_more (drop 14 rest) in
    stage more (first_quoted (drop (if more then 16 else 15) rest)).0 (decode piece) d

-- The rest of a line from its first quote on.
unfoldable pub from_quote : Bytes → Bytes
from_quote [] = []
from_quote (c ∷ b) = let rest = from_quote b in if c == b'\'' then c ∷ b else rest

abbrev move_line : Bytes → Disk → Disk × (SessionError ⊎ RunResult)
move_line b d =
    let (temp, rest) = first_quoted b in
    let path = (first_quoted (drop 1 (first_quoted (drop 7 rest)).1)).0 in
    (put d path (d temp), finished 0)

-- `sha256sum -- <file> | awk '{print $1}'`, where the digest of a file is its text.
abbrev digest_line : Option Bytes → Disk → Disk × (SessionError ⊎ RunResult)
digest_line none d = (d, finished 1)
digest_line (some raw) d = (d, inr (record { output = raw ++ b'\n' ∷ []; exit_code = pos 0 }))

digest_line_keeps : (o : Option Bytes) (d : Disk) → (digest_line o d).0 ≡ d
digest_line_keeps none d = refl
digest_line_keeps (some raw) d = refl

-- The lines of a write: they begin with printf, a colon, chmod, rm and sha256sum.
unfoldable pub obey : Session Disk
obey [] stdin d = (d, finished 0)
obey (c ∷ b) stdin d =
    if c == b'p'
    then stage_line (first_quoted (drop 11 b)) d
    else if c == b':'
    then (put d (first_quoted (drop 3 b)).0 (some []), finished 0)
    else if c == b'r'
    then (put d (first_quoted (drop 5 b)).0 none, finished 0)
    else if c == b'c'
    then move_line (from_quote b) d
    else if c == b's'
    then digest_line (d (first_quoted (drop 12 b)).0) d
    else (d, finished 0)

obey-first :
    (piece temp : Bytes) (d : Disk)
    → obey (stage_cmd piece (codes ">") temp) [] d ≡ stage false temp (decode piece) d
unfolding obey stage_cmd
obey-first piece temp d =
    ap (λ z. stage_line z d) (first_quoted-space piece (codes "| base64 -d > " ++ quote temp))
    ∙ ap (λ (z : Bytes × Bytes). stage false z.0 (decode piece) d) (first_quoted-end temp)

obey-more :
    (piece temp : Bytes) (d : Disk)
    → obey (stage_cmd piece (codes ">>") temp) [] d ≡ stage true temp (decode piece) d
unfolding obey stage_cmd
obey-more piece temp d =
    ap (λ z. stage_line z d) (first_quoted-space piece (codes "| base64 -d >> " ++ quote temp))
    ∙ ap (λ (z : Bytes × Bytes). stage true z.0 (decode piece) d) (first_quoted-end temp)

obey-empty :
    (temp : Bytes) (d : Disk) → obey (empty_cmd temp) [] d ≡ (put d temp (some []), finished 0)
unfolding obey empty_cmd
obey-empty temp d = rw (first_quoted-end temp) refl

obey-remove :
    (temp : Bytes) (d : Disk) → obey (remove_cmd temp) [] d ≡ (put d temp none, finished 0)
unfolding obey remove_cmd
obey-remove temp d = rw (first_quoted-end temp) refl

obey-digest : (temp : Bytes) (d : Disk) → obey (digest_cmd [] temp) [] d ≡ (d, finished 0)
unfolding obey digest_cmd
obey-digest temp d = refl

from_quote-quote : (s rest : Bytes) → from_quote (quote s ++ rest) ≡ quote s ++ rest
unfolding from_quote
from_quote-quote s rest = ap from_quote (quote-quotes s rest) ∙ sym (quote-quotes s rest)

from_quote-octal :
    (m : ℕ) (rest : Bytes) → m < 512 → from_quote (format_octal m ++ rest) ≡ from_quote rest
unfolding from_quote
from_quote-octal m rest h = ground arith

move_line-quotes :
    (temp path : Bytes) (d : Disk)
    → move_line (quote temp ++ (codes " && mv " ++ (quote temp ++ b' ' ∷ quote path))) d
      ≡ (put d path (d temp), finished 0)
move_line-quotes temp path d =
    ap
      (λ (z : Bytes × Bytes).
        (put d (first_quoted (drop 1 (first_quoted (drop 7 z.1)).1)).0 (d z.0), finished 0))
      (first_quoted-space temp (codes "&& mv " ++ (quote temp ++ b' ' ∷ quote path)))
    ∙ ap (λ (z : Bytes × Bytes). (put d (first_quoted (drop 1 z.1)).0 (d temp), finished 0))
        (first_quoted-space temp (quote path))
    ∙ ap (λ (z : Bytes × Bytes). (put d z.0 (d temp), finished 0)) (first_quoted-end path)

obey-finalize :
    (mode : ℕ) (temp path : Bytes) (d : Disk)
    → obey (finalize_cmd mode temp path) [] d ≡ (put d path (d temp), finished 0)
unfolding obey finalize_cmd from_quote
obey-finalize mode temp path d =
    let line = quote temp ++ (codes " && mv " ++ (quote temp ++ b' ' ∷ quote path)) in
    ap (λ z. move_line z d)
      (from_quote-octal (perm mode) (b' ' ∷ line) (omega arith)
        ∙ from_quote-quote temp (codes " && mv " ++ (quote temp ++ b' ' ∷ quote path)))
    ∙ move_line-quotes temp path d

stage_other :
    (more : Bool) (temp p : Bytes) (o : Option Bytes) (d : Disk)
    → temp ≢ p
    → (stage more temp o d).0 p ≡ d p
stage_other more temp p none d n = refl
stage_other true temp p (some raw) d n = put_other d temp p (appended (d temp) raw) n
stage_other false temp p (some raw) d n = put_other d temp p (some raw) n

abbrev Ran : Type 0
Ran = Disk × (SessionError ⊎ RunResult)

obey_spares :
    (piece temp p : Bytes) (first : Bool) (d : Disk)
    → temp ≢ p
    → (obey (stage_cmd piece (redirect_of first) temp) [] d).0 p ≡ d p
obey_spares piece temp p true d n =
    ap (λ (z : Ran). z.0 p) (obey-first piece temp d) ∙ stage_other false temp p (decode piece) d n
obey_spares piece temp p false d n =
    ap (λ (z : Ran). z.0 p) (obey-more piece temp d) ∙ stage_other true temp p (decode piece) d n

-- The remote keeps what is relied on.
pub obey_Remote : Remote obey []
obey_Remote = record {
  content = λ d p. d p;
  is_dir = λ d p. false;
  stage_spares = obey_spares;
  stage_first = λ piece temp raw d h done.
      ap (λ (z : Ran). z.0 temp) (obey-first piece temp d)
      ∙ ap (λ o. (stage false temp o d).0 temp) h
      ∙ put_same d temp (some raw);
  stage_more = λ piece temp old raw d k h done.
      ap (λ (z : Ran). z.0 temp) (obey-more piece temp d)
      ∙ ap (λ o. (stage true temp o d).0 temp) h
      ∙ put_same d temp (appended (d temp) raw)
      ∙ ap (λ o. appended o raw) k;
  empty_spares =
      λ temp p d n. ap (λ (z : Ran). z.0 p) (obey-empty temp d) ∙ put_other d temp p (some []) n;
  emptied =
      λ temp d done. ap (λ (z : Ran). z.0 temp) (obey-empty temp d) ∙ put_same d temp (some []);
  digest_keeps = λ temp p d. ap (λ (z : Ran). z.0 p) (obey-digest temp d);
  remove_spares =
      λ temp p d n. ap (λ (z : Ran). z.0 p) (obey-remove temp d) ∙ put_other d temp p none n;
  finalize_whole = λ mode temp path d.
      inr (ap (λ (z : Ran). z.0 path) (obey-finalize mode temp path d) ∙ put_same d path (d temp));
  finalized = λ mode temp path d done plain.
      ap (λ (z : Ran). z.0 path) (obey-finalize mode temp path d) ∙ put_same d path (d temp);
}

hashing_keeps :
    (temp p : Bytes) (d : Disk)
    → obey_Remote.content (obey (digest_cmd (codes "sha256sum") temp) [] d).0 p
      ≡ obey_Remote.content d p
unfolding obey digest_cmd
hashing_keeps temp p d =
    ap (λ e. obey_Remote.content e p)
      (digest_line_keeps
        (d
          (first_quoted
            (drop 12 (codes "ha256sum -- " ++ (quote temp ++ codes " | awk '{print $1}'")))).0)
        d)

-- The same with a digest command.
pub hashed_Remote : Remote obey (codes "sha256sum")
hashed_Remote = record {
  content = obey_Remote.content;
  is_dir = obey_Remote.is_dir;
  stage_spares = obey_Remote.stage_spares;
  stage_first = obey_Remote.stage_first;
  stage_more = obey_Remote.stage_more;
  empty_spares = obey_Remote.empty_spares;
  emptied = obey_Remote.emptied;
  digest_keeps = hashing_keeps;
  remove_spares = obey_Remote.remove_spares;
  finalize_whole = obey_Remote.finalize_whole;
  finalized = obey_Remote.finalized;
}

pub hashed-plain : (d : Disk) (p : Bytes) → hashed_Remote.is_dir d p ≡ false
unfolding obey_Remote hashed_Remote
hashed-plain d p = refl

-- The remote has no directories.
pub obey-plain : (d : Disk) (p : Bytes) → obey_Remote.is_dir d p ≡ false
unfolding obey_Remote
obey-plain d p = refl
