-- ===== src/Session/Sentinel/Markers.antt =====
-- Which bytes the markers hold: letters, underscores, a colon, and those of the nonce.
use ptyrelay.Base.{
  ℕ, ◌≢◌, ◌++◌, Bytes, Lacks, All-append, ◌+◌, ◌≡◌, codes, length, length-append, arith,
}
use ptyrelay.Session.Sentinel.{beg_marker_of, end_marker_of}

Lacks-around :
    (c : ℕ) (head nonce tail : Bytes)
    → Lacks c head
    → Lacks c nonce
    → Lacks c tail
    → Lacks c (head ++ (nonce ++ tail))
Lacks-around c head nonce tail h n t =
    All-append (λ (x : ℕ). x ≢ c) head (nonce ++ tail) h
      (All-append (λ (x : ℕ). x ≢ c) nonce tail n t)

pub Lacks-beg_marker :
    (c : ℕ) (nonce : Bytes)
    → Lacks c (codes "__PR_BEG_")
    → Lacks c nonce
    → Lacks c (beg_marker_of nonce)
Lacks-beg_marker c nonce h n =
    Lacks-around c (codes "__PR_BEG_") nonce (codes "__") h n (h.0, (h.1.0, tt))

pub Lacks-end_marker :
    (c : ℕ) (nonce : Bytes)
    → Lacks c (codes "__PR_END_:")
    → Lacks c nonce
    → Lacks c (end_marker_of nonce)
Lacks-end_marker c nonce h n =
    Lacks-around c (codes "__PR_END_") nonce (codes "__:") (omega arith) n (omega arith)

pub length-beg_marker : (nonce : Bytes) → length (beg_marker_of nonce) ≡ 11 + length nonce
length-beg_marker nonce = omega (arith, length-append nonce (codes "__"))

pub length-end_marker : (nonce : Bytes) → length (end_marker_of nonce) ≡ 12 + length nonce
length-end_marker nonce = omega (arith, length-append nonce (codes "__:"))
