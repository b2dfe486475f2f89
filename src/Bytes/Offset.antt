-- ===== src/Bytes/Offset.antt =====
-- What a search finds behind bytes that have been taken from the front of the text.
use ptyrelay.Base.{
  ℕ, suc, ◌+◌, ◌<◌, Bytes, ◌∷◌, ◌++◌, ◌≡◌, ap, ◌∙◌, none, some, length, drop, arith, Option-cases,
  inl, inr, Lacks, length-append, length-drop, drop-length, drop-drop, append_assoc,
}
use ptyrelay.Bytes.{index}
use ptyrelay.Bytes.Index.{at_marker, at_marker-some, index-append, index_bound, index-sep}

-- A search that finds nothing finds nothing in the front of the text.
index-none-append : (a r m : Bytes) → index (a ++ r) m ≡ none → index a m ≡ none
index-none-append a r m h = elim (Option-cases (index a m)) [
  | inl e ↦ e
  | inr (i, e) ↦ absurd (let f = index-append a r m i e in cc)
]

-- A marker that does not occur in a text is found behind the text's separator only.
pub at_marker-sep :
    (a r t m : Bytes) (c : ℕ)
    → Lacks c m
    → 0 < length m
    → index (a ++ c ∷ r) m ≡ none
    → at_marker ((a ++ c ∷ r) ++ t) m ≡ at_marker (r ++ t) m
unfolding at_marker
at_marker-sep a r t m c l p h =
    let absent = index-none-append a (c ∷ r) m h in
    let found = index-sep a (r ++ t) m c l p absent in
    elim (Option-cases (index (r ++ t) m)) [
      | inl e ↦ rw (append_assoc a (c ∷ r) t, found, e)
      | inr (j, e) ↦
          rw (append_assoc a (c ∷ r) t, found, e)
            (ap some (
              drop-drop (length a) (suc j) (a ++ c ∷ (r ++ t)) ∙ rw (drop-length a (c ∷ (r ++ t)))))
    ]

-- What a search finds behind bytes in which no occurrence starts.
pub at_marker-offset :
    (w b m : Bytes) (j : ℕ)
    → at_marker (w ++ b) m ≡ at_marker b m
    → index b m ≡ some j
    → index (w ++ b) m ≡ some (length w + j)
unfolding at_marker
at_marker-offset w b m j h e =
    let there : at_marker (w ++ b) m ≡ some (drop j b) = h ∙ rw e in
    let (i, f, g) = at_marker-some (w ++ b) m (drop j b) there in
    let inside = index_bound (w ++ b) m i f in
    let within = index_bound b m j e in
    f
    ∙ ap some
        (omega (arith, ap length g, length-drop i (w ++ b), length-drop j b, length-append w b))
