-- ===== src/Mcp/Answers.antt =====
-- Which responses the server writes.
use ptyrelay.Base.{
  ℕ, zero, suc, ltb, length, take, Bytes, List, [], ◌∷◌, Option, true, false, map_option, arith,
  none, some, ◌⊎◌, inl, inr, if◌then◌else◌, codes, map, ◌≡◌, refl, sym, ap, ◌∙◌, Bool-cases,
  Option-cases, Sum-cases,
}
use ptyrelay.Bytes.{same_bytes}
use ptyrelay.Bytes.Split.{is_empty}
use ptyrelay.Mcp.{
  Peer, RpcRequest, RpcResponse, ToolsCallParams, handle_method, handle, on_line, on_call,
  run_lines, run, next_fault, later_faults, Run, after_write, or_scan_error,
}

module _ {W C V E : Type 0} (peer : Peer W C V E) where
  -- The id that a line asks for an answer to.
  abbrev pub asked_by : Bytes → Option Bytes
  asked_by line =
      if is_empty line
      then none
      else elim (peer.parse_request line) [ inl e ↦ none | inr req ↦ req.id ]

  abbrev pub onto : Option Bytes → List Bytes → List Bytes
  onto none ids = ids
  onto (some id) ids = id ∷ ids

  abbrev pub asked : List Bytes → List Bytes
  asked [] = []
  asked (line ∷ lines) = onto (asked_by line) (asked lines)

  on_call-id :
      (id : Bytes) (r : Bytes ⊎ ToolsCallParams) (be : Option C) (w : W)
      → (on_call peer id r be w).2.id ≡ id
  on_call-id id (inl e) be w = refl
  on_call-id id (inr p) be w = refl

  handle_method-id :
      (id : Bytes) (req : RpcRequest) (be : Option C) (w : W)
      → (handle_method peer id req be w).2.id ≡ id
  unfolding handle_method
  handle_method-id id req be w =
      let m = req.method in
      elim (Bool-cases (same_bytes m (codes "initialize"))) [
        | inl h ↦ rw h refl
        | inr h1 ↦ elim (Bool-cases (same_bytes m (codes "tools/list"))) [
          | inl h ↦ rw (h1, h) refl
          | inr h2 ↦ elim (Bool-cases (same_bytes m (codes "tools/call"))) [
            | inl h ↦ rw (h1, h2, h) (on_call-id id (peer.parse_call req.params) be w)
            | inr h3 ↦ elim (Bool-cases (same_bytes m (codes "shutdown"))) [
              | inl h ↦ rw (h1, h2, h3, h) refl
              | inr h ↦ rw (h1, h2, h3, h) refl
            ]
          ]
        ]
      ]

  abbrev id_of : Option RpcResponse → Option Bytes
  id_of none = none
  id_of (some r) = some r.id

  handle-id : (req : RpcRequest) (be : Option C) (w : W) → id_of (handle peer req be w).2 ≡ req.id
  unfolding handle
  handle-id req be w = elim (Option-cases req.id) [
    | inl silent ↦ simp (silent)
    | inr (id, e) ↦ simp (e, handle_method-id id req be w)
  ]

  on_line-id :
      (line : Bytes) (be : Option C) (w : W) → id_of (on_line peer line be w).2 ≡ asked_by line
  unfolding on_line
  on_line-id line be w = elim (Bool-cases (is_empty line)) [
    | inl nothing ↦ rw nothing refl
    | inr some_text ↦ elim (Sum-cases (peer.parse_request line)) [
      | inl (e, malformed) ↦ rw (some_text, malformed) refl
      | inr (req, parsed) ↦ rw (some_text, parsed) (handle-id req be w)
    ]
  ]

  -- How many writes precede the first one that fails, and its error.
  abbrev pub first_fault : List (Option Bytes) → Option (ℕ × Bytes)
  first_fault [] = none
  first_fault (none ∷ fs) = map_option (λ (f : ℕ × Bytes). (suc f.0, f.1)) (first_fault fs)
  first_fault (some e ∷ fs) = some (0, e)

  -- The ids that are answered, and the error at the end, when no write fails, and when the write behind the
  -- first `k` fails with `e`.
  abbrev pub answered : List Bytes → Option Bytes → Option (ℕ × Bytes) → List Bytes × Option Bytes
  answered ids expected none = (ids, expected)
  answered ids expected (some (k, e)) =
      (take k ids, if ltb k (length ids) then some e else expected)

  abbrev pub Answered :
      List Bytes → List (Option Bytes) → List RpcResponse → Option Bytes → Option Bytes → Type 0
  Answered ids faults written error expected =
      (map (λ (r : RpcResponse). r.id) written, error) ≡ answered ids expected (first_fault faults)

  nothing_before : (k : ℕ) (e : Bytes) → ([], none) ≡ answered [] none (some (k, e))
  nothing_before zero e = refl
  nothing_before (suc k) e = let late : ltb (suc k) 0 ≡ false = ground arith in rw late refl

  Answered-none : (faults : List (Option Bytes)) → Answered [] faults [] none none
  Answered-none faults = elim (Option-cases (first_fault faults)) [
    | inl calm ↦ rw calm refl
    | inr ((k, e), late) ↦ rw late (nothing_before k e)
  ]

  abbrev also : Bytes → List Bytes × Option Bytes → List Bytes × Option Bytes
  also id (ids, error) = (id ∷ ids, error)

  answered-suc :
      (id : Bytes) (ids : List Bytes) (f : Option (ℕ × Bytes))
      → also id (answered ids none f)
        ≡ answered (id ∷ ids) none (map_option (λ (f : ℕ × Bytes). (suc f.0, f.1)) f)
  answered-suc id ids none = refl
  answered-suc id ids (some (k, e)) =
      let same : ltb (suc k) (length (id ∷ ids)) ≡ ltb k (length ids) = ground arith in rw same refl

  after_write-Answered :
      (ids : List Bytes) (faults : List (Option Bytes)) (resp : RpcResponse) (be : Option C) (w : W)
      (later : Run peer)
      → Answered ids (later_faults peer faults) later.written later.error none
      → let end = after_write peer resp be w (next_fault peer faults) later in
        Answered (resp.id ∷ ids) faults end.written end.error none
  after_write-Answered ids [] resp be w later h = ap (also resp.id) h
  after_write-Answered ids (none ∷ fs) resp be w later h =
      ap (also resp.id) h ∙ answered-suc resp.id ids (first_fault fs)
  after_write-Answered ids (some e ∷ fs) resp be w later h =
      let short : ltb 0 (length (resp.id ∷ ids)) ≡ true = ground arith in rw short refl

  run_lines-Answered :
      (lines : List Bytes) (faults : List (Option Bytes)) (be : Option C) (w : W)
      → let end = run_lines peer lines faults be w in
        Answered (asked lines) faults end.written end.error none
  unfolding run_lines
  run_lines-Answered [] faults be w = Answered-none faults
  run_lines-Answered (line ∷ lines) faults be w =
      let named = on_line-id line be w in
      let be2 = (on_line peer line be w).0 in
      let u = (on_line peer line be w).1 in
      elim (Option-cases (on_line peer line be w).2) [
        | inl silent ↦
            let none_asked : asked_by line ≡ none = sym named ∙ ap id_of silent in
            rw (run_lines, silent, none_asked) (run_lines-Answered lines faults be2 u)
        | inr (resp, spoken) ↦
            let id_asked : asked_by line ≡ some resp.id = sym named ∙ ap id_of spoken in
            rw (run_lines, spoken, id_asked)
              (after_write-Answered (asked lines) faults resp be2 u
                (run_lines peer lines (later_faults peer faults) be2 u)
                (run_lines-Answered lines (later_faults peer faults) be2 u))
      ]

  abbrev then_scan : Option Bytes → List Bytes × Option Bytes → List Bytes × Option Bytes
  then_scan scan_error (ids, error) = (ids, or_scan_error peer error scan_error)

  answered_scan :
      (ids : List Bytes) (scan_error : Option Bytes) (f : Option (ℕ × Bytes))
      → then_scan scan_error (answered ids none f) ≡ answered ids scan_error f
  answered_scan ids scan_error none = refl
  answered_scan ids scan_error (some (k, e)) = elim (Bool-cases (ltb k (length ids))) [
    | inl reached ↦ rw reached refl
    | inr unreached ↦ rw unreached refl
  ]

  -- The server answers each well-formed request with an id, and nothing else: its responses carry the ids of those
  -- requests, in order and once each, whatever the tools and the dialling answer. If a write fails, exactly the responses before it are
  -- written and the loop ends with its error; if none fails that is reached, all are, and the loop ends with the error
  -- of the scanner, if there is one.
  pub run-Answered :
      (lines : List Bytes) (scan_error : Option Bytes) (faults : List (Option Bytes)) (w : W)
      → let end = run peer lines scan_error faults w in
        Answered (asked lines) faults end.written end.error scan_error
  unfolding run
  run-Answered lines scan_error faults w =
      ap (then_scan scan_error) (run_lines-Answered lines faults none w)
      ∙ answered_scan (asked lines) scan_error (first_fault faults)
