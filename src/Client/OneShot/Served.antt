-- ===== src/Client/OneShot/Served.antt =====
-- A call by a one-shot agent, over a remote on which the commands do what they say.
use ptyrelay.Base.{
  ℕ, zero, suc, ◌<◌, ◌≤◌, Bool, true, false, Bytes, List, [], ◌∷◌, ◌++◌, Option, some, ◌⊎◌, inl,
  inr, if◌then◌else◌, ltb, length, pos, ◌≡◌, refl, ap, ◌∙◌, arith, flatten, append_assoc,
  append-nil, take, drop, take-append-drop, length-drop, map,
}
use ptyrelay.Base64.{encode, decode, pieces}
use ptyrelay.Base64.Groups.{Octets, decode-encode}
use ptyrelay.Proto.{Op, Request, Response, version}
use ptyrelay.Session.Drive.{RunResult, SessionError}
use ptyrelay.Shell.State.{Session}
use ptyrelay.Agent.Os.{Failure}
use ptyrelay.Agent.Dispatch.{Env, dispatch, run_one_shot, exit_on_err}
use ptyrelay.Client.Errors.{map_err_kind}
use ptyrelay.Client.Repl.{Client, next_id, format_hex}
use ptyrelay.Client.OneShot.{
  OneShotError, remote, decode_payload, request_chunk_size, request_path, stage_request, agent_cmd,
  stage_pieces, stage_text, exchange, call_one_shot,
}

abbrev quiet : SessionError ⊎ RunResult
quiet = inr (record { output = []; exit_code = pos 0 })

-- A remote with a session that does not fail, on which `printf` with a redirection writes or extends a
-- file and touches nothing that the agent works on, and on which the last command runs the agent on the
-- decoded file: if that prints nothing to its standard error, the output is what it wrote. `write_response` is `WriteOneShot`,
-- `read_request` is `ReadOneShot`, and `is_eof` is `errors.Is` of `io.EOF`; `usable` says of a path that the shell may write
-- there, and that the agent's state is elsewhere.
pub record OneShotRemote {S T : Type 0} (run_framed : Session S) (env : Env T) (agent_path : Bytes)
    (read_request : Bytes → Failure ⊎ Request) (write_response : Response → Bytes)
    (is_eof : Failure → Bool) : Type 0 where
  pub usable : Bytes → Bool
  pub state : S → T
  pub content : S → Bytes → Option Bytes
  pub stage_works :
      (piece temp : Bytes) (first : Bool) (s : S)
      → usable temp ≡ true
      → (run_framed (stage_request piece first temp) [] s).1 ≡ quiet
  pub stage_spares :
      (piece temp : Bytes) (first : Bool) (s : S)
      → usable temp ≡ true
      → state (run_framed (stage_request piece first temp) [] s).0 ≡ state s
  pub stage_first :
      (piece temp : Bytes) (s : S)
      → usable temp ≡ true
      → content (run_framed (stage_request piece true temp) [] s).0 temp ≡ some piece
  pub stage_more :
      (piece temp old : Bytes) (s : S)
      → usable temp ≡ true
      → content s temp ≡ some old
      → content (run_framed (stage_request piece false temp) [] s).0 temp ≡ some (old ++ piece)
  pub agent_state :
      (temp text stdin : Bytes) (s : S)
      → content s temp ≡ some text
      → decode text ≡ some stdin
      → state (run_framed (agent_cmd agent_path temp) [] s).0
        ≡ (run_one_shot env [] (read_request stdin) (state s)).state
  pub agent_prints :
      (temp text stdin : Bytes) (s : S)
      → content s temp ≡ some text
      → decode text ≡ some stdin
      → let served = run_one_shot env [] (read_request stdin) (state s) in
        (exit_on_err is_eof served.error).0 ≡ []
        → (run_framed (agent_cmd agent_path temp) [] s).1
          ≡ inr (record {
            output = flatten (map write_response served.written);
            exit_code = (exit_on_err is_eof served.error).1;
          })

flatten-pieces :
    (fuel size : ℕ) (b : Bytes) → 0 < size → length b ≤ fuel → flatten (pieces fuel size b) ≡ b
unfolding pieces
flatten-pieces zero size [] some_size fits = refl
flatten-pieces zero size (x ∷ b) some_size fits = absurd (omega arith)
flatten-pieces (suc fuel) size [] some_size fits = refl
flatten-pieces (suc fuel) size (x ∷ b) some_size fits =
    ap (◌++◌ (take size (x ∷ b))) (
      flatten-pieces fuel size (drop size (x ∷ b)) some_size
        (omega (arith, length-drop size (x ∷ b))))
    ∙ take-append-drop size (x ∷ b)

module _ {S T : Type 0} (run_framed : Session S) (env : Env T) (agent_path : Bytes)
    (read_request : Bytes → Failure ⊎ Request) (write_response : Response → Bytes)
    (is_eof : Failure → Bool)
    (far : OneShotRemote run_framed env agent_path read_request write_response is_eof) where
  -- The file holds `text`, and nothing else has changed.
  abbrev IsStaged : Bytes → Bytes → S → S × (OneShotError ⊎ Unit {0}) → Type 0
  IsStaged temp text s (t, r) =
      (r ≡ inr tt) × (far.content t temp ≡ some text) × (far.state t ≡ far.state s)

  append-IsStaged :
      (temp old : Bytes) (ps : List Bytes) (s : S)
      → far.usable temp ≡ true
      → far.content s temp ≡ some old
      → IsStaged temp (old ++ flatten ps) s (stage_pieces run_framed temp false ps s)
  unfolding stage_pieces
  append-IsStaged temp old [] s here h = (refl, rw (append-nil old) h, refl)
  append-IsStaged temp old (p ∷ ps) s here h =
      let t = (run_framed (stage_request p false temp) [] s).0 in
      let (a, b, c) =
        append-IsStaged temp (old ++ p) ps t here (far.stage_more p temp old s here h) in
      rw (far.stage_works p temp false s here)
        (a, rw (append_assoc old p (flatten ps)) at b, c ∙ far.stage_spares p temp false s here)

  stage_text-IsStaged :
      (temp : Bytes) (ps : List Bytes) (s : S)
      → far.usable temp ≡ true
      → 0 < length (flatten ps)
      → IsStaged temp (flatten ps) s (stage_text run_framed temp ps s)
  unfolding stage_pieces
  stage_text-IsStaged temp [] s here h = absurd (omega arith)
  stage_text-IsStaged temp (p ∷ ps) s here h =
      let t = (run_framed (stage_request p true temp) [] s).0 in
      let (a, b, c) = append-IsStaged temp p ps t here (far.stage_first p temp s here) in
      rw (far.stage_works p temp true s here) (a, b, c ∙ far.stage_spares p temp true s here)

nonempty_code : (b e : Bytes) → decode e ≡ some b → 0 < length b → 0 < length e
unfolding decode
nonempty_code b [] h some_byte = absurd (let same : [] ≡ b = cc in omega (arith, ap length same))
nonempty_code b (x ∷ e) h some_byte = omega arith

-- The request of a call.
abbrev pub request_of : Client → Op → Bytes → Request
request_of c op args = record { v = version; id = format_hex (next_id c); op = op; args = args }

-- What a caller is to get of a response: its data where there are any, or its error.
abbrev pub reply : {A : Type 0} → (Bytes → Bytes ⊎ A) → A → Response → OneShotError ⊎ A
reply parse empty resp =
    if resp.ok
    then (if ltb 0 (length resp.payload)
        then elim (parse resp.payload) [ inl e ↦ inl (decode_payload e) | inr a ↦ inr a ]
        else inr empty)
    else inl (remote (map_err_kind resp.err_kind resp.err))

module _ {S T A : Type 0} (run_framed : Session S) (env : Env T) (agent_path : Bytes)
    (read_request : Bytes → Failure ⊎ Request) (write_response : Response → Bytes)
    (is_eof : Failure → Bool)
    (far : OneShotRemote run_framed env agent_path read_request write_response is_eof)
    (read_response : Bytes → Bytes ⊎ Response) (parse : Bytes → Bytes ⊎ A) (empty : A) where
  -- The codec reads back the response to the request.
  abbrev pub Returns : Request → S → Type 0
  Returns req s =
      let resp = (dispatch env req (far.state s)).1 in
      read_response (write_response resp) ≡ inr resp

  -- The caller has the answer of `dispatch` to the request, and the remote what it left.
  abbrev pub IsServed : Request → S → S × (OneShotError ⊎ A) → Type 0
  IsServed req s (t, r) =
      let (u, resp) = dispatch env req (far.state s) in
      (r ≡ reply parse empty resp) × (far.state t ≡ u)

  exchange-IsServed :
      (temp text : Bytes) (req : Request) (s : S)
      → far.usable temp ≡ true
      → read_request text ≡ inr req
      → Octets text
      → 0 < length text
      → Returns req s
      → IsServed req s (exchange run_framed read_response parse empty agent_path temp text s)
  unfolding exchange run_one_shot
  exchange-IsServed temp text req s here reads octets some_byte read_back =
      let code = encode text in
      let ps = pieces (length code) request_chunk_size code in
      let back = decode-encode text octets in
      let spelled : flatten ps ≡ code =
        flatten-pieces (length code) request_chunk_size code (omega arith) (omega arith) in
      let long : 0 < length (flatten ps) = rw spelled (nonempty_code text code back some_byte) in
      let (a, b, c) =
        stage_text-IsStaged run_framed env agent_path read_request write_response is_eof far temp ps
          s here long in
      let t = (stage_text run_framed temp ps s).0 in
      let held = b ∙ ap some spelled in
      let resp = (dispatch env req (far.state s)).1 in
      let prints = far.agent_prints temp code text t held back (rw reads refl) in
      let leaves = far.agent_state temp code text t held back in
      let read : read_response (write_response resp ++ []) ≡ inr resp =
        ap read_response (append-nil (write_response resp)) ∙ read_back in
      rw (a, rw (reads, c) at prints) (rw read, rw (reads, c) at leaves)

  -- A call by a one-shot agent returns what the agent's dispatch answers to its request, and leaves the remote
  -- as that leaves it, however many commands the request was staged by; the next call has another id. The session
  -- does not fail and its commands do what they say, the shell may write to the path of the request, the codec reads back what it wrote, and the request's text is
  -- some bytes, not none.
  pub call_one_shot-IsServed :
      (write_request : Request → Bytes ⊎ Bytes) (stamp : Bytes) (op : Op) (args text : Bytes)
      (c : Client) (s : S)
      → let req = request_of c op args in
        write_request req ≡ inr text
        → read_request text ≡ inr req
        → Octets text
        → 0 < length text
        → far.usable (request_path (format_hex (next_id c)) stamp) ≡ true
        → Returns req s
        → let (d, t, r) =
            call_one_shot run_framed read_response parse empty write_request agent_path stamp op
              (inr args)
              c
              s in
          IsServed req s (t, r) × (d.id_counter ≡ next_id c)
  unfolding call_one_shot
  call_one_shot-IsServed write_request stamp op args text c s writes reads octets some_byte here
        read_back =
      let req = request_of c op args in
      let (a, b) =
        exchange-IsServed (request_path (format_hex (next_id c)) stamp) text req s here reads octets
          some_byte read_back in
      rw writes ((a, b), refl)
