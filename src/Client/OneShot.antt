-- ===== src/Client/OneShot.antt =====
-- `callOneShot`, `callOp`'s other branch and `Probe` of pkg/backend/agent/agent.go: a call that starts an
-- agent for one request. The session, the JSON codec and the time in the temporary name are parameters.
pub mod Served
use ptyrelay.Base.{
  ℕ, zero, suc, ◌+◌, Bool, true, false, Bytes, List, [], ◌∷◌, ◌++◌, Option, none, some, ◌⊎◌, inl,
  inr, if◌then◌else◌, ltb, ◌==◌, length, codes, ℤ, pos, negsuc,
}
use ptyrelay.Base.Step.{Step, ◌>>=◌, ◌>>◌, return, throw, lift}
use ptyrelay.Base64.{encode, pieces}
use ptyrelay.Quote.{quote}
use ptyrelay.Proto.{Op, ping, Request, Response, version}
use ptyrelay.Session.Drive.{RunResult, SessionError}
use ptyrelay.Shell.State.{Session, is_zero}
use ptyrelay.Client.Errors.{ClientError, map_err_kind}
use ptyrelay.Client.Repl.{Client, next_id, format_hex}

-- `requestChunkSize`.
abbrev pub request_chunk_size : ℕ
request_chunk_size = 512

-- The errors of a call, apart from those of the agent, which are `remote`.
pub data OneShotError : Type 0 where
  marshal_args encode_request decode_payload : Bytes → OneShotError
  stage_failed stage_empty_failed run_failed : SessionError → OneShotError
  stage_exited agent_exited : ℤ → Bytes → OneShotError
  decode_response : Bytes → Bytes → OneShotError
  remote : ClientError → OneShotError

-- A computation over the remote's state that may fail.
abbrev pub Call : Type 0 → Type 0 → Type 0
Call S A = Step S OneShotError A

unfoldable pub request_path : Bytes → Bytes → Bytes
request_path id stamp = codes "/tmp/ptr-req." ++ (id ++ (codes "." ++ stamp))

abbrev pub redirect_of : Bool → Bytes
redirect_of first = if first then codes ">" else codes ">>"

-- The command that writes the first piece, or appends another.
unfoldable pub stage_request : Bytes → Bool → Bytes → Bytes
stage_request piece first temp =
    codes "printf '%s' "
    ++ (quote piece ++ (codes " " ++ (redirect_of first ++ (codes " " ++ quote temp))))

unfoldable pub stage_nothing : Bytes → Bytes
stage_nothing temp = codes ": > " ++ quote temp

unfoldable pub agent_cmd : Bytes → Bytes → Bytes
agent_cmd agent_path temp =
    codes "( base64 -d < "
    ++ (quote temp
        ++ (codes " | "
            ++ (quote agent_path
                ++ (codes " --mode=one-shot; rc=$?; rm -f "
                    ++ (quote temp ++ codes "; exit $rc )")))))

abbrev pub or_failed :
    (SessionError → OneShotError) → SessionError ⊎ RunResult → OneShotError ⊎ RunResult
or_failed wrap (inl e) = inl (wrap e)
or_failed wrap (inr r) = inr r

abbrev pub must_stage : RunResult → OneShotError ⊎ Unit {0}
must_stage r = if is_zero r.exit_code then inr tt else inl (stage_exited r.exit_code r.output)

module _ {S : Type 0} (run_framed : Session S) where
  abbrev pub framed : (SessionError → OneShotError) → Bytes → Call S RunResult
  framed wrap cmd s = let (t, r) = run_framed cmd [] s in (t, or_failed wrap r)

  -- The loop over the pieces; `first` says that none was written yet.
  unfoldable pub stage_pieces : Bytes → Bool → List Bytes → Call S Unit
  stage_pieces temp first [] = return tt
  stage_pieces temp first (piece ∷ more) = do
    r ← framed stage_failed (stage_request piece first temp)
    lift (must_stage r)
    stage_pieces temp false more

  -- Without a piece the file is made all the same; its exit code is not looked at.
  abbrev pub stage_text : Bytes → List Bytes → Call S Unit
  stage_text temp [] = framed stage_empty_failed (stage_nothing temp) >> return tt
  stage_text temp (piece ∷ more) = stage_pieces temp true (piece ∷ more)

  module _ {A : Type 0} (read_response : Bytes → Bytes ⊎ Response) (decode : Bytes → Bytes ⊎ A)
      (empty : A) where
    abbrev pub payload_or : Bytes ⊎ A → OneShotError ⊎ A
    payload_or (inl e) = inl (decode_payload e)
    payload_or (inr a) = inr a

    -- The end of a call, at the response.
    abbrev pub answer : Response → OneShotError ⊎ A
    answer resp =
        if resp.ok
        then (if ltb 0 (length resp.payload) then payload_or (decode resp.payload) else inr empty)
        else inl (remote (map_err_kind resp.err_kind resp.err))

    -- The agent exited with 0, at what `ReadOneShot` returned.
    abbrev pub on_response : Bytes → Bytes ⊎ Response → OneShotError ⊎ A
    on_response body (inl e) = inl (decode_response e body)
    on_response body (inr resp) = answer resp

    -- The agent exited with another code.
    abbrev pub on_exit : RunResult → Bytes ⊎ Response → OneShotError ⊎ A
    on_exit r (inl e) = inl (agent_exited r.exit_code r.output)
    on_exit r (inr resp) =
        if resp.ok
        then inl (agent_exited r.exit_code r.output)
        else inl (remote (map_err_kind resp.err_kind resp.err))

    abbrev pub on_result : RunResult → OneShotError ⊎ A
    on_result r =
        if is_zero r.exit_code
        then on_response r.output (read_response r.output)
        else on_exit r (read_response r.output)

    -- `callOneShot` behind the encoding of the request.
    unfoldable pub exchange : Bytes → Bytes → Bytes → Call S A
    exchange agent_path temp text = do
      stage_text temp (pieces (length (encode text)) request_chunk_size (encode text))
      r ← framed run_failed (agent_cmd agent_path temp)
      lift (on_result r)

    abbrev pub with_request : Bytes → Bytes → Bytes ⊎ Bytes → Call S A
    with_request agent_path temp (inl e) = throw (encode_request e)
    with_request agent_path temp (inr text) = exchange agent_path temp text

    -- `callOneShot`, at what `json.Marshal` returned for the arguments and with the time `stamp`;
    -- `write_request` is `WriteOneShot`.
    abbrev pub with_args :
        (Request → Bytes ⊎ Bytes) → Bytes → Bytes → Bytes → Op → Bytes ⊎ Bytes → Call S A
    with_args write_request agent_path stamp id op (inl e) = throw (marshal_args e)
    with_args write_request agent_path stamp id op (inr args) =
        with_request agent_path (request_path id stamp)
          (write_request (record { v = version; id = id; op = op; args = args }))

    unfoldable pub call_one_shot :
        (Request → Bytes ⊎ Bytes)
        → Bytes
        → Bytes
        → Op
        → Bytes ⊎ Bytes
        → Client
        → S
        → Client × S × (OneShotError ⊎ A)
    call_one_shot write_request agent_path stamp op args c s =
        let (t, r) = with_args write_request agent_path stamp (format_hex (next_id c)) op args s in
        (record c { id_counter = next_id c }, t, r)

-- What `Probe` makes of the answer to a ping, whose data has the protocol's version.
pub data ProbeError : Type 0 where
  ping_failed : OneShotError → ProbeError
  protocol_version : ℕ → ProbeError

unfoldable pub probe_result : OneShotError ⊎ ℕ → Option ProbeError
probe_result (inl e) = some (ping_failed e)
probe_result (inr n) = if n == version then none else some (protocol_version n)
