-- ===== src/Client/Files/Written.antt =====
-- A write by the client of a long-lived agent, from the method to the file: `Write` of fs.go, `callREPL`, and the
-- agent's `dispatch` and `handleWrite`.
use ptyrelay.Base.{
  ℕ, Bytes, ◌++◌, codes, Option, none, some, ◌⊎◌, inl, inr, false, ◌≡◌, refl, ap, ◌∙◌, Sum-cases,
}
use ptyrelay.Base.Step.{◌>>=◌, ◌>>◌, return, lift, bind-inr, throw_lem}
use ptyrelay.Proto.{Request, Response, version, write}
use ptyrelay.Shell.State.{Session}
use ptyrelay.Agent.Os.{Failure, Os, M}
use ptyrelay.Agent.Handlers.{
  ArgsCodec, Data, unmarshal_args, dir_of, base_of, perm, fill_and_rename, handle_write,
  or_clean_up, or_close,
}
use ptyrelay.Agent.Handlers.Write.{Files, Replaced, handle_write-Replaced}
use ptyrelay.Agent.Dispatch.{Env, dispatch, respond}
use ptyrelay.Client.Repl.{Client, next_id, format_hex}
use ptyrelay.Client.Repl.Served.{Live, agent_peer, outcome, call_repl-dispatch}
use ptyrelay.Client.Files.{
  ArgsWriter, DataReader, AgentError, repl_result, mode_repl, dispatch_op, write_file, no_data,
}

module _ {S : Type 0} (os : Os S) (codec : ArgsCodec) where
  fill_and_rename-none :
      (path bytes tmp : Bytes) (mode : ℕ) (s t : S) (d : Option Data)
      → fill_and_rename os codec path bytes mode tmp s ≡ (t, inr d)
      → d ≡ none
  unfolding fill_and_rename
  fill_and_rename-none path bytes tmp mode s t d h =
      let m =
        or_close os codec tmp (os.write_temp tmp bytes)
        >> or_close os codec tmp (os.chmod_temp tmp (perm mode))
        >> os.close_temp tmp
        >> os.rename tmp path in
      let (u, a, k, l) = bind-inr m (λ _. return none) s t d h in
      let same : inr none ≡ inr d = ap (λ z. z.1) l in cc

  or_clean_up-none :
      (tmp : Bytes) (m : M S (Option Data)) (s t : S) (d : Option Data)
      → ((u : S) → m s ≡ (u, inr d) → d ≡ none)
      → or_clean_up os codec tmp m s ≡ (t, inr d)
      → d ≡ none
  or_clean_up-none tmp m s t d always h = elim (Sum-cases (m s).1) [
    | inl (e, failed) ↦ absurd (throw_lem _ t e d (rw failed at h))
    | inr (x, done) ↦
        let same : inr x ≡ inr d = ap (λ z. z.1) (rw done at h) in
        always (m s).0 (ap (λ r. ((m s).0, r)) (done ∙ same))
  ]

  -- The handler returns no data.
  handle_write-none :
      (raw : Bytes) (s t : S) (d : Option Data)
      → handle_write os codec raw s ≡ (t, inr d)
      → d ≡ none
  unfolding handle_write
  handle_write-none raw s t d h =
      let store = λ (x : Bytes × Bytes × ℕ).
        λ (tmp : Bytes). or_clean_up os codec tmp (fill_and_rename os codec x.0 x.1 x.2 tmp) in
      let rest = λ (x : Bytes × Bytes × ℕ).
        os.create_temp (dir_of x.0) (base_of x.0 ++ codes ".tmp.*") >>= store x in
      let (u, x, _, l) = bind-inr (lift (unmarshal_args codec.write_args raw)) rest s t d h in
      let (v, tmp, _, l2) =
        bind-inr (os.create_temp (dir_of x.0) (base_of x.0 ++ codes ".tmp.*")) (store x) u t d l in
      or_clean_up-none tmp (fill_and_rename os codec x.0 x.1 x.2 tmp) v t d
        (λ w. λ k. fill_and_rename-none x.0 x.1 tmp x.2 v w d k) l2

-- What a caller knows of the file: it holds the new bytes, or the call has failed and it is as it was.
abbrev pub Stored : Option Bytes → Option Bytes → Bytes → AgentError ⊎ Unit {0} → Type 0
Stored before after new (inl e) = after ≡ before
Stored before after new (inr u) = after ≡ some new

module _ {S : Type 0} (env : Env S) (files : Files env.os) where
  answered-Stored :
      (id : Bytes) (before : Option Bytes) (new path : Bytes) (t : S) (r : Failure ⊎ Option Data)
      → ((d : Option Data) → r ≡ inr d → d ≡ none)
      → Replaced before (files.content t path) new r
      → let (u, resp) = respond env id t r in
        Stored before (files.content u path) new (repl_result (outcome no_data tt resp))
  answered-Stored id before new path t (inl e) silent h = h
  answered-Stored id before new path t (inr none) silent h = h
  answered-Stored id before new path t (inr (some d)) silent h =
      absurd (let no : some d ≡ none = silent (some d) refl in cc)

  dispatch-write :
      (id text : Bytes) (s : S)
      → dispatch env (record { v = version; id = id; op = write; args = text }) s
        ≡ respond env id
            (handle_write env.os env.codec text s).0
            (handle_write env.os env.codec text s).1
  unfolding dispatch
  dispatch-write id text s = refl

  -- A write by the client of a live agent, with the pipe open: if the method returns no error, the remote's file holds
  -- exactly the bytes, and if it returns one, the file is as it was, at whatever call of the agent it failed. The agent's
  -- decoder reads back the arguments that the client's encoder wrote, and the calls of the system do what is documented.
  pub write_file-Stored :
      {X : Type 0} (run_framed : Session X) (read_response : Bytes → Bytes ⊎ Response)
      (write_request : Request → Bytes ⊎ Bytes) (agent_path stamp : Bytes) (args : ArgsWriter)
      (reader : DataReader) (path bytes text : Bytes) (mode n : ℕ) (s : S) (x : X)
      → args.write_args path bytes mode ≡ inr text
      → unmarshal_args env.codec.write_args text ≡ inr (path, bytes, mode)
      → let call =
          dispatch_op
            (agent_peer env)
            run_framed
            read_response
            write_request
            agent_path
            stamp
            mode_repl in
        let start : Client × Live S × X = (
          record { id_counter = n; repl = some (record { closed = false }) },
          record { remote_state = s; waiting = none },
          x,
        ) in
        let (t, r) = write_file args reader call path bytes mode start in
        Stored (files.content s path) (files.content t.1.remote_state path) bytes r
  unfolding write_file dispatch_op
  write_file-Stored run_framed read_response write_request agent_path stamp args reader path bytes
        text mode n s x encoded read_back =
      let c : Client = record { id_counter = n; repl = some (record { closed = false }) } in
      let live = call_repl-dispatch env no_data tt n s write text in
      let (t, r) = handle_write env.os env.codec text s in
      let replaced =
        handle_write-Replaced env.os env.codec files text path bytes mode s read_back in
      let stored =
        answered-Stored (format_hex (next_id c)) (files.content s path) bytes path t r
          (λ d. λ h. handle_write-none env.os env.codec text s t d (ap (λ z. (t, z)) h)) replaced in
      rw (encoded, live, dispatch-write (format_hex (next_id c)) text s) stored
