-- ===== src/Agent/Dispatch.antt =====
-- `dispatch` and its helpers of cmd/ptyrelay-agent/handlers.go, and the modes of main.go.
pub mod Answers
pub mod Repl
use ptyrelay.Base.{
  ℕ, ℤ, pos, Bool, true, false, Bytes, List, [], ◌∷◌, ◌++◌, Option, none, some, ◌==◌, if◌then◌else◌,
  ◌⊎◌, inl, inr, codes,
}
use ptyrelay.Proto.{
  Op, ping, read, write, stat, lstat, list, remove, rename, mkdir_all, run, bye, other_op, ErrKind,
  unknown_op, not_found, permission, io, bad_protocol, internal, Request, Response, version,
}
use ptyrelay.Agent.Os.{Failure, new_error, M, Os}
use ptyrelay.Agent.Handlers.{
  ArgsCodec, Data, Handler, handle_ping, handle_bye, handle_read, handle_write, stat_impl,
  handle_list, handle_remove, handle_rename, handle_mkdir_all, handle_run,
}

-- `classify`.
unfoldable pub classify : Failure → ErrKind
classify e = if e.is_not_exist then not_found else if e.is_permission then permission else io

abbrev pub error_response : Bytes → ErrKind → Failure → Response
error_response id kind e = record {
  v = version;
  id = id;
  ok = false;
  payload = [];
  err = e.text;
  err_kind = some kind;
}

-- A response with the given data, which are empty where they are nil.
abbrev pub ok_with : Bytes → Bytes → Response
ok_with id raw = record {
  v = version;
  id = id;
  ok = true;
  payload = raw;
  err = [];
  err_kind = none;
}

-- `okResponse`, at what `json.Marshal` returned.
abbrev pub ok_marshalled : Bytes → Failure ⊎ Bytes → Response
ok_marshalled id (inl e) = error_response id internal e
ok_marshalled id (inr raw) = ok_with id raw

-- What the agent is built with: its version's text, the system, and the JSON codec.
pub record Env (S : Type 0) : Type 0 where
  pub agent_version : Bytes
  pub os : Os S
  pub codec : ArgsCodec
  pub marshal_data : Data → Failure ⊎ Bytes
  -- The text of `fmt.Errorf` for a version and for an operation that are not known.
  pub bad_version : ℕ → Bytes
  pub bad_op : Bytes → Bytes

-- The agent's output: `none` for a write that goes through, or its error, one for each response.
abbrev pub next_write : List (Option Failure) → Option Failure
next_write [] = none
next_write (f ∷ _) = f

abbrev pub later_writes : List (Option Failure) → List (Option Failure)
later_writes [] = []
later_writes (_ ∷ fs) = fs

abbrev pub is_bye : Op → Bool
is_bye bye = true
is_bye _ = false

module _ {S : Type 0} (env : Env S) where
  abbrev pub ok_response : Bytes → Option Data → Response
  ok_response id none = ok_with id []
  ok_response id (some d) = ok_marshalled id (env.marshal_data d)

  -- The map of handlers; the other strings are their own names.
  abbrev pub handler_of : Op → Bytes ⊎ Handler S
  handler_of ping = inr (handle_ping env.os env.codec env.agent_version)
  handler_of read = inr (handle_read env.os env.codec)
  handler_of write = inr (handle_write env.os env.codec)
  handler_of stat = inr (stat_impl env.os env.codec true)
  handler_of lstat = inr (stat_impl env.os env.codec false)
  handler_of list = inr (handle_list env.os env.codec)
  handler_of remove = inr (handle_remove env.os env.codec)
  handler_of rename = inr (handle_rename env.os env.codec)
  handler_of mkdir_all = inr (handle_mkdir_all env.os env.codec)
  handler_of run = inr (handle_run env.os env.codec)
  handler_of bye = inr (handle_bye env.os env.codec)
  handler_of (other_op name) = inl name

  -- The end of `dispatch`, at what the handler returned.
  abbrev pub respond : Bytes → S → Failure ⊎ Option Data → S × Response
  respond id s (inl e) = (s, error_response id (classify e) e)
  respond id s (inr d) = (s, ok_response id d)

  -- `dispatch`, at what the map of handlers holds.
  abbrev pub handle : Request → S → Bytes ⊎ Handler S → S × Response
  handle req s (inl name) = (s, error_response req.id unknown_op (new_error (env.bad_op name)))
  handle req s (inr h) = let (t, r) = h req.args s in respond req.id t r

  unfoldable pub dispatch : Request → S → S × Response
  dispatch req s =
      if req.v == version
      then handle req s (handler_of req.op)
      else (s, error_response req.id bad_protocol (new_error (env.bad_version req.v)))

  -- What a run of the agent leaves: the remote's state, the responses written, in order, and the
  -- error of `runOneShot` or `runREPL`.
  pub record Served : Type 0 where
    pub state : S
    pub written : List Response
    pub error : Option Failure

  -- `runOneShot`, at what `ReadOneShot` returned.
  unfoldable pub run_one_shot : List (Option Failure) → Failure ⊎ Request → S → Served
  run_one_shot out (inl e) s = record {
    state = s;
    written = error_response [] bad_protocol e ∷ [];
    error = some e;
  }
  run_one_shot out (inr req) s =
      let (t, resp) = dispatch req s in
      record { state = t; written = resp ∷ []; error = next_write out }

  -- The loop of `runREPL` behind a response.
  abbrev pub after_write : Served → S → Response → Bool → Option Failure → Served
  after_write rest t resp last (some e) = record { state = t; written = resp ∷ []; error = some e }
  after_write rest t resp true none = record { state = t; written = resp ∷ []; error = none }
  after_write rest t resp false none = record {
    state = rest.state;
    written = resp ∷ rest.written;
    error = rest.error;
  }

  -- `runREPL` on what the decoder returns up to `io.EOF`.
  unfoldable pub run_repl : List (Option Failure) → List (Failure ⊎ Request) → S → Served
  run_repl out [] s = record { state = s; written = []; error = none }
  run_repl out (inl e ∷ input) s = record {
    state = s;
    written = error_response [] bad_protocol e ∷ [];
    error = some e;
  }
  run_repl out (inr req ∷ input) s =
      let (t, resp) = dispatch req s in
      let rest = run_repl (later_writes out) input t in
      after_write rest t resp (is_bye req.op) (next_write out)

-- `exitOnErr`: what it prints to the standard error, and the exit code of `main`; `is_eof` is `errors.Is` of
-- `io.EOF`.
abbrev pub exit_on_err : (Failure → Bool) → Option Failure → Bytes × ℤ
exit_on_err is_eof none = ([], pos 0)
exit_on_err is_eof (some e) =
    if is_eof e then ([], pos 0) else (codes "ptyrelay-agent: " ++ (e.text ++ b'\n' ∷ []), pos 1)
