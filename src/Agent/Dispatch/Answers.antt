-- ===== src/Agent/Dispatch/Answers.antt =====
-- What every response of the agent says, and which categories of errors it uses.
use ptyrelay.Base.{
  Bool, true, false, Bytes, Option, none, some, ◌==◌, ◌⊎◌, inl, inr, ◌≡◌, refl, arith, Bool-cases,
}
use ptyrelay.Proto.{
  ErrKind, unknown_op, bad_args, not_found, permission, io, bad_protocol, unimplemented, internal,
  other_kind, Request, Response, version,
}
use ptyrelay.Agent.Os.{Failure}
use ptyrelay.Agent.Handlers.{Data, Handler}
use ptyrelay.Agent.Dispatch.{Env, classify, ok_marshalled, handler_of, respond, handle, dispatch}

-- The categories that the agent uses.
abbrev pub is_used : ErrKind → Bool
is_used unknown_op = true
is_used not_found = true
is_used permission = true
is_used io = true
is_used bad_protocol = true
is_used internal = true
is_used bad_args = false
is_used unimplemented = false
is_used (other_kind name) = false

-- A response that answers a request.
abbrev pub well_formed : Bool → Option ErrKind → Bool
well_formed true none = true
well_formed true (some kind) = false
well_formed false none = false
well_formed false (some kind) = is_used kind

pub record Answers (req : Request) (resp : Response) : Type 0 where
  pub same_version : resp.v ≡ version
  pub same_id : resp.id ≡ req.id
  pub fits : well_formed resp.ok resp.err_kind ≡ true

module _ {S : Type 0} (env : Env S) where
  classify_used : (e : Failure) → is_used (classify e) ≡ true
  unfolding classify
  classify_used e = ground arith

  marshalled-Answers : (req : Request) (r : Failure ⊎ Bytes) → Answers req (ok_marshalled req.id r)
  marshalled-Answers req (inl e) = record { same_version = refl; same_id = refl; fits = refl }
  marshalled-Answers req (inr raw) = record { same_version = refl; same_id = refl; fits = refl }

  respond-Answers :
      (req : Request) (s : S) (r : Failure ⊎ Option Data) → Answers req (respond env req.id s r).1
  respond-Answers req s (inl e) = record {
    same_version = refl;
    same_id = refl;
    fits = classify_used e;
  }
  respond-Answers req s (inr none) = record { same_version = refl; same_id = refl; fits = refl }
  respond-Answers req s (inr (some d)) = marshalled-Answers req (env.marshal_data d)

  handle-Answers :
      (req : Request) (s : S) (h : Bytes ⊎ Handler S) → Answers req (handle env req s h).1
  handle-Answers req s (inl name) = record { same_version = refl; same_id = refl; fits = refl }
  handle-Answers req s (inr h) = respond-Answers req (h req.args s).0 (h req.args s).1

  -- A response has the protocol's version and the request's id. It is either a success with no
  -- category, or an error with one; and the category is never `bad_args`, so that arguments which
  -- are missing or malformed are reported as `io`.
  pub dispatch-Answers : (req : Request) (s : S) → Answers req (dispatch env req s).1
  unfolding dispatch
  dispatch-Answers req s = elim (Bool-cases (req.v == version)) [
    | inl same ↦ rw same (handle-Answers req s (handler_of env req.op))
    | inr other ↦ rw other (record { same_version = refl; same_id = refl; fits = refl })
  ]
