-- ===== src/Client/Repl/Served.antt =====
-- A call of the client over an agent that is alive: what is sent is dispatched, and what is dispatched
-- is received.
use ptyrelay.Base.{
  ℕ, ◌&&◌, false, not, Bytes, Option, none, some, ltb, if◌then◌else◌, ◌⊎◌, inl, inr, length, codes,
  ◌≡◌, refl, ap, arith, Bool-cases,
}
use ptyrelay.Proto.{Op, Request, Response, version}
use ptyrelay.Agent.Dispatch.{Env, dispatch}
use ptyrelay.Agent.Dispatch.Answers.{dispatch-Answers}
use ptyrelay.Bytes.Same.{same_bytes_refl}
use ptyrelay.Bytes.{same_bytes}
use ptyrelay.Client.Errors.{map_err_kind}
use ptyrelay.Client.Repl.{
  Peer, Client, next_id, format_hex, CallError, remote, call_repl, decoded, result_of,
}

-- An agent with its remote, and the response that waits in its output.
pub record Live (S : Type 0) : Type 0 where
  pub remote_state : S
  pub waiting : Option Response

abbrev pub take_response : {S : Type 0} → S → Option Response → Live S × (Bytes ⊎ Response)
take_response s none = (record { remote_state = s; waiting = none }, inl (codes "EOF"))
take_response s (some resp) = (record { remote_state = s; waiting = none }, inr resp)

abbrev pub agent_peer : {S : Type 0} → Env S → Peer (Live S)
agent_peer env = record {
  pipe = λ p. (p, none);
  send = λ req p.
      let (t, resp) = dispatch env req p.remote_state in
      (record { remote_state = t; waiting = some resp }, none);
  receive = λ p. take_response p.remote_state p.waiting;
}

-- What a caller is to get of a response.
abbrev pub outcome : {A : Type 0} → (Bytes → Bytes ⊎ A) → A → Response → CallError ⊎ A
outcome decode empty resp =
    if resp.ok
    then (if ltb 0 (length resp.payload)
        then decoded decode empty (decode resp.payload)
        else inr empty)
    else inl (remote (map_err_kind resp.err_kind resp.err))

no_mismatch : (rid id : Bytes) → rid ≡ id → (ltb 0 (length rid) && not (same_bytes rid id)) ≡ false
no_mismatch rid id h = rw h (ground (arith, same_bytes_refl id))

-- With the id that was asked for, the guard against another one passes.
result_of-same_id :
    {A : Type 0} (decode : Bytes → Bytes ⊎ A) (empty : A) (id : Bytes) (resp : Response)
    → resp.id ≡ id
    → result_of decode empty id resp ≡ outcome decode empty resp
result_of-same_id decode empty id resp same = elim (Bool-cases resp.ok) [
  | inl fine ↦ simp (no_mismatch resp.id id same, fine) refl
  | inr bad ↦ simp (no_mismatch resp.id id same, bad) refl
]

-- A call over an agent that is alive, with its pipe open, takes the next id, has the request
-- dispatched, and returns what the response says: ids never clash, the pipe stays open, and no
-- response is left behind for the next call.
pub call_repl-dispatch :
    {S A : Type 0} (env : Env S) (decode : Bytes → Bytes ⊎ A) (empty : A) (n : ℕ) (s : S) (op : Op)
    (args : Bytes)
    → let c : Client = record { id_counter = n; repl = some (record { closed = false }) } in
      let req : Request = record {
        v = version;
        id = format_hex (next_id c);
        op = op;
        args = args;
      } in
      let (t, resp) = dispatch env req s in
      call_repl
        (agent_peer env)
        decode
        empty
        c
        (record { remote_state = s; waiting = none })
        op
        (inr args)
      ≡ (
        (record c { id_counter = next_id c }, record { remote_state = t; waiting = none }),
        outcome decode empty resp,
      )
unfolding call_repl
call_repl-dispatch {S} {A} env decode empty n s op args =
    let c : Client = record { id_counter = n; repl = some (record { closed = false }) } in
    let req : Request = record { v = version; id = format_hex (next_id c); op = op; args = args } in
    let (t, resp) = dispatch env req s in
    ap
      (λ (o : CallError ⊎ A).
        ((record c { id_counter = next_id c }, record { remote_state = t; waiting = none }), o))
      (result_of-same_id decode empty req.id resp (dispatch-Answers env req s).same_id)
