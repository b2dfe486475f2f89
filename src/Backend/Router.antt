-- ===== src/Backend/Router.antt =====
-- pkg/backend/router/router.go: the agent is tried first while it is healthy, the shell otherwise.
-- Both backends are parameters; a log line and a lock have no effect on the state.
pub mod Trace
pub mod Policy
pub mod Once
use ptyrelay.Base.{Bool, true, false, List, [], ◌∷◌, ◌++◌, Option, none, some, if◌then◌else◌}
use ptyrelay.Backend.{
  Op, op_read, op_write, op_stat, op_lstat, op_list, op_remove, op_rename, op_mkdir_all, op_run,
  op_open_read, op_open_write, OpClass, read_only, idempotent, non_idempotent, class, Call, read,
  stat, lstat, list, open_read, remove, write, open_write, mkdir_all, rename, run, RemoteBackend,
}

-- `Backend`, less the two backends and the log.
pub record Router (E : Type 0) : Type 0 where
  pub agent_healthy : Bool
  pub agent_last_error : Option E

-- The errors of the router: a backend's own, a failed probe of the shell, and no shell to fall back to.
pub data RouteError (E : Type 0) : Type 0 where
  raised shell_probe : E → RouteError E
  no_shell_fallback : RouteError E

-- `New`: nothing is probed yet.
abbrev pub new_router : {E : Type 0} → Router E
new_router = record { agent_healthy = false; agent_last_error = none }

abbrev pub mark_agent_healthy : {E : Type 0} → Router E → Router E
mark_agent_healthy r = record { agent_healthy = true; agent_last_error = none }

abbrev pub mark_agent_unhealthy : {E : Type 0} → Router E → E → Router E
mark_agent_unhealthy r e = record { agent_healthy = false; agent_last_error = some e }

-- What a method of the router leaves: the router, the state its closures write, and the error.
abbrev pub Routed : Type 0 → Type 0 → Type 0
Routed S E = Router E × S × Option (RouteError E)

abbrev pub is_non_idempotent : OpClass → Bool
is_non_idempotent read_only = false
is_non_idempotent idempotent = false
is_non_idempotent non_idempotent = true

abbrev pub raise : {E : Type 0} → Option E → Option (RouteError E)
raise none = none
raise (some e) = some (raised e)

-- The end of `route`: the shell, if there is one.
abbrev pub via_shell : {S E : Type 0} → Router E → Option (S → S × Option E) → S → Routed S E
via_shell r none s = (r, s, some no_shell_fallback)
via_shell r (some shell_fn) s = let (t, e) = shell_fn s in (r, t, raise e)

-- What `route` does after the agent's answer.
abbrev pub after_agent :
    {S E : Type 0} → Router E → Op → Option (S → S × Option E) → S → Option E → Routed S E
after_agent r op shell_fn s none = (r, s, none)
after_agent r op shell_fn s (some e) =
    if is_non_idempotent (class op)
    then (r, s, some (raised e))
    else via_shell (mark_agent_unhealthy r e) shell_fn s

unfoldable pub route :
    {S E : Type 0} → Router E → Op → (S → S × Option E) → Option (S → S × Option E) → S → Routed S E
route r op agent_fn shell_fn s =
    if r.agent_healthy
    then (let (t, e) = agent_fn s in after_agent r op shell_fn t e)
    else via_shell r shell_fn s

-- The operation under which a method routes.
unfoldable pub op_of : Call → Op
op_of (read _) = op_read
op_of (stat _) = op_stat
op_of (lstat _) = op_lstat
op_of (list _) = op_list
op_of (open_read _) = op_open_read
op_of (remove _) = op_remove
op_of (write _ _ _) = op_write
op_of (open_write _ _) = op_open_write
op_of (mkdir_all _ _) = op_mkdir_all
op_of (rename _ _) = op_rename
op_of (run _ _) = op_run

module _ {W V E : Type 0} (agent shell : RemoteBackend W V E) where
  -- A closure of a method: it calls a backend and overwrites the variable of the result.
  abbrev pub closure : RemoteBackend W V E → Call → W × V → (W × V) × Option E
  closure b c (w, v) = let (w', v', e) = b.call c w in ((w', v'), e)

  -- The methods of the router, each of which routes its call; the result starts as `empty`.
  unfoldable pub dispatch : V → Router E → Call → W → Routed (W × V) E
  dispatch empty r c w = route r (op_of c) (closure agent c) (some (closure shell c)) (w, empty)

  abbrev pub after_agent_probe : Router E → Option E → Router E
  after_agent_probe r none = mark_agent_healthy r
  after_agent_probe r (some e) = mark_agent_unhealthy r e

  -- `Probe`, after the answer of the shell.
  abbrev pub after_shell_probe : Router E → Option E → W → Routed W E
  after_shell_probe r (some e) w = (r, w, some (shell_probe e))
  after_shell_probe r none w = let (w', e) = agent.probe w in (after_agent_probe r e, w', none)

  unfoldable pub probe_router : Router E → W → Routed W E
  probe_router r w = let (w', e) = shell.probe w in after_shell_probe r e w'

  abbrev pub listed : Option E → List E
  listed none = []
  listed (some e) = e ∷ []

  -- `Close`: the errors that `errors.Join` joins.
  unfoldable pub close_router : W → W × List E
  close_router w =
      let (w1, e) = agent.close w in let (w2, f) = shell.close w1 in (w2, listed e ++ listed f)
