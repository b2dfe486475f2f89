-- ===== src/Backend/Router/Trace.antt =====
-- What the router's callers and its backends see: the calls that reach each backend, in order.
use ptyrelay.Base.{Bool, true, false, List, [], ◌∷◌, ◌++◌, Option, none, some, ◌≡◌}
use ptyrelay.Backend.{Call, RemoteBackend, class}
use ptyrelay.Backend.Router.{Router, op_of, is_non_idempotent, dispatch, probe_router}

pub data Side : Type 0 where
  agent_side shell_side : Side

-- A call, a probe or a close that reached a backend, and its answer.
pub data Event (V E : Type 0) : Type 0 where
  served : Side → Call → V → Option E → Event V E
  probed closed : Side → Option E → Event V E

module _ {W V E : Type 0} where
  -- A backend that also writes down what reaches it, the latest first.
  abbrev pub logged : Side → RemoteBackend W V E → RemoteBackend (W × List (Event V E)) V E
  logged side b = record {
    call = λ c (w, log). let (w', v, e) = b.call c w in ((w', served side c v e ∷ log), v, e);
    probe = λ (w, log). let (w', e) = b.probe w in ((w', probed side e ∷ log), e);
    close = λ (w, log). let (w', e) = b.close w in ((w', closed side e ∷ log), e);
  }

-- What a caller does with the router.
pub data Action : Type 0 where
  request : Call → Action
  reprobe : Action

module _ {W V E : Type 0} (agent shell : RemoteBackend W V E) where
  -- One action, on the logged backends.
  abbrev pub act : V → Router E → Action → W × List (Event V E) → Router E × (W × List (Event V E))
  act empty r (request c) w =
      let (r', (w', _), _) =
        dispatch (logged agent_side agent) (logged shell_side shell) empty r c w in
      (r', w')
  act empty r reprobe w =
      let (r', w', _) = probe_router (logged agent_side agent) (logged shell_side shell) r w in
      (r', w')

  unfoldable pub act_all :
      V → Router E → List Action → W × List (Event V E) → Router E × (W × List (Event V E))
  act_all empty r [] w = (r, w)
  act_all empty r (a ∷ acts) w = let (r', w') = act empty r a w in act_all empty r' acts w'

-- `Allowed h a es k`: the events `es`, the latest first, are a lawful treatment of the action `a`
-- when the agent is believed healthy as `h` says, and `k` is what is believed afterwards.
pub data Allowed {V E : Type 0} : Bool → Action → List (Event V E) → Bool → Type 0 where
  by_agent : (c : Call) (v : V) → Allowed true (request c) (served agent_side c v none ∷ []) true
  not_retried :
      (c : Call) (v : V) (e : E)
      → is_non_idempotent (class (op_of c)) ≡ true
      → Allowed true (request c) (served agent_side c v (some e) ∷ []) true
  fell_back :
      (c : Call) (v u : V) (e : E) (x : Option E)
      → is_non_idempotent (class (op_of c)) ≡ false
      → Allowed true
          (request c)
          (served shell_side c u x ∷ served agent_side c v (some e) ∷ [])
          false
  by_shell :
      (c : Call) (v : V) (x : Option E)
      → Allowed false (request c) (served shell_side c v x ∷ []) false
  shell_down : (h : Bool) (e : E) → Allowed h reprobe (probed shell_side (some e) ∷ []) h
  agent_down :
      (h : Bool) (e : E)
      → Allowed h reprobe (probed agent_side (some e) ∷ probed shell_side none ∷ []) false
  agent_up :
      (h : Bool) → Allowed h reprobe (probed agent_side none ∷ probed shell_side none ∷ []) true

-- The same for a list of actions.
pub data AllAllowed {V E : Type 0} : Bool → List Action → List (Event V E) → Bool → Type 0 where
  nothing : (h : Bool) → AllAllowed h [] [] h
  next :
      (h k l : Bool) (a : Action) (acts : List Action) (es fs : List (Event V E))
      → Allowed h a es k
      → AllAllowed k acts fs l
      → AllAllowed h (a ∷ acts) (fs ++ es) l
