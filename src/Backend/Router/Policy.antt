-- ===== src/Backend/Router/Policy.antt =====
-- The routing rules of pkg/backend/router/router.go, for any two backends.
use ptyrelay.Base.{
  Bool, true, false, List, [], ◌∷◌, ◌++◌, Option, none, some, ◌≡◌, refl, ap, sym, ◌∙◌, append_assoc,
}
use ptyrelay.Backend.{Call, RemoteBackend, class}
use ptyrelay.Backend.Router.{
  Router, Routed, raise, after_agent, closure, after_agent_probe, after_shell_probe, op_of,
  is_non_idempotent, dispatch, probe_router, route,
}
use ptyrelay.Backend.Router.Trace.{
  Side, agent_side, shell_side, Event, served, probed, logged, Action, request, reprobe, act,
  act_all, Allowed, by_agent, not_retried, fell_back, by_shell, shell_down, agent_down, agent_up,
  AllAllowed, nothing, next,
}

module _ {W V E : Type 0} (agent shell : RemoteBackend W V E) (empty : V) where
  -- What an action adds to the log is allowed.
  abbrev pub Follows : Bool → Action → List (Event V E) → Router E × (W × List (Event V E)) → Type 0
  Follows h a log (r, (w, all)) =
      (es : List (Event V E)) × (all ≡ es ++ log) × Allowed h a es r.agent_healthy

  -- The agent's answer decides whether the shell is asked.
  after_agent-Follows :
      (l : Option E) (c : Call) (log : List (Event V E)) (w : W) (v : V) (x : Option E) (b : Bool)
      → is_non_idempotent (class (op_of c)) ≡ b
      → Follows true (request c) log (
          let (r, (w', _), _) =
            after_agent
              (record { agent_healthy = true; agent_last_error = l })
              (op_of c)
              (some (
                closure
                  (logged agent_side agent)
                  (logged shell_side shell)
                  (logged shell_side shell)
                  c))
              ((w, served agent_side c v x ∷ log), v)
              x in
          (r, w'))
  after_agent-Follows l c log w v none b k = (_, refl, by_agent c v)
  after_agent-Follows l c log w v (some e) true k = simp k (_, refl, not_retried c v e k)
  after_agent-Follows l c log w v (some e) false k =
      simp k (_, refl, fell_back c v (shell.call c w).1 e (shell.call c w).2 k)

  pub request-Follows :
      (h : Bool) (l : Option E) (c : Call) (w : W) (log : List (Event V E))
      → Follows h (request c) log (
          act agent shell empty
            (record { agent_healthy = h; agent_last_error = l })
            (request c)
            (w, log))
  unfolding dispatch route
  request-Follows true l c w log =
      let (w', v, x) = agent.call c w in
      after_agent-Follows l c log w' v x (is_non_idempotent (class (op_of c))) refl
  request-Follows false l c w log = (_, refl, by_shell c (shell.call c w).1 (shell.call c w).2)

  agent_probe-Follows :
      (h : Bool) (l : Option E) (log : List (Event V E)) (w : W) (x : Option E)
      → Follows h reprobe log (
        after_agent_probe
            (logged agent_side agent)
            (logged shell_side shell)
            (record { agent_healthy = h; agent_last_error = l })
            x,
        (w, probed agent_side x ∷ probed shell_side none ∷ log),
      )
  agent_probe-Follows h l log w none = (_, refl, agent_up h)
  agent_probe-Follows h l log w (some e) = (_, refl, agent_down h e)

  shell_probe-Follows :
      (h : Bool) (l : Option E) (log : List (Event V E)) (w : W) (x : Option E)
      → Follows h reprobe log (
          let (r, w', _) =
            after_shell_probe
              (logged agent_side agent)
              (logged shell_side shell)
              (record { agent_healthy = h; agent_last_error = l })
              x
              (w, probed shell_side x ∷ log) in
          (r, w'))
  shell_probe-Follows h l log w none =
      agent_probe-Follows h l log (agent.probe w).0 (agent.probe w).1
  shell_probe-Follows h l log w (some e) = (_, refl, shell_down h e)

  pub act-Follows :
      (r : Router E) (a : Action) (w : W) (log : List (Event V E))
      → Follows r.agent_healthy a log (act agent shell empty r a (w, log))
  unfolding probe_router
  act-Follows r (request c) w log = request-Follows r.agent_healthy r.agent_last_error c w log
  act-Follows r reprobe w log =
      shell_probe-Follows r.agent_healthy r.agent_last_error log (shell.probe w).0 (shell.probe w).1

  -- Whatever is asked of the router, and whatever the backends answer, the calls that reach the
  -- backends are allowed by the routing rules.
  pub act_all-AllAllowed :
      (r : Router E) (acts : List Action) (w : W) (log : List (Event V E))
      → let (r', (w', all)) = act_all agent shell empty r acts (w, log) in
        (es : List (Event V E)) × (all ≡ es ++ log)
        × AllAllowed r.agent_healthy acts es r'.agent_healthy
  unfolding act_all
  act_all-AllAllowed r [] w log = ([], refl, nothing r.agent_healthy)
  act_all-AllAllowed r (a ∷ acts) w log =
      let (es, p, follows) = act-Follows r a w log in
      let (r', (w', log')) = act agent shell empty r a (w, log) in
      let (fs, q, rest) = act_all-AllAllowed r' acts w' log' in
      (
        fs ++ es,
        q ∙ ap (λ z. fs ++ z) p ∙ sym (append_assoc fs es log),
        next _ _ _ a acts es fs follows rest,
      )

  -- The reply of a method is that of the latest call that reached a backend.
  pub record Replied (c : Call) (reply : Routed ((W × List (Event V E)) × V) E) : Type 0 where
    pub side : Side
    pub failure : Option E
    pub before : List (Event V E)
    pub latest : reply.1.0.1 ≡ served side c reply.1.1 failure ∷ before
    pub error : reply.2 ≡ raise failure

  after_agent-Replied :
      (l : Option E) (c : Call) (log : List (Event V E)) (w : W) (v : V) (x : Option E) (b : Bool)
      → is_non_idempotent (class (op_of c)) ≡ b
      → Replied c (
          after_agent
            (record { agent_healthy = true; agent_last_error = l })
            (op_of c)
            (some (
              closure
                (logged agent_side agent)
                (logged shell_side shell)
                (logged shell_side shell)
                c))
            ((w, served agent_side c v x ∷ log), v)
            x)
  after_agent-Replied l c log w v none b k = record {
    side = agent_side;
    failure = none;
    before = log;
    latest = refl;
    error = refl;
  }
  after_agent-Replied l c log w v (some e) true k =
      simp k
        (record { side = agent_side; failure = some e; before = log; latest = refl; error = refl })
  after_agent-Replied l c log w v (some e) false k =
      simp k (record { side = shell_side; failure = _; before = _; latest = refl; error = refl })

  -- What a method returns, its value and its error, is the answer to the latest call that reached a
  -- backend; no value of a failed agent call is left over.
  pub dispatch-Replied :
      (h : Bool) (l : Option E) (c : Call) (w : W) (log : List (Event V E))
      → Replied c (
          dispatch
            (logged agent_side agent)
            (logged shell_side shell)
            empty
            (record { agent_healthy = h; agent_last_error = l })
            c
            (w, log))
  unfolding dispatch route
  dispatch-Replied true l c w log =
      let (w', v, x) = agent.call c w in
      after_agent-Replied l c log w' v x (is_non_idempotent (class (op_of c))) refl
  dispatch-Replied false l c w log = record {
    side = shell_side;
    failure = _;
    before = log;
    latest = refl;
    error = refl;
  }
