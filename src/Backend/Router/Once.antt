-- ===== src/Backend/Router/Once.antt =====
-- What the routing rules of pkg/backend/router/router.go are for: an operation that must not be
-- repeated reaches one backend once, and an agent that is not believed healthy is left alone.
use ptyrelay.Base.{
  ◌+◌, Bool, true, false, List, ◌++◌, ◌≡◌, refl, ap, ◌∙◌, length, length-append, All, All-append,
}
use ptyrelay.Backend.{
  Call, read, stat, lstat, list, open_read, remove, write, open_write, mkdir_all, rename, run,
  RemoteBackend, class,
}
use ptyrelay.Backend.Router.{Router, op_of, is_non_idempotent}
use ptyrelay.Backend.Router.Trace.{
  agent_side, shell_side, Event, served, probed, closed, Action, request, reprobe, act, act_all,
  Allowed, by_agent, not_retried, fell_back, by_shell, shell_down, agent_down, agent_up, AllAllowed,
  nothing, next,
}
use ptyrelay.Backend.Router.Policy.{act-Follows, act_all-AllAllowed}

Allowed-once :
    {V E : Type 0} {h k : Bool} {c : Call} {es : List (Event V E)}
    → is_non_idempotent (class (op_of c)) ≡ true
    → Allowed h (request c) es k
    → length es ≡ 1
Allowed-once n (by_agent c v) = refl
Allowed-once n (not_retried c v e x) = refl
Allowed-once n (fell_back c v u e x b) = absurd (cc)
Allowed-once n (by_shell c v x) = refl

-- The calls whose effect a second run would repeat or spoil: removing a path and running a command.
abbrev pub MustNotRepeat : Call → Type 0
MustNotRepeat (remove path) = Unit
MustNotRepeat (run cmd stdin) = Unit
MustNotRepeat _ = ⊥

must_not_repeat : (c : Call) → MustNotRepeat c → is_non_idempotent (class (op_of c)) ≡ true
unfolding class op_of
must_not_repeat (remove path) m = refl
must_not_repeat (run cmd stdin) m = refl
must_not_repeat (read path) m = absurd m
must_not_repeat (stat path) m = absurd m
must_not_repeat (lstat path) m = absurd m
must_not_repeat (list path) m = absurd m
must_not_repeat (open_read path) m = absurd m
must_not_repeat (write path data_bytes mode) m = absurd m
must_not_repeat (open_write path mode) m = absurd m
must_not_repeat (mkdir_all path mode) m = absurd m
must_not_repeat (rename from to) m = absurd m

-- A `Remove` and a `Run` reach one backend, once, whether they fail or not.
pub non_idempotent-once :
    {W V E : Type 0} (agent shell : RemoteBackend W V E) (empty : V) (r : Router E) (c : Call)
    (w : W) (log : List (Event V E))
    → MustNotRepeat c
    → length (act agent shell empty r (request c) (w, log)).1.1 ≡ 1 + length log
non_idempotent-once agent shell empty r c w log n =
    let (es, p, allowed) = act-Follows agent shell empty r (request c) w log in
    ap length p
    ∙ length-append es log
    ∙ ap (λ k. k + length log) (Allowed-once (must_not_repeat c n) allowed)

-- The event is a call or a probe of the shell.
abbrev pub of_shell : {V E : Type 0} → Event V E → Bool
of_shell (served agent_side c v x) = false
of_shell (served shell_side c v x) = true
of_shell (probed agent_side x) = false
of_shell (probed shell_side x) = true
of_shell (closed agent_side x) = false
of_shell (closed shell_side x) = true

abbrev pub OfShell : {V E : Type 0} → List (Event V E) → Type 0
OfShell = All (λ e. of_shell e ≡ true)

-- The action asks for no probe.
abbrev pub is_request : Action → Bool
is_request (request c) = true
is_request reprobe = false

Allowed-OfShell :
    {V E : Type 0} {h k : Bool} {a : Action} {es : List (Event V E)}
    → h ≡ false
    → is_request a ≡ true
    → Allowed h a es k
    → OfShell es × (k ≡ false)
Allowed-OfShell n i (by_agent c v) = absurd (cc)
Allowed-OfShell n i (not_retried c v e x) = absurd (cc)
Allowed-OfShell n i (fell_back c v u e x b) = absurd (cc)
Allowed-OfShell n i (by_shell c v x) = ((refl, tt), refl)
Allowed-OfShell n i (shell_down h e) = absurd (cc)
Allowed-OfShell n i (agent_down h e) = absurd (cc)
Allowed-OfShell n i (agent_up h) = absurd (cc)

AllAllowed-OfShell :
    {V E : Type 0} {h l : Bool} {acts : List Action} {es : List (Event V E)}
    → h ≡ false
    → All (λ a. is_request a ≡ true) acts
    → AllAllowed h acts es l
    → OfShell es × (l ≡ false)
AllAllowed-OfShell n is (nothing h) = (tt, n)
AllAllowed-OfShell n is (next h k l a acts es fs allowed rest) =
    let (here, m) = Allowed-OfShell n is.0 allowed in
    let (there, o) = AllAllowed-OfShell m is.1 rest in
    (All-append (λ e. of_shell e ≡ true) fs es there here, o)

-- While the agent is not believed healthy and no probe is asked for, only the shell is called, and
-- the belief stays; so no method of a router that was never probed reaches the agent.
pub unhealthy-OfShell :
    {W V E : Type 0} (agent shell : RemoteBackend W V E) (empty : V) (r : Router E)
    (acts : List Action) (w : W) (log : List (Event V E))
    → r.agent_healthy ≡ false
    → All (λ a. is_request a ≡ true) acts
    → let (r', (w', all)) = act_all agent shell empty r acts (w, log) in
      (es : List (Event V E)) × (all ≡ es ++ log) × OfShell es × (r'.agent_healthy ≡ false)
unhealthy-OfShell agent shell empty r acts w log n is =
    let (es, p, t) = act_all-AllAllowed agent shell empty r acts w log in
    let (o, m) = AllAllowed-OfShell n is t in (es, p, o, m)
