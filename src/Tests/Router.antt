-- ===== src/Tests/Router.antt =====
-- The router of pkg/backend/router between two backends that count their calls: the agent fails from
-- its second call on, the shell answers always.
use ptyrelay.Base.{
  ℕ, ◌+◌, ◌≡◌, refl, List, [], ◌∷◌, ◌++◌, true, false, Option, none, some, length, if◌then◌else◌,
  leb, codes, Bytes,
}
use ptyrelay.Backend.{read, remove, stat, RemoteBackend, class}
use ptyrelay.Backend.Router.{new_router, dispatch, route, op_of, probe_router}
use ptyrelay.Backend.Router.Trace.{
  Event, agent_side, shell_side, logged, Action, request, reprobe, act, act_all, AllAllowed,
}
use ptyrelay.Backend.Router.Policy.{act_all-AllAllowed, dispatch-Replied, Replied}
use ptyrelay.Backend.Router.Once.{non_idempotent-once, unhealthy-OfShell, OfShell}

abbrev failing : ℕ → Option ℕ
failing n = if leb 1 n then some 404 else none

abbrev flaky : RemoteBackend ℕ ℕ ℕ
flaky = record {
  call = λ c n. (1 + n, n, failing n);
  probe = λ n. (n, none);
  close = λ n. (n, none);
}

abbrev steady : RemoteBackend ℕ ℕ ℕ
steady = record {
  call = λ c n. (1 + n, 100 + n, none);
  probe = λ n. (n, none);
  close = λ n. (n, none);
}

abbrev file : Bytes
file = codes "/tmp/f"

abbrev visit : List Action
visit = reprobe ∷ request (read file) ∷ request (read file) ∷ request (remove file) ∷ []

falls_back :
    (act_all flaky steady 0 new_router
      (reprobe ∷ request (read file) ∷ request (read file) ∷ [])
      (0, [])).1.0
    ≡ 3
unfolding act_all dispatch route op_of class probe_router
falls_back = refl

act_all-AllAllowed_example :
    let (r, (w, all)) = act_all flaky steady 0 new_router visit (0, []) in
    (es : List (Event ℕ ℕ)) × (all ≡ es ++ []) × AllAllowed false visit es r.agent_healthy
act_all-AllAllowed_example = act_all-AllAllowed flaky steady 0 new_router visit 0 []

dispatch-Replied_example : Replied flaky steady 0 (read file) (
    dispatch
      (logged agent_side flaky)
      (logged shell_side steady)
      0
      (record { agent_healthy = true; agent_last_error = none })
      (read file)
      (3, []))
dispatch-Replied_example = dispatch-Replied flaky steady 0 true none (read file) 3 []

non_idempotent-once_example :
    length
      (act flaky steady 0
        (record { agent_healthy = true; agent_last_error = none })
        (request (remove file))
        (5, [])).1.1
    ≡ 1
non_idempotent-once_example =
    non_idempotent-once flaky steady 0 (record { agent_healthy = true; agent_last_error = none })
      (remove file) 5 [] tt

unhealthy-OfShell_example :
    let (r, (w, all)) =
      act_all flaky steady 0 new_router (request (read file) ∷ request (stat file) ∷ []) (0, []) in
    (es : List (Event ℕ ℕ)) × (all ≡ es ++ []) × OfShell es × (r.agent_healthy ≡ false)
unhealthy-OfShell_example =
    unhealthy-OfShell flaky steady 0 new_router (request (read file) ∷ request (stat file) ∷ []) 0
      [] refl (refl, (refl, tt))
