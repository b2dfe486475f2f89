-- ===== src/Agent/Dispatch/Repl.antt =====
-- The loop of `runREPL` in cmd/ptyrelay-agent/main.go.
use ptyrelay.Base.{
  Bool, true, false, List, [], ◌∷◌, map, Option, none, some, ◌⊎◌, inl, inr, ◌≡◌, refl, Bool-cases,
  if◌then◌else◌,
}
use ptyrelay.Proto.{Request, Response, bad_protocol}
use ptyrelay.Agent.Os.{Failure}
use ptyrelay.Agent.Dispatch.{
  Env, dispatch, Served, run_repl, is_bye, after_write, next_write, later_writes,
}
use ptyrelay.Agent.Dispatch.Answers.{Answers, dispatch-Answers}

-- The requests up to `bye`, with it.
unfoldable pub until_bye : List Request → List Request
until_bye [] = []
until_bye (req ∷ reqs) = let rest = until_bye reqs in if is_bye req.op then req ∷ [] else req ∷ rest

module _ {S : Type 0} (env : Env S) where
  -- The answers to requests that come one after the other.
  unfoldable pub dispatch_all : List Request → S → S × List Response
  dispatch_all [] s = (s, [])
  dispatch_all (req ∷ reqs) s =
      let (t, resp) = dispatch env req s in
      let (u, resps) = dispatch_all reqs t in (u, resp ∷ resps)

  -- When nothing fails, the loop answers each request in turn, up to and including `bye`, and ends
  -- without an error; what follows `bye` is not served.
  pub run_repl-dispatch_all :
      (reqs : List Request) (s : S)
      → run_repl env [] (map inr reqs) s ≡ record {
        state = (dispatch_all (until_bye reqs) s).0;
        written = (dispatch_all (until_bye reqs) s).1;
        error = none;
      }
  unfolding run_repl until_bye dispatch_all
  run_repl-dispatch_all [] s = refl
  run_repl-dispatch_all (req ∷ reqs) s = elim (Bool-cases (is_bye req.op)) [
    | inl last ↦ rw last refl
    | inr on ↦ rw (on, run_repl-dispatch_all reqs (dispatch env req s).0) refl
  ]

  -- What follows a response, by the outcome of its write and by whether its request was `bye`.
  abbrev pub Follows : Option Failure → Bool → List Response → Option Failure → Type 0 → Type 0
  Follows (some e) last resps error Later = (resps ≡ []) × (error ≡ some e)
  Follows none true resps error Later = (resps ≡ []) × (error ≡ none)
  Follows none false resps error Later = Later

  -- The responses stand for the inputs, one each in order, up to the first whose write fails, or that is `bye`, or
  -- that is no request; that one has a response and ends the loop, with the error of the write, with none, or with
  -- the error of the decoder. At the end of the input the loop ends without an error.
  abbrev pub InOrder :
      List (Option Failure) → List (Failure ⊎ Request) → List Response → Option Failure → Type 0
  InOrder out [] resps error = (resps ≡ []) × (error ≡ none)
  InOrder out (input ∷ inputs) [] error = ⊥
  InOrder out (inl e ∷ input) (resp ∷ resps) error =
      (resp.id ≡ [])
      × (resp.ok ≡ false)
      × (resp.err_kind ≡ some bad_protocol)
      × (resps ≡ [])
      × (error ≡ some e)
  InOrder out (inr req ∷ input) (resp ∷ resps) error =
      Answers req resp
      × Follows (next_write out) (is_bye req.op) resps error
          (InOrder (later_writes out) input resps error)

  after_write-Follows :
      (rest : Served env) (t : S) (req : Request) (resp : Response) (out : List (Option Failure))
      (input : List (Failure ⊎ Request)) (last : Bool) (e : Option Failure)
      → InOrder out input rest.written rest.error
      → let end = after_write env rest t resp last e in
        (resps : List Response) × (end.written ≡ resp ∷ resps)
        × Follows e last resps end.error (InOrder out input resps end.error)
  after_write-Follows rest t req resp out input last (some e) h = ([], refl, (refl, refl))
  after_write-Follows rest t req resp out input true none h = ([], refl, (refl, refl))
  after_write-Follows rest t req resp out input false none h = (rest.written, refl, h)

  -- Whatever arrives and whichever writes fail, the responses answer the requests in order, each that is
  -- reached once; the loop ends at the first write that fails, with its error, at the first input that is no
  -- request, with one response of the kind `bad_protocol` and the decoder's error, or without an error behind `bye` or at the
  -- end of the input, and not before.
  pub run_repl-InOrder :
      (out : List (Option Failure)) (input : List (Failure ⊎ Request)) (s : S)
      → let end = run_repl env out input s in InOrder out input end.written end.error
  unfolding run_repl
  run_repl-InOrder out [] s = (refl, refl)
  run_repl-InOrder out (inl e ∷ input) s = (refl, refl, refl, refl, refl)
  run_repl-InOrder out (inr req ∷ input) s =
      let (t, resp) = dispatch env req s in
      let (resps, spelled, follows) =
        after_write-Follows (run_repl env (later_writes out) input t) t req resp (later_writes out)
          input (is_bye req.op) (next_write out) (run_repl-InOrder (later_writes out) input t) in
      rw spelled (dispatch-Answers env req s, follows)
