-- ===== src/Pipeline/Authorization.antt =====
-- The authorization phase of pkg/service/auth_pipeline.go, in every interleaving of its goroutines.
use mathlib.Core.List.{Memᴰ}
use mathlib.Core.Path.{subst}
use mathlib.Core.Option.{some-injective}
use authorino.Common.{
  is_some, Bytes, Bool, true, false, none, some, List, Outcome, ok, err, ◌≡◌, refl, ap, sym,
}
use authorino.Evaluators.{Config, AuthConfig}
use authorino.Priorities.Members.{group_by_priority-Mem}
use authorino.Group.{Stage, Event, Response}
use authorino.Group.Loop.{PhaseEnd}
use authorino.Group.Failures.{Passed, is_failure}
use authorino.Group.Successes.{Answered}
use authorino.Group.Verdicts.{AllWorkers-Mem, loop-Passed, loop_returned}
use authorino.Pipeline.{AuthPipeline, Env}
use authorino.Pipeline.Phases.{
  authorization_phase, authorization_result, run_authorization, grouped,
}

abbrev pub AuthorizationEnd : Type 0 → Type 0
AuthorizationEnd O = PhaseEnd (Config (Unit {0})) O (AuthPipeline O) Bytes

module _ {O : Type 0} (env : Env O) where
  stops :
      (pl : AuthPipeline O) (r : Response (Config (Unit {0})) O)
      → is_failure r.result ≡ true
      → is_some ((authorization_phase env).handle pl r).1 ≡ true
  unfolding authorization_phase authorization_result
  stops pl r h = result_stops r.evaluator pl r.result h
    where
      result_stops :
          (c : Config (Unit {0})) (pl : AuthPipeline O) (o : Outcome O)
          → is_failure o ≡ true
          → is_some (authorization_result env c pl o).1 ≡ true
      result_stops c pl (ok obj) h = cc
      result_stops c pl (err e) h = refl

  failure_of :
      (c : Config (Unit {0})) (pl : AuthPipeline O) (o : Outcome O) (message : Bytes)
      → (authorization_result env c pl o).1 ≡ some message
      → o ≡ err message
  unfolding authorization_result
  failure_of c pl (ok obj) message h = cc
  failure_of c pl (err e) message h = ap err (some-injective e message h)

  -- In every interleaving in which the authorization phase ends before the deadline and returns no
  -- failure, each policy of the config has a worker that ended either with an answer without an
  -- error or at conditions that did not match.
  pub authorization_granted :
      (config : AuthConfig O) (schedule : List (List (Event O))) (expired : Bool)
      (pl : AuthPipeline O) (e : AuthorizationEnd O)
      → run_authorization env config schedule expired pl ≡ some e
      → e.returned ≡ none
      → e.expired ≡ false
      → (c : Config (Unit {0})) → Memᴰ c config.authorization_configs
      → (st : Stage O) × Memᴰ (c, st) e.log × Passed (authorization_phase env) c st
  unfolding run_authorization
  authorization_granted config schedule expired pl e h ret intime c m =
      let (passed, taken) =
        loop-Passed (authorization_phase env) (unfold authorization_phase in refl) stops
          (grouped config.authorization_configs) schedule expired pl e h ret intime in
      AllWorkers-Mem (Passed (authorization_phase env)) e.log c passed (
        subst (Memᴰ c) (sym taken)
          ((group_by_priority-Mem (λ x. x.priority) c config.authorization_configs).1 m))

  -- In every interleaving in which the authorization phase returns a failure, the `Call` of some
  -- policy answered with an error, and its message is the one that is returned.
  pub authorization_denied :
      (config : AuthConfig O) (schedule : List (List (Event O))) (expired : Bool)
      (pl : AuthPipeline O) (e : AuthorizationEnd O) (message : Bytes)
      → run_authorization env config schedule expired pl ≡ some e
      → e.returned ≡ some message
      → (c : Config (Unit {0})) × Answered e.log c (err message)
  unfolding run_authorization
  authorization_denied config schedule expired pl e message h ret =
      let (c, o, s, answered, returned) =
        loop_returned (authorization_phase env) (grouped config.authorization_configs) schedule
          expired pl e message h ret in
      (
        c,
        subst (Answered e.log c) (failure_of c s o message (unfold authorization_phase in returned))
            answered,
      )
