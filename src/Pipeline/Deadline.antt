-- ===== src/Pipeline/Deadline.antt =====
-- The authorization phase of pkg/service/auth_pipeline.go when the request's deadline has passed.
use authorino.Common.{true, none, some, List, ◌≡◌, refl}
use authorino.Evaluators.{AuthConfig}
use authorino.Group.{Event}
use authorino.Group.Expired.{loop_expired}
use authorino.Pipeline.{AuthPipeline, Env}
use authorino.Pipeline.Phases.{authorization_phase, run_authorization, grouped}
use authorino.Pipeline.Authorization.{AuthorizationEnd}

module _ {O : Type 0} (env : Env O) where
  -- An authorization phase that begins after the deadline returns no failure, whatever the policies
  -- of the config and whatever they would answer: nothing denies the request.
  pub expired_grants :
      (config : AuthConfig O) (schedule : List (List (Event O))) (pl : AuthPipeline O)
      (e : AuthorizationEnd O)
      → run_authorization env config schedule true pl ≡ some e
      → e.returned ≡ none
  unfolding run_authorization
  expired_grants config schedule pl e h =
      loop_expired (authorization_phase env) (grouped config.authorization_configs) schedule true pl
        e h refl
