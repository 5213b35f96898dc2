-- ===== src/Pipeline/Evaluate.antt =====
-- pkg/service/auth_pipeline.go: `Evaluate`, the phases in their order.
use authorino.Common.{Bytes, Bool, Option, none, some, [], ◌∷◌, Outcome, ok, err}
use authorino.Evaluators.{
  Config, IdentitySettings, AuthConfig, DenyWithValues, get_challenge_headers, evaluate_conditions,
  wrap_responses,
}
use authorino.Group.Loop.{PhaseEnd, run_groups}
use authorino.Pipeline.{
  AuthPipeline, Env, rpc_ok, unauthenticated, permission_denied, AuthResult, new_auth_pipeline,
  get_authorization_json, customize_deny_with,
}
use authorino.Pipeline.Phases.{
  Schedule, IdentityState, metadata_phase, response_phase, callback_phase, grouped, run_identity,
  run_authorization,
}

infixl 5 ◌>>=◌
abbrev pub ◌>>=◌ : {A B : Type 0} → Option A → (A → Option B) → Option B
none >>= f = none
some a >>= f = f a

abbrev pub initial_result : {O : Type 0} → AuthResult O
initial_result = record {
  code = rpc_ok;
  status = 0;
  message = [];
  headers = [];
  metadata = [];
  body = [];
}

module _ {O : Type 0} (env : Env O) (config : AuthConfig O) (schedule : Schedule O) where
  abbrev pub Ended : Type 0
  Ended = AuthResult O × AuthPipeline O

  -- Phase 5: callbacks, which change nothing of the result.
  unfoldable pub finish_callbacks : AuthResult O → Bool → AuthPipeline O → Option Ended
  unfolding run_groups callback_phase
  finish_callbacks r expired pl = do
    e ←
        run_groups (callback_phase env) (grouped config.callback_configs) schedule.callbacks expired
          pl
    some (r, e.state)

  -- Phase 4: response.
  unfoldable pub respond : Bool → AuthPipeline O → Option Ended
  unfolding run_groups response_phase wrap_responses finish_callbacks
  respond expired pl = do
    e ←
        run_groups (response_phase env) (grouped config.response_configs) schedule.response expired
          pl
    let (headers, metadata) = wrap_responses env.header_value e.state.response [] []
    finish_callbacks (record initial_result { headers = headers ∷ []; metadata = metadata })
        e.expired e.state

  unfoldable pub deny :
      AuthResult O → Option (DenyWithValues O) → Bool → AuthPipeline O → Option Ended
  unfolding customize_deny_with finish_callbacks
  deny r values expired pl = finish_callbacks (customize_deny_with env r values pl) expired pl

  unfoldable pub authorized_end :
      PhaseEnd (Config (Unit {0})) O (AuthPipeline O) Bytes → Option Ended
  unfolding respond deny
  authorized_end e = elim e.returned [
    | none ↦ respond e.expired e.state
    | some message ↦
        deny (record initial_result { code = permission_denied; message = message })
          config.unauthorized e.expired e.state
  ]

  -- Phases 2 and 3: metadata, authorization.
  unfoldable pub authorize : Bool → AuthPipeline O → Option Ended
  unfolding run_groups metadata_phase run_authorization authorized_end
  authorize expired pl = do
    m ←
        run_groups (metadata_phase env) (grouped config.metadata_configs) schedule.metadata expired
          pl
    e ← run_authorization env config schedule.authorization m.expired m.state
    authorized_end e

  unfoldable pub unauthenticated_end : Bytes → Bool → AuthPipeline O → Option Ended
  unfolding deny get_challenge_headers
  unauthenticated_end message =
      deny
        (record initial_result {
          code = unauthenticated;
          message = message;
          headers = get_challenge_headers config;
        })
        config.unauthenticated

  -- The end of `evaluateIdentityConfigs`: with no verified identity, the errors as JSON.
  unfoldable pub identified :
      PhaseEnd (Config (IdentitySettings O)) O (IdentityState O) (Outcome O) → Option Ended
  unfolding authorize unauthenticated_end
  identified e = elim e.returned [
    | none ↦ unauthenticated_end (env.errors_json e.state.1) e.expired e.state.0
    | some (ok obj) ↦ authorize e.expired e.state.0
    | some (err message) ↦ unauthenticated_end message e.expired e.state.0
  ]

  -- `Evaluate`; without matching conditions the request is let through.
  unfoldable pub evaluate : Bool → Option Ended
  unfolding run_identity identified evaluate_conditions new_auth_pipeline
  evaluate expired =
      elim (evaluate_conditions env.lib config.conditions
        (get_authorization_json env new_auth_pipeline)) [
          | some reason ↦ some (initial_result, new_auth_pipeline)
          | none ↦
              run_identity env config schedule.identity expired new_auth_pipeline >>= identified
        ]
