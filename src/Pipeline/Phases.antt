-- ===== src/Pipeline/Phases.antt =====
-- pkg/service/auth_pipeline.go: the five phases of the auth pipeline, and `Evaluate`.
use authorino.Common.{
  ℕ, length, Bytes, Bool, true, false, ◌==◌, Option, none, some, List, [], Outcome, ok, err,
  if◌then◌else◌,
}
use authorino.Evaluators.{
  Config, IdentitySettings, ResponseSettings, AuthConfig, StringMap, put_config, put_string,
  evaluate_conditions,
}
use authorino.Priorities.{group_by_priority}
use authorino.Group.{one, all, any, Event, Phase}
use authorino.Group.Loop.{PhaseEnd, run_groups}
use authorino.Pipeline.{AuthPipeline, Env, get_authorization_json, resolve_extended_properties}

-- The events of each group of each phase.
pub record Schedule (O : Type 0) : Type 0 where
  pub identity : List (List (Event O))
  pub metadata : List (List (Event O))
  pub authorization : List (List (Event O))
  pub response : List (List (Event O))
  pub callbacks : List (List (Event O))

-- What the identity phase keeps: the pipeline, and the errors by config name.
abbrev pub IdentityState : Type 0 → Type 0
IdentityState O = AuthPipeline O × StringMap Bytes

-- The groups of a phase's configs, by priority.
abbrev pub grouped : {X : Type 0} → List (Config X) → List (List (Config X))
grouped = group_by_priority (λ c. c.priority)

module _ {O : Type 0} (env : Env O) where
  -- Whether `evaluateConditions` lets a config be called.
  unfoldable pub applies : {X : Type 0} → Config X → AuthPipeline O → Bool
  unfolding evaluate_conditions
  applies c pl = elim (evaluate_conditions env.lib c.conditions (get_authorization_json env pl)) [
    | none ↦ true
    | some e ↦ false
  ]

  -- A failure in the identity phase is returned if there is one config only.
  unfoldable pub identity_failed :
      ℕ → IdentityState O → Bytes → Bytes → IdentityState O × Option (Outcome O)
  unfolding put_string
  identity_failed count (pl, errors) name e =
      if count == 1 then ((pl, errors), some (err e)) else ((pl, put_string name e errors), none)

  unfoldable pub identity_extended :
      ℕ
      → Config (IdentitySettings O)
      → O
      → AuthPipeline O
      → StringMap Bytes
      → Outcome O
      → IdentityState O × Option (Outcome O)
  unfolding identity_failed put_config
  identity_extended count c obj pl errors (err e) = identity_failed count (pl, errors) c.name e
  identity_extended count c obj pl errors (ok extended) =
      ((record pl { identity = put_config c extended pl.identity }, errors), some (ok obj))

  -- The body of the loop of `evaluateIdentityConfigs` over the responses. It is one step: the object
  -- is stored before its properties are resolved and again behind, and conditions that another
  -- goroutine evaluates between the two are left out.
  unfoldable pub identity_result :
      ℕ
      → Config (IdentitySettings O)
      → IdentityState O
      → Outcome O
      → IdentityState O × Option (Outcome O)
  unfolding identity_extended
  identity_result count c (pl, errors) (ok obj) =
      let stored = record pl { identity = put_config c obj pl.identity } in
      identity_extended count c obj stored errors (resolve_extended_properties env c stored)
  identity_result count c s (err e) = identity_failed count s c.name e

  unfoldable pub identity_phase :
      ℕ → Phase (Config (IdentitySettings O)) O (IdentityState O) (Outcome O)
  unfolding applies identity_result
  identity_phase count = record {
    strategy = one;
    applies = λ c s. applies c s.0;
    handle = λ s r. identity_result count r.evaluator s r.result;
  }

  metadata_result :
      Config (Unit {0}) → AuthPipeline O → Outcome O → AuthPipeline O × Option (Unit {0})
  unfolding put_config
  metadata_result c pl (ok obj) = (record pl { metadata = put_config c obj pl.metadata }, none)
  metadata_result c pl (err e) = (pl, none)

  -- `evaluateMetadataConfigs`
  unfoldable pub metadata_phase : Phase (Config (Unit {0})) O (AuthPipeline O) (Unit {0})
  unfolding applies metadata_result
  metadata_phase = record {
    strategy = any;
    applies = applies;
    handle = λ pl r. metadata_result r.evaluator pl r.result;
  }

  unfoldable pub authorization_result :
      Config (Unit {0}) → AuthPipeline O → Outcome O → AuthPipeline O × Option Bytes
  unfolding put_config
  authorization_result c pl (ok obj) =
      (record pl { authorization = put_config c obj pl.authorization }, none)
  authorization_result c pl (err e) = (pl, some e)

  -- `evaluateAuthorizationConfigs`: returns the message of the first failure it reads.
  unfoldable pub authorization_phase : Phase (Config (Unit {0})) O (AuthPipeline O) Bytes
  unfolding applies authorization_result
  authorization_phase = record {
    strategy = all;
    applies = applies;
    handle = λ pl r. authorization_result r.evaluator pl r.result;
  }

  response_result :
      Config ResponseSettings → AuthPipeline O → Outcome O → AuthPipeline O × Option (Unit {0})
  unfolding put_config
  response_result c pl (ok obj) = (record pl { response = put_config c obj pl.response }, none)
  response_result c pl (err e) = (pl, none)

  -- `evaluateResponseConfigs`
  unfoldable pub response_phase : Phase (Config ResponseSettings) O (AuthPipeline O) (Unit {0})
  unfolding applies response_result
  response_phase = record {
    strategy = all;
    applies = applies;
    handle = λ pl r. response_result r.evaluator pl r.result;
  }

  callback_result :
      Config (Unit {0}) → AuthPipeline O → Outcome O → AuthPipeline O × Option (Unit {0})
  unfolding put_config
  callback_result c pl (ok obj) = (record pl { callbacks = put_config c obj pl.callbacks }, none)
  callback_result c pl (err e) = (pl, none)

  -- `executeCallbacks`
  unfoldable pub callback_phase : Phase (Config (Unit {0})) O (AuthPipeline O) (Unit {0})
  unfolding applies callback_result
  callback_phase = record {
    strategy = any;
    applies = applies;
    handle = λ pl r. callback_result r.evaluator pl r.result;
  }

  unfoldable pub run_identity :
      AuthConfig O
      → List (List (Event O))
      → Bool
      → AuthPipeline O
      → Option (PhaseEnd (Config (IdentitySettings O)) O (IdentityState O) (Outcome O))
  unfolding identity_phase run_groups group_by_priority
  run_identity config schedule expired pl =
      run_groups (identity_phase (length config.identity_configs)) (grouped config.identity_configs)
        schedule expired (pl, [])

  unfoldable pub run_authorization :
      AuthConfig O
      → List (List (Event O))
      → Bool
      → AuthPipeline O
      → Option (PhaseEnd (Config (Unit {0})) O (AuthPipeline O) Bytes)
  unfolding authorization_phase run_groups group_by_priority
  run_authorization config schedule expired pl =
      run_groups authorization_phase (grouped config.authorization_configs) schedule expired pl
