-- ===== src/Pipeline/Tests.antt =====
-- The auth pipeline of pkg/service/auth_pipeline.go on small inputs.
use mathlib.Core.List.{Memᴰ}
use authorino.Common.{ℕ, Bytes, codes, true, false, none, some, [], ◌∷◌, ok, err, ◌≡◌, ◌⊎◌, refl}
use authorino.Evaluators.{Config, IdentitySettings}
use authorino.Group.{
  Stage, finished, skipped, answered, Event, check, conditions, reply, callback, read,
}
use authorino.Pipeline.{
  AuthPipeline, Env, rpc_ok, unauthenticated, permission_denied, AuthResult, new_auth_pipeline,
}
use authorino.Pipeline.Phases.{Schedule, run_identity, run_authorization}
use authorino.Pipeline.Evaluate.{evaluate, initial_result}
use authorino.Group.Successes.{Answered}
use authorino.Group.Failures.{Passed}
use authorino.Pipeline.Phases.{authorization_phase}
use authorino.Pipeline.Identity.{IdentityEnd, Verified, identity-Verified}
use authorino.Pipeline.Authorization.{AuthorizationEnd, authorization_granted, authorization_denied}
use authorino.Pipeline.Deadline.{expired_grants}
use authorino.Pipeline.Results.{AuthorizationRun, Unmatched}
use authorino.Pipeline.Access.{
  Granted, Authenticated, access-Granted, access_denied, access_unauthenticated,
}
use authorino.Pipeline.Ends.{evaluate_ends}
use authorino.Pipeline.Fixtures.{env, identity, policy, config, called, schedule, granted_end}

granted_runs : evaluate env config (schedule (ok 7) (ok 1)) false ≡ some granted_end
unfolding evaluate authorino.Group.step authorino.Pipeline.resolve_extended_properties
    authorino.Pipeline.resolved_object
granted_runs = refl

access-Granted_example :
    Unmatched env config (schedule (ok 7) (ok 1))
    ⊎ Granted env config (schedule (ok 7) (ok 1)) false
access-Granted_example =
    access-Granted env config (schedule (ok 7) (ok 1)) false granted_end granted_runs refl

abbrev refused : Bytes
refused = codes "Unauthorized"

abbrev denied_end : AuthResult ℕ × AuthPipeline ℕ
denied_end = (
  record initial_result { code = permission_denied; message = refused },
  record {
    identity = (identity, 7) ∷ [];
    metadata = [];
    authorization = [];
    response = [];
    callbacks = [];
  },
)

denied_runs : evaluate env config (schedule (ok 7) (err refused)) false ≡ some denied_end
unfolding evaluate authorino.Group.step authorino.Pipeline.resolve_extended_properties
    authorino.Pipeline.resolved_object
denied_runs = refl

access_denied_example :
    (i : IdentityEnd ℕ) × Authenticated env config (schedule (ok 7) (err refused)) false i
    × ((e : AuthorizationEnd ℕ) × (message : Bytes) × (c : Config (Unit {0})) × AuthorizationRun env
          config
          (schedule (ok 7) (err refused))
          i.expired
          i.state.0
          e
        × (e.returned ≡ some message)
        × Answered e.log c (err message))
access_denied_example =
    access_denied env config (schedule (ok 7) (err refused)) false denied_end denied_runs refl

abbrev stranger_end : AuthResult ℕ × AuthPipeline ℕ
stranger_end = (
  record initial_result {
    code = unauthenticated;
    message = refused;
    headers = ((codes "WWW-Authenticate", codes "Bearer realm=\"id\"") ∷ []) ∷ [];
  },
  new_auth_pipeline,
)

stranger_runs : evaluate env config (schedule (err refused) (ok 1)) false ≡ some stranger_end
unfolding evaluate authorino.Group.step authorino.Pipeline.resolve_extended_properties
    authorino.Pipeline.resolved_object
stranger_runs = refl

access_unauthenticated_example :
    (i : IdentityEnd ℕ) × (run_identity env config (called (err refused)) false new_auth_pipeline
      ≡ some i)
    × ((i.returned ≡ none) ⊎ ((message : Bytes) × (i.returned ≡ some (err message))))
access_unauthenticated_example =
    access_unauthenticated env config (schedule (err refused) (ok 1)) false stranger_end
      stranger_runs refl

evaluate_ends_example :
    (s : Schedule ℕ) × (end : AuthResult ℕ × AuthPipeline ℕ) × (evaluate env config s false
      ≡ some end)
evaluate_ends_example = evaluate_ends env config (ok 1) false

abbrev identity_end : IdentityEnd ℕ
identity_end = record {
  state = (record new_auth_pipeline { identity = (identity, 7) ∷ [] }, []);
  expired = false;
  returned = some (ok 7);
  log = (identity, finished (answered (ok 7))) ∷ [];
}

identity_runs : run_identity env config (called (ok 7)) false new_auth_pipeline ≡ some identity_end
unfolding evaluate authorino.Group.step authorino.Pipeline.resolve_extended_properties
    authorino.Pipeline.resolved_object
identity_runs = refl

identity-Verified_example :
    (c : Config (IdentitySettings ℕ)) × Answered identity_end.log c (ok 7) × Verified env c 7
identity-Verified_example =
    identity-Verified env config (called (ok 7)) false new_auth_pipeline identity_end 7
      identity_runs refl

abbrev passed_end : AuthorizationEnd ℕ
passed_end = record {
  state = record new_auth_pipeline { authorization = (policy, 1) ∷ [] };
  expired = false;
  returned = none;
  log = (policy, finished (answered (ok 1))) ∷ [];
}

passed_runs : run_authorization env config (called (ok 1)) false new_auth_pipeline ≡ some passed_end
unfolding evaluate authorino.Group.step authorino.Pipeline.resolve_extended_properties
    authorino.Pipeline.resolved_object
passed_runs = refl

authorization_granted_example :
    (st : Stage ℕ) × Memᴰ (policy, st) passed_end.log × Passed (authorization_phase env) policy st
authorization_granted_example =
    authorization_granted env config (called (ok 1)) false new_auth_pipeline passed_end passed_runs
      refl refl policy (Memᴰ.head refl)

abbrev failed_end : AuthorizationEnd ℕ
failed_end = record {
  state = new_auth_pipeline;
  expired = false;
  returned = some refused;
  log = (policy, finished (answered (err refused))) ∷ [];
}

failed_runs :
    run_authorization env config (called (err refused)) false new_auth_pipeline ≡ some failed_end
unfolding evaluate authorino.Group.step authorino.Pipeline.resolve_extended_properties
    authorino.Pipeline.resolved_object
failed_runs = refl

authorization_denied_example : (c : Config (Unit {0})) × Answered failed_end.log c (err refused)
authorization_denied_example =
    authorization_denied env config (called (err refused)) false new_auth_pipeline failed_end
      refused failed_runs refl

-- The only policy is skipped, since the deadline has passed.
abbrev late_end : AuthorizationEnd ℕ
late_end = record {
  state = new_auth_pipeline;
  expired = true;
  returned = none;
  log = (policy, finished skipped) ∷ [];
}

late_runs :
    run_authorization env config ((check 0 ∷ []) ∷ []) true new_auth_pipeline ≡ some late_end
unfolding evaluate authorino.Group.step authorino.Pipeline.resolve_extended_properties
    authorino.Pipeline.resolved_object
late_runs = refl

expired_grants_example : late_end.returned ≡ none
expired_grants_example =
    expired_grants env config ((check 0 ∷ []) ∷ []) new_auth_pipeline late_end late_runs
