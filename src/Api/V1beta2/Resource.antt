-- ===== src/Api/V1beta2/Resource.antt =====
-- api/v1beta2/auth_config_types.go: the resource, its specification and its status.
use authorino.Common.{Bytes, codes, bytes_eq, Bool, false, Option, List, [], ◌∷◌, if◌then◌else◌}
use authorino.Common.Int.{ℤ}
use authorino.Evaluators.{StringMap}
use authorino.Api.V1beta2.Base.{PatternExpression, PatternExpressions, DenyWithSpec}
use authorino.Api.V1beta2.Evaluators.{
  AuthenticationSpec, MetadataSpec, AuthorizationSpec, SuccessResponseSpec, CallbackSpec,
}

pub record WrappedSuccessResponseSpec : Type 0 where
  pub headers : StringMap SuccessResponseSpec
  pub dynamic_metadata : StringMap SuccessResponseSpec

pub record ResponseSpec : Type 0 where
  pub unauthenticated : Option DenyWithSpec
  pub unauthorized : Option DenyWithSpec
  pub success : WrappedSuccessResponseSpec

pub record AuthConfigSpec (L : Type 0) : Type 0 where
  pub hosts : List Bytes
  pub named_patterns : StringMap (List PatternExpression)
  pub conditions : PatternExpressions
  pub authentication : StringMap (AuthenticationSpec L)
  pub metadata : StringMap MetadataSpec
  pub authorization : StringMap AuthorizationSpec
  pub response : Option ResponseSpec
  pub callbacks : StringMap CallbackSpec

-- `AuthConfigStatusCondition`, with times of a type `T`.
pub record Condition (T : Type 0) : Type 0 where
  pub condition_type : Bytes
  pub status : Bytes
  pub last_transition_time : T
  pub reason : Bytes
  pub message : Bytes
  pub last_updated_time : Option T

-- `AuthConfigStatusSummary`
pub record Summary : Type 0 where
  pub ready : Bool
  pub hosts_ready : List Bytes
  pub num_hosts_ready : Bytes
  pub num_identity_sources : ℤ
  pub num_metadata_sources : ℤ
  pub num_authorization_policies : ℤ
  pub num_response_items : ℤ
  pub festival_wristband_enabled : Bool

pub record AuthConfigStatus (T : Type 0) : Type 0 where
  pub conditions : List (Condition T)
  pub summary : Summary

pub record AuthConfig (L M T : Type 0) : Type 0 where
  pub object_meta : M
  pub spec : AuthConfigSpec L
  pub status : AuthConfigStatus T

module _ {T : Type 0} where
  is_ready : List (Condition T) → Bool
  is_ready [] = false
  is_ready (c ∷ cs) =
      let rest = is_ready cs in
      if bytes_eq c.condition_type (codes "Ready") then bytes_eq c.status (codes "True") else rest

  -- `AuthConfigStatus.Ready`
  unfoldable pub status_ready : AuthConfigStatus T → Bool
  unfolding is_ready
  status_ready s = is_ready s.conditions
