-- ===== src/Api/V1beta1/Resource.antt =====
-- api/v1beta1/auth_config_types.go: the resource, its specification and its status.
use authorino.Common.{Bytes, codes, bytes_eq, Bool, false, Option, List, [], ◌∷◌, if◌then◌else◌}
use authorino.Common.Int.{ℤ}
use authorino.Evaluators.{StringMap}
use authorino.Api.V1beta1.Base.{JsonPatternExpression, JsonPatterns, DenyWith}
use authorino.Api.V1beta1.Evaluators.{Identity, Metadata, Authorization, Response, Callback}

pub record AuthConfigSpec (L : Type 0) : Type 0 where
  pub hosts : List Bytes
  pub patterns : StringMap (List JsonPatternExpression)
  pub conditions : JsonPatterns
  pub identity : List (Identity L)
  pub metadata : List Metadata
  pub authorization : List Authorization
  pub response : List Response
  pub callbacks : List Callback
  pub deny_with : Option DenyWith

-- `Condition`, with times of a type `T`.
pub record Condition (T : Type 0) : Type 0 where
  pub condition_type : Bytes
  pub status : Bytes
  pub last_transition_time : T
  pub reason : Bytes
  pub message : Bytes
  pub last_updated_time : Option T

pub record Summary : Type 0 where
  pub ready : Bool
  pub hosts_ready : List Bytes
  pub num_hosts_ready : Bytes
  pub num_identity_sources : ℤ
  pub num_metadata_sources : ℤ
  pub num_authorization_policies : ℤ
  pub num_response_items : ℤ
  pub festival_wristband_enabled : Bool

pub record AuthConfigStatus (T : Type 0) : Type 0 where
  pub conditions : List (Condition T)
  pub summary : Summary

pub record AuthConfig (L M T : Type 0) : Type 0 where
  pub object_meta : M
  pub spec : AuthConfigSpec L
  pub status : AuthConfigStatus T

module _ {T : Type 0} where
  unfoldable pub is_ready : List (Condition T) → Bool
  is_ready [] = false
  is_ready (c ∷ cs) =
      let rest = is_ready cs in
      if bytes_eq c.condition_type (codes "Ready") then bytes_eq c.status (codes "True") else rest

  -- `AuthConfigStatus.Ready`
  unfoldable pub status_ready : AuthConfigStatus T → Bool
  unfolding is_ready
  status_ready s = is_ready s.conditions
