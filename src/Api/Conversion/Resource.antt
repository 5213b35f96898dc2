-- ===== src/Api/Conversion/Resource.antt =====
-- api/v1beta2/auth_config_conversion.go: `ConvertTo` and `ConvertFrom`.
use mathlib.Core.Option
use authorino.Common.{
  bytes_eq, is_empty, Bool, true, false, not, ◌||◌, Option, none, some, List, [], ◌∷◌, ◌++◌, map,
  is_some, if◌then◌else◌,
}
use authorino.Api.V1beta1
use authorino.Api.V1beta2
use authorino.Api.Conversion.Maps.{entries_to, entries_from, map_values}
use authorino.Api.Conversion.Base.{
  JsonText, pattern_expression_to, pattern_expression_from, patterns_to, patterns_from,
}
use authorino.Api.Conversion.Authentication.{authentication_to, authentication_from}
use authorino.Api.Conversion.Evaluators.{
  metadata_to, metadata_from, authorization_to, authorization_from, callback_to, callback_from,
}
use authorino.Api.Conversion.Status.{status_to, status_from}
use authorino.Api.Conversion.Responses.{
  http_header, envoy_dynamic_metadata, response_to, response_from, deny_with_to, deny_with_from,
}

unfoldable pub in_header : V1beta1.Response → Bool
in_header r = bytes_eq r.wrapper http_header || is_empty r.wrapper

unfoldable pub in_metadata : V1beta1.Response → Bool
in_metadata r = bytes_eq r.wrapper envoy_dynamic_metadata

-- The loops of `ConvertFrom` over the responses, each with its test on the wrapper.
unfoldable pub responses_that :
    (V1beta1.Response → Bool) → List V1beta1.Response → List V1beta1.Response
responses_that wanted [] = []
responses_that wanted (r ∷ rs) =
    let rest = responses_that wanted rs in if wanted r then r ∷ rest else rest

abbrev pub denial_of :
    (V1beta1.DenyWith → Option V1beta1.DenyWithSpec)
    → Option V1beta1.DenyWith
    → Option V1beta1.DenyWithSpec
denial_of f none = none
denial_of f (some d) = f d

unfoldable pub no_responses : List V1beta1.Response → Bool
no_responses [] = true
no_responses (r ∷ rs) = false

module _ (json : JsonText) where
  -- The responses of `ConvertTo`: those in headers, then those in the dynamic metadata.
  unfoldable pub responses_to : Option V1beta2.ResponseSpec → List V1beta1.Response
  unfolding entries_to response_to
  responses_to none = []
  responses_to (some r) =
      entries_to (λ name x. response_to json name x http_header) r.success.headers
      ++ entries_to (λ name x. response_to json name x envoy_dynamic_metadata)
          r.success.dynamic_metadata

  -- `denyWith` of `ConvertTo`.
  unfoldable pub denials_to : Option V1beta2.ResponseSpec → Option V1beta1.DenyWith
  unfolding deny_with_to
  denials_to none = none
  denials_to (some r) =
      if is_some r.unauthenticated || is_some r.unauthorized
      then some (record {
        unauthenticated = Option.map (deny_with_to json) r.unauthenticated;
        unauthorized = Option.map (deny_with_to json) r.unauthorized;
      })
      else none

  unfoldable pub response_spec_from :
      Option V1beta1.DenyWith → List V1beta1.Response → Option V1beta2.ResponseSpec
  unfolding deny_with_from entries_from response_from responses_that in_header in_metadata
      no_responses
  response_spec_from d rs =
      if is_some d || not (no_responses rs)
      then some (record {
        unauthenticated = Option.map (deny_with_from json) (denial_of (λ x. x.unauthenticated) d);
        unauthorized = Option.map (deny_with_from json) (denial_of (λ x. x.unauthorized) d);
        success = record {
          headers = entries_from (response_from json) (responses_that in_header rs) [];
          dynamic_metadata = entries_from (response_from json) (responses_that in_metadata rs) [];
        };
      })
      else none

  module _ {L : Type 0} where
    unfoldable pub spec_to : V1beta2.AuthConfigSpec L → V1beta1.AuthConfigSpec L
    unfolding pattern_expression_to patterns_to authentication_to metadata_to authorization_to
        callback_to entries_to map_values responses_to denials_to
    spec_to s = record {
      hosts = s.hosts;
      patterns = map_values (map pattern_expression_to) s.named_patterns;
      conditions = patterns_to s.conditions;
      identity = entries_to (authentication_to json) s.authentication;
      metadata = entries_to (metadata_to json) s.metadata;
      authorization = entries_to (authorization_to json) s.authorization;
      response = responses_to s.response;
      callbacks = entries_to (callback_to json) s.callbacks;
      deny_with = denials_to s.response;
    }

    unfoldable pub spec_from : V1beta1.AuthConfigSpec L → V1beta2.AuthConfigSpec L
    unfolding pattern_expression_from patterns_from authentication_from metadata_from
        authorization_from callback_from entries_from map_values response_spec_from
    spec_from s = record {
      hosts = s.hosts;
      named_patterns = map_values (map pattern_expression_from) s.patterns;
      conditions = patterns_from s.conditions;
      authentication = entries_from (authentication_from json) s.identity [];
      metadata = entries_from (metadata_from json) s.metadata [];
      authorization = entries_from (authorization_from json) s.authorization [];
      response = response_spec_from s.deny_with s.response;
      callbacks = entries_from (callback_from json) s.callbacks [];
    }

  module _ {L M T : Type 0} where
    -- `ConvertTo`
    unfoldable pub convert_to : V1beta2.AuthConfig L M T → V1beta1.AuthConfig L M T
    unfolding spec_to status_to
    convert_to src = record {
      object_meta = src.object_meta;
      spec = spec_to src.spec;
      status = status_to src.status;
    }

    -- `ConvertFrom`
    unfoldable pub convert_from : V1beta1.AuthConfig L M T → V1beta2.AuthConfig L M T
    unfolding spec_from status_from
    convert_from src = record {
      object_meta = src.object_meta;
      spec = spec_from src.spec;
      status = status_from src.status;
    }
