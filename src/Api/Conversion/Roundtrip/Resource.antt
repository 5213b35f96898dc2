-- ===== src/Api/Conversion/Roundtrip/Resource.antt =====
-- `ConvertTo`, then `ConvertFrom`.

use authorino.Common.{Bytes, map, ◌≡◌, refl}
use authorino.Evaluators.{StringMap}
use authorino.Api.V1beta2
use authorino.Api.Conversion.Base.{JsonText, pattern_expression_to, pattern_expression_from}
use authorino.Api.Conversion.Authentication.{authentication_to, authentication_from}
use authorino.Api.Conversion.Evaluators.{
  metadata_to, metadata_from, authorization_to, authorization_from, callback_to, callback_from,
}
use authorino.Api.Conversion.Status.{
  condition_to, condition_from, summary_to, summary_from, status_to, status_from,
}
use authorino.Api.Conversion.Resource.{spec_to, spec_from, convert_to, convert_from}
use authorino.Api.Conversion.Roundtrip.Maps.{
  DistinctKeys, AllValues, AllOption, entries_from-entries_to, map-map_list, map_values-map_values,
}
use authorino.Api.Conversion.Roundtrip.ResponseSpec.{
  IsResponseSpec, response_spec_from-responses_to,
}
use authorino.Api.Conversion.Roundtrip.Values.{patterns_from-patterns_to}
use authorino.Api.Conversion.Roundtrip.Authentication.{
  IsAuthentication, authentication_from-authentication_to,
}
use authorino.Api.Conversion.Roundtrip.Metadata.{
  IsMetadata, IsCallback, metadata_from-metadata_to, callback_from-callback_to,
}
use authorino.Api.Conversion.Roundtrip.Authorization.{
  IsAuthorization, authorization_from-authorization_to,
}

module _ {T : Type 0} where
  status_from-status_to : (s : V1beta2.AuthConfigStatus T) → status_from (status_to s) ≡ s
  unfolding status_from status_to condition_to condition_from summary_to summary_from
  status_from-status_to s = rw (map-map_list condition_to condition_from (λ c. refl) s.conditions)

module _ (json : JsonText) where
  abbrev pub IsMap : {A : Type 0} → (A → Type 0) → StringMap A → Type 0
  IsMap P m = DistinctKeys m × AllValues P m

  -- A specification that v1beta1 can hold.
  pub record IsSpec {L : Type 0} (s : V1beta2.AuthConfigSpec L) : Type 0 where
    pub authentication : IsMap (IsAuthentication json) s.authentication
    pub metadata : IsMap (IsMetadata json) s.metadata
    pub authorization : IsMap (IsAuthorization json) s.authorization
    pub response : AllOption (IsResponseSpec json) s.response
    pub callbacks : IsMap (IsCallback json) s.callbacks

  module _ (string_of-marshal : (s : Bytes) → json.string_of (json.marshal s) ≡ s) where
    spec_from-spec_to :
        {L : Type 0} (s : V1beta2.AuthConfigSpec L) → IsSpec s → spec_from json (spec_to json s) ≡ s
    unfolding spec_from spec_to
    spec_from-spec_to s h = rw (
      map_values-map_values (map pattern_expression_to) (map pattern_expression_from)
          (map-map_list pattern_expression_to pattern_expression_from (λ e. refl)) s.named_patterns,
      patterns_from-patterns_to s.conditions,
      entries_from-entries_to (IsAuthentication json) (authentication_to json)
          (authentication_from json) (authentication_from-authentication_to json string_of-marshal)
          s.authentication h.authentication.0 h.authentication.1,
      entries_from-entries_to (IsMetadata json) (metadata_to json) (metadata_from json)
          (metadata_from-metadata_to json string_of-marshal) s.metadata h.metadata.0 h.metadata.1,
      entries_from-entries_to (IsAuthorization json) (authorization_to json)
          (authorization_from json) (authorization_from-authorization_to json string_of-marshal)
          s.authorization h.authorization.0 h.authorization.1,
      response_spec_from-responses_to json string_of-marshal s.response h.response,
      entries_from-entries_to (IsCallback json) (callback_to json) (callback_from json)
          (callback_from-callback_to json string_of-marshal) s.callbacks h.callbacks.0
          h.callbacks.1,
    )

    -- An AuthConfig of v1beta2 that goes through `ConvertTo` to v1beta1 and back through `ConvertFrom`
    -- is the same again, if it is one that v1beta1 can hold and gjson reads a text that was encoded as
    -- JSON back. Such an AuthConfig has in each map distinct names; in each evaluator at most one
    -- method and at most one place of credentials; where v1beta1 has a text, the JSON of a text or a
    -- selector and no value; beside a selector no value; in an external OPA policy a URL, and besides
    -- it only a shared secret, credentials and a TTL; in a review of access its user; no nil reference
    -- to a signing key; no cache in a callback; and in its response, if it has one, something.
    pub convert_from-convert_to :
        {L M T : Type 0} (c : V1beta2.AuthConfig L M T)
        → IsSpec c.spec
        → convert_from json (convert_to json c) ≡ c
    unfolding convert_from convert_to
    convert_from-convert_to c h = rw (spec_from-spec_to c.spec h, status_from-status_to c.status)
