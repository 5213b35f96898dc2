-- ===== src/Api/Conversion/Responses.antt =====
-- api/v1beta2/auth_config_conversion.go: responses and denials.
use mathlib.Core.Option
use authorino.Common.{Bytes, codes, Option, none, some, List, [], ◌∷◌}
use authorino.Api.V1beta1
use authorino.Api.V1beta2
use authorino.Api.V1beta1.Evaluators.{response_type}
use authorino.Api.V1beta2.Evaluators.{auth_response_method}
use authorino.Api.Conversion.Base.{
  JsonText, named_values_to, named_values_from, value_to, value_from, caching_to,
}
use authorino.Api.Conversion.Authentication.{common_to, common_from}

abbrev pub http_header : Bytes
http_header = codes "httpHeader"

abbrev pub envoy_dynamic_metadata : Bytes
envoy_dynamic_metadata = codes "envoyDynamicMetadata"

-- The loops over the references to signing keys, which leave out those that are nil.
unfoldable pub signing_keys_to :
    List (Option V1beta2.WristbandSigningKeyRef) → List (Option V1beta1.SigningKeyRef)
signing_keys_to [] = []
signing_keys_to (none ∷ ks) = signing_keys_to ks
signing_keys_to (some k ∷ ks) =
    some (record { name = k.name; algorithm = k.algorithm }) ∷ signing_keys_to ks

unfoldable pub signing_keys_from :
    List (Option V1beta1.SigningKeyRef) → List (Option V1beta2.WristbandSigningKeyRef)
signing_keys_from [] = []
signing_keys_from (none ∷ ks) = signing_keys_from ks
signing_keys_from (some k ∷ ks) =
    some (record { name = k.name; algorithm = k.algorithm }) ∷ signing_keys_from ks

unfoldable pub wristband_to : V1beta2.WristbandAuthResponseSpec → V1beta1.Wristband
unfolding named_values_to signing_keys_to
wristband_to w = record {
  issuer = w.issuer;
  custom_claims = named_values_to w.custom_claims;
  token_duration = w.token_duration;
  signing_key_refs = signing_keys_to w.signing_key_refs;
}

unfoldable pub wristband_from : V1beta1.Wristband → V1beta2.WristbandAuthResponseSpec
unfolding named_values_from signing_keys_from
wristband_from w = record {
  issuer = w.issuer;
  custom_claims = named_values_from w.custom_claims;
  token_duration = w.token_duration;
  signing_key_refs = signing_keys_from w.signing_key_refs;
}

abbrev no_response_method : V1beta2.AuthResponseMethodSpec
no_response_method = record { plain = none; json = none; wristband = none }

module _ (json : JsonText) where
  -- The switch of `convertSuccessResponseTo`.
  unfoldable pub response_method_to :
      V1beta2.AuthResponseMethod
      → V1beta2.AuthResponseMethodSpec
      → V1beta1.Response
      → V1beta1.Response
  unfolding value_to named_values_to wristband_to
  response_method_to V1beta2.plain_auth_response s r = record r {
    plain = Option.map (value_to json) s.plain;
  }
  response_method_to V1beta2.json_auth_response s r = record r {
    json = Option.map named_values_to s.json;
  }
  response_method_to V1beta2.wristband_auth_response s r = record r {
    wristband = Option.map wristband_to s.wristband;
  }
  response_method_to V1beta2.unknown_auth_response s r = r

  -- `convertSuccessResponseTo`
  unfoldable pub response_to : Bytes → V1beta2.SuccessResponseSpec → Bytes → V1beta1.Response
  unfolding common_to caching_to auth_response_method response_method_to
  response_to name r wrapper = response_method_to (auth_response_method r.method) r.method (record {
    common = common_to name r.common;
    cache = Option.map (caching_to json) r.common.cache;
    wrapper = wrapper;
    wrapper_key = r.key;
    wristband = none;
    json = none;
    plain = none;
  })

  -- The switch of `convertSuccessResponseFrom`.
  unfoldable pub response_method_from :
      V1beta1.ResponseType → V1beta1.Response → V1beta2.AuthResponseMethodSpec
  unfolding value_from named_values_from wristband_from
  response_method_from V1beta1.response_plain r = record no_response_method {
    plain = Option.map (value_from json) r.plain;
  }
  response_method_from V1beta1.response_dynamic_json r = record no_response_method {
    json = Option.map named_values_from r.json;
  }
  response_method_from V1beta1.response_wristband r = record no_response_method {
    wristband = Option.map wristband_from r.wristband;
  }
  response_method_from V1beta1.response_unknown r = no_response_method

  -- `convertSuccessResponseFrom`
  unfoldable pub response_from : V1beta1.Response → Bytes × V1beta2.SuccessResponseSpec
  unfolding common_from response_type response_method_from
  response_from r = (
    r.common.name,
    record {
      common = common_from json r.common r.cache;
      method = response_method_from (response_type r) r;
      key = r.wrapper_key;
    },
  )

  -- `convertDenyWithSpecTo`
  unfoldable pub deny_with_to : V1beta2.DenyWithSpec → V1beta1.DenyWithSpec
  unfolding value_to named_values_to
  deny_with_to d = record {
    code = d.code;
    message = Option.map (value_to json) d.message;
    headers = named_values_to d.headers;
    body = Option.map (value_to json) d.body;
  }

  -- `convertDenyWithSpecFrom`
  unfoldable pub deny_with_from : V1beta1.DenyWithSpec → V1beta2.DenyWithSpec
  unfolding value_from named_values_from
  deny_with_from d = record {
    code = d.code;
    message = Option.map (value_from json) d.message;
    headers = named_values_from d.headers;
    body = Option.map (value_from json) d.body;
  }
