-- ===== src/Api/Conversion/Base.antt =====
-- api/v1beta2/auth_config_conversion.go: patterns, values, credentials and HTTP endpoints.
-- gjson and the encoding of a string as JSON are a parameter.
use mathlib.Core.Option
use authorino.Common.{Bytes, codes, bytes_eq, is_empty, Option, none, some, List, [], if◌then◌else◌}
use authorino.Api.Kube.{no_raw}
use authorino.Api.Conversion.Maps.{entries_to, entries_from}
use authorino.Api.V1beta1
use authorino.Api.V1beta2
use authorino.Api.V1beta1.Base.{json_pattern, no_patterns, pattern_and}
use authorino.Api.V1beta2.Base.{
  pattern_expression_or_ref, no_expressions, expression_and, credentials_type,
  authorization_header_credentials, custom_header_credentials, query_string_credentials,
  cookie_credentials, unknown_credentials,
}

-- `gjson.ParseBytes(raw).String()`, and `json.Marshal` of a string.
pub record JsonText : Type 0 where
  pub string_of : Bytes → Bytes
  pub marshal : Bytes → Bytes

unfoldable pub pattern_expression_to : V1beta2.PatternExpression → V1beta1.JsonPatternExpression
pattern_expression_to e = record { selector = e.selector; operator = e.operator; value = e.value }

unfoldable pub pattern_expression_from : V1beta1.JsonPatternExpression → V1beta2.PatternExpression
pattern_expression_from e = record { selector = e.selector; operator = e.operator; value = e.value }

-- `convertPatternExpressionOrRefTo`, on one and on a slice.
unfoldable mutual
  unfolding pattern_expression_to

  pub pattern_to : V1beta2.PatternExpressionOrRef → V1beta1.JsonPattern
  pattern_to (pattern_expression_or_ref e ref all any) =
      json_pattern ref (pattern_expression_to e) (patterns_to all) (patterns_to any)

  pub patterns_to : V1beta2.PatternExpressions → V1beta1.JsonPatterns
  patterns_to no_expressions = no_patterns
  patterns_to (expression_and p ps) = pattern_and (pattern_to p) (patterns_to ps)

-- `convertPatternExpressionOrRefFrom`
unfoldable mutual
  unfolding pattern_expression_from

  pub pattern_from : V1beta1.JsonPattern → V1beta2.PatternExpressionOrRef
  pattern_from (json_pattern ref e all any) =
      pattern_expression_or_ref (pattern_expression_from e) ref (patterns_from all)
        (patterns_from any)

  pub patterns_from : V1beta1.JsonPatterns → V1beta2.PatternExpressions
  patterns_from no_patterns = no_expressions
  patterns_from (pattern_and p ps) = expression_and (pattern_from p) (patterns_from ps)

abbrev pub selector_to : V1beta2.ValueOrSelector → V1beta1.ValueFrom
selector_to v = record { auth_json = v.selector }

unfoldable pub named_value_to : Bytes → V1beta2.ValueOrSelector → V1beta1.JsonProperty
named_value_to name v = record { name = name; value = v.value; value_from = selector_to v }

-- `convertNamedValuesOrSelectorsTo`, in the order of the map.
unfoldable pub named_values_to : V1beta2.NamedValuesOrSelectors → List V1beta1.JsonProperty
unfolding named_value_to entries_to
named_values_to m = entries_to named_value_to m

unfoldable pub named_value_from : V1beta1.JsonProperty → Bytes × V1beta2.ValueOrSelector
named_value_from p = (
  p.name,
  record {
    value = if is_empty p.value_from.auth_json then p.value else no_raw;
    selector = p.value_from.auth_json;
  },
)

-- `convertNamedValuesOrSelectorsFrom`
unfoldable pub named_values_from : List V1beta1.JsonProperty → V1beta2.NamedValuesOrSelectors
unfolding named_value_from entries_from
named_values_from ps = entries_from named_value_from ps []

unfoldable pub in_key : Bytes → Option Bytes → V1beta1.Credentials
in_key location key = record { location = location; key_selector = Option.get_or key [] }

-- `convertCredentialsTo`
unfoldable pub credentials_to : V1beta2.Credentials → V1beta1.Credentials
unfolding credentials_type in_key
credentials_to c = elim (credentials_type c) [
  | authorization_header_credentials ↦
      in_key (codes "authorization_header")
        (Option.map (λ (p : V1beta2.Prefixed). p.prefix) c.authorization_header)
  | custom_header_credentials ↦
      in_key (codes "custom_header") (Option.map (λ (n : V1beta2.Named). n.name) c.custom_header)
  | query_string_credentials ↦
      in_key (codes "query") (Option.map (λ (n : V1beta2.Named). n.name) c.query_string)
  | cookie_credentials ↦
      in_key (codes "cookie") (Option.map (λ (n : V1beta2.Named). n.name) c.cookie)
  | unknown_credentials ↦ in_key [] none
]

abbrev pub no_credentials : V1beta2.Credentials
no_credentials = record {
  authorization_header = none;
  custom_header = none;
  query_string = none;
  cookie = none;
}

-- `convertCredentialsFrom`
unfoldable pub credentials_from : V1beta1.Credentials → V1beta2.Credentials
credentials_from c =
    if bytes_eq c.location (codes "authorization_header")
    then record no_credentials { authorization_header = some (record { prefix = c.key_selector }) }
    else if bytes_eq c.location (codes "custom_header")
    then record no_credentials { custom_header = some (record { name = c.key_selector }) }
    else if bytes_eq c.location (codes "query")
    then record no_credentials { query_string = some (record { name = c.key_selector }) }
    else if bytes_eq c.location (codes "cookie")
    then record no_credentials { cookie = some (record { name = c.key_selector }) }
    else no_credentials

unfoldable pub secret_to : V1beta2.SecretKeyReference → V1beta1.SecretKeyReference
secret_to s = record { name = s.name; key = s.key }

unfoldable pub secret_from : V1beta1.SecretKeyReference → V1beta2.SecretKeyReference
secret_from s = record { name = s.name; key = s.key }

-- `convertOAuth2ClientAuthenticationTo`
unfoldable pub oauth2_to : V1beta2.OAuth2ClientAuthentication → V1beta1.OAuth2ClientAuthentication
unfolding secret_to
oauth2_to o = record {
  token_url = o.token_url;
  client_id = o.client_id;
  client_secret = secret_to o.client_secret;
  scopes = o.scopes;
  extra_params = o.extra_params;
  cache = o.cache;
}

-- `convertOAuth2ClientAuthenticationFrom`
unfoldable pub oauth2_from : V1beta1.OAuth2ClientAuthentication → V1beta2.OAuth2ClientAuthentication
unfolding secret_from
oauth2_from o = record {
  token_url = o.token_url;
  client_id = o.client_id;
  client_secret = secret_from o.client_secret;
  scopes = o.scopes;
  extra_params = o.extra_params;
  cache = o.cache;
}

module _ (json : JsonText) where
  -- `convertValueOrSelectorTo`
  unfoldable pub value_to : V1beta2.ValueOrSelector → V1beta1.StaticOrDynamicValue
  value_to v = record { value = json.string_of v.value.raw; value_from = selector_to v }

  -- `convertValueOrSelectorFrom`
  unfoldable pub value_from : V1beta1.StaticOrDynamicValue → V1beta2.ValueOrSelector
  value_from v = record {
    value =
        if is_empty v.value_from.auth_json then record { raw = json.marshal v.value } else no_raw;
    selector = v.value_from.auth_json;
  }

  -- `convertEvaluatorCachingTo`, `convertEvaluatorCachingFrom`
  unfoldable pub caching_to : V1beta2.EvaluatorCaching → V1beta1.EvaluatorCaching
  unfolding value_to
  caching_to c = record { key = value_to c.key; ttl = c.ttl }

  unfoldable pub caching_from : V1beta1.EvaluatorCaching → V1beta2.EvaluatorCaching
  unfolding value_from
  caching_from c = record { key = value_from c.key; ttl = c.ttl }

  -- `convertHttpEndpointSpecTo`
  unfoldable pub http_to : V1beta2.HttpEndpointSpec → V1beta1.GenericHttp
  unfolding value_to named_values_to secret_to oauth2_to credentials_to
  http_to h = record {
    endpoint = h.url;
    method = h.method;
    body = Option.map value_to h.body;
    parameters = named_values_to h.parameters;
    content_type = h.content_type;
    headers = named_values_to h.headers;
    shared_secret = Option.map secret_to h.shared_secret;
    oauth2 = Option.map oauth2_to h.oauth2;
    credentials = credentials_to h.credentials;
  }

  -- `convertHttpEndpointSpecFrom`
  unfoldable pub http_from : V1beta1.GenericHttp → V1beta2.HttpEndpointSpec
  unfolding value_from named_values_from secret_from oauth2_from credentials_from
  http_from h = record {
    url = h.endpoint;
    method = h.method;
    body = Option.map value_from h.body;
    parameters = named_values_from h.parameters;
    content_type = h.content_type;
    headers = named_values_from h.headers;
    shared_secret = Option.map secret_from h.shared_secret;
    oauth2 = Option.map oauth2_from h.oauth2;
    credentials = credentials_from h.credentials;
  }
