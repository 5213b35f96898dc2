-- ===== src/Api/Conversion/Roundtrip/Values.antt =====
-- Patterns, values, credentials and HTTP endpoints, to v1beta1 and back.
use mathlib.Core.Option
use authorino.Common.{
  Bytes, bytes_eq, is_empty, true, false, Option, [], ◌∷◌, is_some, ◌≡◌, refl, arith, ◌⊎◌, inl, inr,
}
use authorino.Api.V1beta2
use authorino.Api.V1beta2.Base.{
  pattern_expression_or_ref, no_expressions, expression_and, credentials_type,
}
use authorino.Api.Conversion.Base.{
  JsonText, pattern_expression_to, pattern_expression_from, pattern_to, pattern_from, patterns_to,
  patterns_from, named_value_to, named_value_from, named_values_to, named_values_from, in_key,
  credentials_to, credentials_from, secret_to, secret_from, oauth2_to, oauth2_from, value_to,
  value_from, caching_to, caching_from, http_to, http_from,
}
use authorino.Api.Conversion.Roundtrip.Maps.{
  DistinctKeys, AllValues, AllOption, AtMostOne, entries_from-entries_to, map-map_option,
  map-map_all,
}

mutual
  unfolding pattern_to pattern_from pattern_expression_to pattern_expression_from

  pattern_from-pattern_to : (p : V1beta2.PatternExpressionOrRef) → pattern_from (pattern_to p) ≡ p
  pattern_from-pattern_to (pattern_expression_or_ref e ref all any) =
      rw (patterns_from-patterns_to_all all, patterns_from-patterns_to_all any)

  patterns_from-patterns_to_all :
      (ps : V1beta2.PatternExpressions) → patterns_from (patterns_to ps) ≡ ps
  patterns_from-patterns_to_all no_expressions = refl
  patterns_from-patterns_to_all (expression_and p ps) =
      rw (pattern_from-pattern_to p, patterns_from-patterns_to_all ps)

pub patterns_from-patterns_to :
    (ps : V1beta2.PatternExpressions) → patterns_from (patterns_to ps) ≡ ps
patterns_from-patterns_to ps = patterns_from-patterns_to_all ps

-- A value beside a selector is empty.
abbrev pub ValueOrNone : V1beta2.ValueOrSelector → Type 0
ValueOrNone v = (is_empty v.selector ≡ true) ⊎ ((is_empty v.selector ≡ false) × (v.value.raw ≡ []))

named_value_from-named_value_to :
    (k : Bytes) (v : V1beta2.ValueOrSelector)
    → ValueOrNone v
    → named_value_from (named_value_to k v) ≡ (k, v)
unfolding named_value_from named_value_to
named_value_from-named_value_to k v (inl static) = rw static
named_value_from-named_value_to k v (inr (dynamic, empty)) = rw dynamic (cc)

abbrev pub IsNamedValues : V1beta2.NamedValuesOrSelectors → Type 0
IsNamedValues m = DistinctKeys m × AllValues ValueOrNone m

pub named_values_from-named_values_to :
    (m : V1beta2.NamedValuesOrSelectors)
    → IsNamedValues m
    → named_values_from (named_values_to m) ≡ m
unfolding named_values_from named_values_to
named_values_from-named_values_to m (distinct, values) =
    entries_from-entries_to ValueOrNone named_value_to named_value_from
      named_value_from-named_value_to m distinct values

-- At most one place for the credentials.
abbrev pub IsCredentials : V1beta2.Credentials → Type 0
IsCredentials c = AtMostOne (
    is_some c.authorization_header
    ∷ is_some c.custom_header
    ∷ is_some c.query_string
    ∷ is_some c.cookie
    ∷ [])

pub credentials_from-credentials_to :
    (c : V1beta2.Credentials) → IsCredentials c → credentials_from (credentials_to c) ≡ c
unfolding credentials_from credentials_to credentials_type in_key bytes_eq
credentials_from-credentials_to c h = ground arith

secret_from-secret_to : (s : V1beta2.SecretKeyReference) → secret_from (secret_to s) ≡ s
unfolding secret_from secret_to
secret_from-secret_to s = refl

oauth2_from-oauth2_to : (o : V1beta2.OAuth2ClientAuthentication) → oauth2_from (oauth2_to o) ≡ o
unfolding oauth2_from oauth2_to secret_from secret_to
oauth2_from-oauth2_to o = refl

pub secrets_back :
    (o : Option V1beta2.SecretKeyReference) → Option.map secret_from (Option.map secret_to o) ≡ o
secrets_back o = map-map_all secret_to secret_from secret_from-secret_to o

module _ (json : JsonText) where
  -- The JSON of a text, or a selector and no value.
  abbrev pub IsText : V1beta2.ValueOrSelector → Type 0
  IsText v =
      ((is_empty v.selector ≡ true) × ((s : Bytes) × (v.value.raw ≡ json.marshal s)))
      ⊎ ((is_empty v.selector ≡ false) × (v.value.raw ≡ []))

  abbrev pub IsTextKey : V1beta2.EvaluatorCaching → Type 0
  IsTextKey c = IsText c.key

  pub record IsHttp (h : V1beta2.HttpEndpointSpec) : Type 0 where
    pub body : AllOption IsText h.body
    pub parameters : IsNamedValues h.parameters
    pub headers : IsNamedValues h.headers
    pub credentials : IsCredentials h.credentials

  -- gjson reads the text that was encoded.
  module _ (string_of-marshal : (s : Bytes) → json.string_of (json.marshal s) ≡ s) where
    pub value_from-value_to :
        (v : V1beta2.ValueOrSelector) → IsText v → value_from json (value_to json v) ≡ v
    unfolding value_from value_to
    value_from-value_to v (inl (static, (s, text))) = rw static (cc (string_of-marshal s))
    value_from-value_to v (inr (dynamic, empty)) = rw dynamic (cc)

    pub caching_from-caching_to :
        (c : V1beta2.EvaluatorCaching) → IsTextKey c → caching_from json (caching_to json c) ≡ c
    unfolding caching_from caching_to
    caching_from-caching_to c text = rw (value_from-value_to c.key text)

    pub http_from-http_to :
        (h : V1beta2.HttpEndpointSpec) → IsHttp h → http_from json (http_to json h) ≡ h
    unfolding http_from http_to
    http_from-http_to h i = rw (
      map-map_option IsText (value_to json) (value_from json) value_from-value_to h.body i.body,
      named_values_from-named_values_to h.parameters i.parameters,
      named_values_from-named_values_to h.headers i.headers,
      secrets_back h.shared_secret,
      map-map_all oauth2_to oauth2_from oauth2_from-oauth2_to h.oauth2,
      credentials_from-credentials_to h.credentials i.credentials,
    )
