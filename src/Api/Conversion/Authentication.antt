-- ===== src/Api/Conversion/Authentication.antt =====
-- api/v1beta2/auth_config_conversion.go: authentication.
-- A branch of a `switch` on the method reads the pointer that the method is for, which is not nil
-- there: it is converted as an Option.
use mathlib.Core.Option
use authorino.Common.{
  Bytes, Bool, true, false, Option, none, some, List, [], ◌∷◌, ◌++◌, map, if◌then◌else◌,
}
use authorino.Api.V1beta1
use authorino.Api.V1beta2
use authorino.Api.V1beta1.Evaluators.{identity_type}
use authorino.Api.V1beta2.Evaluators.{authentication_method}
use authorino.Api.Conversion.Base.{
  JsonText, patterns_to, patterns_from, named_values_to, named_values_from, credentials_to,
  credentials_from, caching_to, caching_from,
}

unfoldable pub extended : Bool → List V1beta1.JsonProperty → List V1beta1.ExtendedProperty
extended overwrite ps =
    map (λ (p : V1beta1.JsonProperty). record { json_property = p; overwrite = overwrite }) ps

-- The loops of `convertAuthenticationFrom`: the properties that overwrite, and those that do not.
unfoldable pub properties_that : Bool → List V1beta1.ExtendedProperty → List V1beta1.JsonProperty
properties_that wanted [] = []
properties_that wanted (p ∷ ps) =
    let rest = properties_that wanted ps in
    if p.overwrite
    then (if wanted then p.json_property ∷ rest else rest)
    else (if wanted then rest else p.json_property ∷ rest)

abbrev pub no_identity :
    {L : Type 0}
    → V1beta1.Common
    → Option V1beta1.EvaluatorCaching
    → V1beta1.Credentials
    → List V1beta1.ExtendedProperty
    → V1beta1.Identity L
no_identity common cache credentials properties = record {
  common = common;
  cache = cache;
  credentials = credentials;
  extended_properties = properties;
  oauth2 = none;
  oidc = none;
  api_key = none;
  mtls = none;
  kubernetes_auth = none;
  anonymous = none;
  plain = none;
}

abbrev pub no_authentication : {L : Type 0} → V1beta2.AuthenticationMethodSpec L
no_authentication = record {
  api_key = none;
  jwt = none;
  oauth2_token_introspection = none;
  kubernetes_token_review = none;
  x509_client_certificate = none;
  plain = none;
  anonymous_access = none;
}

unfoldable pub secrets_to : {L : Type 0} → V1beta2.SelectedSecrets L → V1beta1.SelectedSecrets L
secrets_to s = record { selector = s.selector; all_namespaces = s.all_namespaces }

unfoldable pub secrets_from : {L : Type 0} → V1beta1.SelectedSecrets L → V1beta2.SelectedSecrets L
secrets_from s = record { selector = s.selector; all_namespaces = s.all_namespaces }

-- The fields that all evaluators share.
unfoldable pub common_to : Bytes → V1beta2.CommonEvaluatorSpec → V1beta1.Common
unfolding patterns_to
common_to name c = record {
  name = name;
  priority = c.priority;
  metrics = c.metrics;
  conditions = patterns_to c.conditions;
}

module _ {L : Type 0} where
  -- The switch on the method in `convertAuthenticationTo`.
  unfoldable pub authentication_method_to :
      V1beta2.AuthenticationMethod
      → V1beta2.AuthenticationMethodSpec L
      → V1beta1.Identity L
      → V1beta1.Identity L
  unfolding secrets_to
  authentication_method_to V1beta2.api_key_authentication s i = record i {
    api_key = Option.map secrets_to s.api_key;
  }
  authentication_method_to V1beta2.jwt_authentication s i = record i {
    oidc =
        Option.map
          (λ (j : V1beta2.JwtAuthenticationSpec). record { endpoint = j.issuer_url; ttl = j.ttl })
          s.jwt;
  }
  authentication_method_to V1beta2.oauth2_token_introspection_authentication s i = record i {
    oauth2 =
        Option.map
          (λ (o : V1beta2.OAuth2TokenIntrospectionSpec). record {
            token_introspection_url = o.url;
            token_type_hint = o.token_type_hint;
            credentials = o.credentials;
          })
          s.oauth2_token_introspection;
  }
  authentication_method_to V1beta2.kubernetes_token_review_authentication s i = record i {
    kubernetes_auth =
        Option.map (λ (k : V1beta2.KubernetesTokenReviewSpec). record { audiences = k.audiences })
          s.kubernetes_token_review;
  }
  authentication_method_to V1beta2.x509_client_certificate_authentication s i = record i {
    mtls = Option.map secrets_to s.x509_client_certificate;
  }
  authentication_method_to V1beta2.plain_identity_authentication s i = record i {
    plain =
        Option.map (λ (p : V1beta2.PlainIdentitySpec). record { auth_json = p.selector }) s.plain;
  }
  authentication_method_to V1beta2.anonymous_access_authentication s i = record i {
    anonymous = some tt;
  }
  authentication_method_to V1beta2.unknown_authentication s i = i

  -- The switch on the type in `convertAuthenticationFrom`.
  unfoldable pub identity_method_from :
      V1beta1.IdentityType → V1beta1.Identity L → V1beta2.AuthenticationMethodSpec L
  unfolding secrets_from
  identity_method_from V1beta1.identity_api_key i = record no_authentication {
    api_key = Option.map secrets_from i.api_key;
  }
  identity_method_from V1beta1.identity_oidc i = record no_authentication {
    jwt =
        Option.map (λ (o : V1beta1.OidcConfig). record { issuer_url = o.endpoint; ttl = o.ttl })
          i.oidc;
  }
  identity_method_from V1beta1.identity_oauth2 i = record no_authentication {
    oauth2_token_introspection =
        Option.map
          (λ (o : V1beta1.OAuth2Config). record {
            url = o.token_introspection_url;
            token_type_hint = o.token_type_hint;
            credentials = o.credentials;
          })
          i.oauth2;
  }
  identity_method_from V1beta1.identity_kubernetes_auth i = record no_authentication {
    kubernetes_token_review =
        Option.map (λ (k : V1beta1.KubernetesAuth). record { audiences = k.audiences })
          i.kubernetes_auth;
  }
  identity_method_from V1beta1.identity_mtls i = record no_authentication {
    x509_client_certificate = Option.map secrets_from i.mtls;
  }
  identity_method_from V1beta1.identity_plain i = record no_authentication {
    plain = Option.map (λ (p : V1beta1.ValueFrom). record { selector = p.auth_json }) i.plain;
  }
  identity_method_from V1beta1.identity_anonymous i = record no_authentication {
    anonymous_access = some tt;
  }
  identity_method_from V1beta1.identity_unknown i = no_authentication

module _ (json : JsonText) where
  unfoldable pub common_from :
      V1beta1.Common → Option V1beta1.EvaluatorCaching → V1beta2.CommonEvaluatorSpec
  unfolding patterns_from caching_from
  common_from c cache = record {
    priority = c.priority;
    metrics = c.metrics;
    conditions = patterns_from c.conditions;
    cache = Option.map (caching_from json) cache;
  }

  module _ {L : Type 0} where
    -- `convertAuthenticationTo`
    unfoldable pub authentication_to : Bytes → V1beta2.AuthenticationSpec L → V1beta1.Identity L
    unfolding common_to caching_to credentials_to named_values_to extended authentication_method
        authentication_method_to
    authentication_to name a = authentication_method_to (authentication_method a.method) a.method (
        no_identity (common_to name a.common) (Option.map (caching_to json) a.common.cache)
          (credentials_to a.credentials)
          (extended true (named_values_to a.overrides)
            ++ extended false (named_values_to a.defaults)))

    -- `convertAuthenticationFrom`
    unfoldable pub authentication_from : V1beta1.Identity L → Bytes × V1beta2.AuthenticationSpec L
    unfolding common_from credentials_from named_values_from properties_that identity_type
        identity_method_from
    authentication_from i = (
      i.common.name,
      record {
        common = common_from i.common i.cache;
        credentials = credentials_from i.credentials;
        overrides = named_values_from (properties_that true i.extended_properties);
        defaults = named_values_from (properties_that false i.extended_properties);
        method = identity_method_from (identity_type i) i;
      },
    )
