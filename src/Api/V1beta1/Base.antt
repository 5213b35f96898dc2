-- ===== src/Api/V1beta1/Base.antt =====
-- api/v1beta1/auth_config_types.go: values, patterns, credentials and HTTP endpoints.
use authorino.Common.{Bytes, Bool, Option, List}
use authorino.Common.Int.{ℤ}
use authorino.Evaluators.{StringMap}
use authorino.Api.Kube.{RawExtension}

pub record SecretKeyReference : Type 0 where
  pub name : Bytes
  pub key : Bytes

pub record ValueFrom : Type 0 where
  pub auth_json : Bytes

pub record StaticOrDynamicValue : Type 0 where
  pub value : Bytes
  pub value_from : ValueFrom

pub record JsonProperty : Type 0 where
  pub name : Bytes
  pub value : RawExtension
  pub value_from : ValueFrom

pub record EvaluatorCaching : Type 0 where
  pub key : StaticOrDynamicValue
  pub ttl : ℤ

pub record JsonPatternExpression : Type 0 where
  pub selector : Bytes
  pub operator : Bytes
  pub value : Bytes

-- `JSONPattern`: a reference, an expression, and the lists of `All` and `Any`.
mutual
  pub data JsonPattern : Type 0 where
    json_pattern : Bytes → JsonPatternExpression → JsonPatterns → JsonPatterns → JsonPattern

  pub data JsonPatterns : Type 0 where
    no_patterns : JsonPatterns
    pattern_and : JsonPattern → JsonPatterns → JsonPatterns

pub record Credentials : Type 0 where
  pub location : Bytes
  pub key_selector : Bytes

pub record ExtendedProperty : Type 0 where
  pub json_property : JsonProperty
  pub overwrite : Bool

pub record OAuth2ClientAuthentication : Type 0 where
  pub token_url : Bytes
  pub client_id : Bytes
  pub client_secret : SecretKeyReference
  pub scopes : List Bytes
  pub extra_params : StringMap Bytes
  pub cache : Option Bool

-- `Metadata_GenericHTTP`
pub record GenericHttp : Type 0 where
  pub endpoint : Bytes
  pub method : Option Bytes
  pub body : Option StaticOrDynamicValue
  pub parameters : List JsonProperty
  pub content_type : Bytes
  pub headers : List JsonProperty
  pub shared_secret : Option SecretKeyReference
  pub oauth2 : Option OAuth2ClientAuthentication
  pub credentials : Credentials

pub record DenyWithSpec : Type 0 where
  pub code : ℤ
  pub message : Option StaticOrDynamicValue
  pub headers : List JsonProperty
  pub body : Option StaticOrDynamicValue

pub record DenyWith : Type 0 where
  pub unauthenticated : Option DenyWithSpec
  pub unauthorized : Option DenyWithSpec
