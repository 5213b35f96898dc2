-- ===== src/Api/V1beta2/Base.antt =====
-- api/v1beta2/auth_config_types.go: values, patterns, credentials and HTTP endpoints. A Go map is an
-- association list.
use authorino.Common.{Bytes, Bool, Option, List, is_some, if◌then◌else◌}
use authorino.Common.Int.{ℤ}
use authorino.Evaluators.{StringMap}
use authorino.Api.Kube.{RawExtension}

pub record PatternExpression : Type 0 where
  pub selector : Bytes
  pub operator : Bytes
  pub value : Bytes

-- `PatternExpressionOrRef`: an expression, a reference, and the lists of `All` and `Any`.
mutual
  pub data PatternExpressionOrRef : Type 0 where
    pattern_expression_or_ref :
        PatternExpression → Bytes → PatternExpressions → PatternExpressions → PatternExpressionOrRef

  pub data PatternExpressions : Type 0 where
    no_expressions : PatternExpressions
    expression_and : PatternExpressionOrRef → PatternExpressions → PatternExpressions

pub record ValueOrSelector : Type 0 where
  pub value : RawExtension
  pub selector : Bytes

abbrev pub NamedValuesOrSelectors : Type 0
NamedValuesOrSelectors = StringMap ValueOrSelector

pub record EvaluatorCaching : Type 0 where
  pub key : ValueOrSelector
  pub ttl : ℤ

pub record CommonEvaluatorSpec : Type 0 where
  pub priority : ℤ
  pub metrics : Bool
  pub conditions : PatternExpressions
  pub cache : Option EvaluatorCaching

pub record Named : Type 0 where
  pub name : Bytes

pub record Prefixed : Type 0 where
  pub prefix : Bytes

pub data CredentialsType : Type 0 where
  authorization_header_credentials custom_header_credentials query_string_credentials
        cookie_credentials unknown_credentials :
      CredentialsType

-- `CustomHeader` has the one field of `Named`.
pub record Credentials : Type 0 where
  pub authorization_header : Option Prefixed
  pub custom_header : Option Named
  pub query_string : Option Named
  pub cookie : Option Named

-- `Credentials.GetType`
unfoldable pub credentials_type : Credentials → CredentialsType
credentials_type c =
    if is_some c.authorization_header
    then authorization_header_credentials
    else if is_some c.custom_header
    then custom_header_credentials
    else if is_some c.query_string
    then query_string_credentials
    else if is_some c.cookie
    then cookie_credentials
    else unknown_credentials

pub record SecretKeyReference : Type 0 where
  pub name : Bytes
  pub key : Bytes

pub record OAuth2ClientAuthentication : Type 0 where
  pub token_url : Bytes
  pub client_id : Bytes
  pub client_secret : SecretKeyReference
  pub scopes : List Bytes
  pub extra_params : StringMap Bytes
  pub cache : Option Bool

pub record HttpEndpointSpec : Type 0 where
  pub url : Bytes
  pub method : Option Bytes
  pub body : Option ValueOrSelector
  pub parameters : NamedValuesOrSelectors
  pub content_type : Bytes
  pub headers : NamedValuesOrSelectors
  pub shared_secret : Option SecretKeyReference
  pub oauth2 : Option OAuth2ClientAuthentication
  pub credentials : Credentials

pub record DenyWithSpec : Type 0 where
  pub code : ℤ
  pub message : Option ValueOrSelector
  pub headers : NamedValuesOrSelectors
  pub body : Option ValueOrSelector
