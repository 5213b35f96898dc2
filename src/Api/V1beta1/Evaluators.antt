-- ===== src/Api/V1beta1/Evaluators.antt =====
-- api/v1beta1/auth_config_types.go: identity, metadata, authorization, response and callbacks, with
-- the functions `GetType`. The fields that these share are one record, `Common`.
use authorino.Common.{Bytes, Bool, Option, List, is_some, if◌then◌else◌}
use authorino.Common.Int.{ℤ}
use authorino.Api.Kube.{LocalObjectReference}
use authorino.Api.V1beta1.Base.{
  StaticOrDynamicValue, ValueFrom, JsonProperty, EvaluatorCaching, JsonPatterns, Credentials,
  ExtendedProperty, GenericHttp, SecretKeyReference,
}

-- Name, priority, metrics and conditions.
pub record Common : Type 0 where
  pub name : Bytes
  pub priority : ℤ
  pub metrics : Bool
  pub conditions : JsonPatterns

-- `Identity_OAuth2Config`
pub record OAuth2Config : Type 0 where
  pub token_introspection_url : Bytes
  pub token_type_hint : Bytes
  pub credentials : LocalObjectReference

-- `Identity_OidcConfig`
pub record OidcConfig : Type 0 where
  pub endpoint : Bytes
  pub ttl : ℤ

-- `Identity_APIKey` and `Identity_MTLS`
pub record SelectedSecrets (L : Type 0) : Type 0 where
  pub selector : L
  pub all_namespaces : Bool

-- `Identity_KubernetesAuth`
pub record KubernetesAuth : Type 0 where
  pub audiences : List Bytes

pub data IdentityType : Type 0 where
  identity_oauth2 identity_oidc identity_api_key identity_mtls identity_kubernetes_auth
        identity_anonymous identity_plain identity_unknown :
      IdentityType

pub record Identity (L : Type 0) : Type 0 where
  pub common : Common
  pub cache : Option EvaluatorCaching
  pub credentials : Credentials
  pub extended_properties : List ExtendedProperty
  pub oauth2 : Option OAuth2Config
  pub oidc : Option OidcConfig
  pub api_key : Option (SelectedSecrets L)
  pub mtls : Option (SelectedSecrets L)
  pub kubernetes_auth : Option KubernetesAuth
  pub anonymous : Option (Unit {0})
  pub plain : Option ValueFrom

-- `Identity.GetType`
unfoldable pub identity_type : {L : Type 0} → Identity L → IdentityType
identity_type i =
    if is_some i.oauth2
    then identity_oauth2
    else if is_some i.oidc
    then identity_oidc
    else if is_some i.api_key
    then identity_api_key
    else if is_some i.mtls
    then identity_mtls
    else if is_some i.kubernetes_auth
    then identity_kubernetes_auth
    else if is_some i.anonymous
    then identity_anonymous
    else if is_some i.plain
    then identity_plain
    else identity_unknown

-- `Metadata_UMA`
pub record Uma : Type 0 where
  pub endpoint : Bytes
  pub credentials : LocalObjectReference

-- `Metadata_UserInfo`
pub record UserInfo : Type 0 where
  pub identity_source : Bytes

pub data MetadataType : Type 0 where
  metadata_user_info metadata_uma metadata_generic_http metadata_unknown : MetadataType

pub record Metadata : Type 0 where
  pub common : Common
  pub cache : Option EvaluatorCaching
  pub user_info : Option UserInfo
  pub uma : Option Uma
  pub generic_http : Option GenericHttp

-- `Metadata.GetType`
unfoldable pub metadata_type : Metadata → MetadataType
metadata_type m =
    if is_some m.user_info
    then metadata_user_info
    else if is_some m.uma
    then metadata_uma
    else if is_some m.generic_http
    then metadata_generic_http
    else metadata_unknown

pub record ExternalRegistry : Type 0 where
  pub endpoint : Bytes
  pub shared_secret : Option SecretKeyReference
  pub credentials : Credentials
  pub ttl : ℤ

-- `Authorization_OPA`
pub record Opa : Type 0 where
  pub inline_rego : Bytes
  pub external_registry : ExternalRegistry
  pub all_values : Bool

-- `Authorization_KubernetesAuthz_ResourceAttributes`
pub record ResourceAttributes : Type 0 where
  pub namespace : StaticOrDynamicValue
  pub group : StaticOrDynamicValue
  pub resource : StaticOrDynamicValue
  pub name : StaticOrDynamicValue
  pub sub_resource : StaticOrDynamicValue
  pub verb : StaticOrDynamicValue

-- `Authorization_KubernetesAuthz`
pub record KubernetesAuthz : Type 0 where
  pub user : StaticOrDynamicValue
  pub groups : List Bytes
  pub resource_attributes : Option ResourceAttributes

pub record AuthzedObject : Type 0 where
  pub name : StaticOrDynamicValue
  pub kind : StaticOrDynamicValue

-- `Authorization_Authzed`
pub record Authzed : Type 0 where
  pub endpoint : Bytes
  pub insecure : Bool
  pub shared_secret : Option SecretKeyReference
  pub subject : Option AuthzedObject
  pub resource : Option AuthzedObject
  pub permission : StaticOrDynamicValue

pub data AuthorizationType : Type 0 where
  authorization_opa authorization_json authorization_kubernetes_authz authorization_authzed
        authorization_unknown :
      AuthorizationType

-- The rules of `Authorization_JSONPatternMatching` are its only field.
pub record Authorization : Type 0 where
  pub common : Common
  pub cache : Option EvaluatorCaching
  pub opa : Option Opa
  pub json : Option JsonPatterns
  pub kubernetes_authz : Option KubernetesAuthz
  pub authzed : Option Authzed

-- `Authorization.GetType`
unfoldable pub authorization_type : Authorization → AuthorizationType
authorization_type a =
    if is_some a.opa
    then authorization_opa
    else if is_some a.json
    then authorization_json
    else if is_some a.kubernetes_authz
    then authorization_kubernetes_authz
    else if is_some a.authzed
    then authorization_authzed
    else authorization_unknown

pub record SigningKeyRef : Type 0 where
  pub name : Bytes
  pub algorithm : Bytes

-- `Response_Wristband`
pub record Wristband : Type 0 where
  pub issuer : Bytes
  pub custom_claims : List JsonProperty
  pub token_duration : Option ℤ
  pub signing_key_refs : List (Option SigningKeyRef)

pub data ResponseType : Type 0 where
  response_wristband response_dynamic_json response_plain response_unknown : ResponseType

-- The properties of `Response_DynamicJSON` are its only field.
pub record Response : Type 0 where
  pub common : Common
  pub cache : Option EvaluatorCaching
  pub wrapper : Bytes
  pub wrapper_key : Bytes
  pub wristband : Option Wristband
  pub json : Option (List JsonProperty)
  pub plain : Option StaticOrDynamicValue

-- `Response.GetType`
unfoldable pub response_type : Response → ResponseType
response_type r =
    if is_some r.wristband
    then response_wristband
    else if is_some r.json
    then response_dynamic_json
    else if is_some r.plain
    then response_plain
    else response_unknown

pub data CallbackType : Type 0 where
  callback_http callback_unknown : CallbackType

pub record Callback : Type 0 where
  pub common : Common
  pub http : Option GenericHttp

-- `Callback.GetType`
unfoldable pub callback_type : Callback → CallbackType
callback_type c = if is_some c.http then callback_http else callback_unknown
