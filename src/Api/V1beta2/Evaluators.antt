-- ===== src/Api/V1beta2/Evaluators.antt =====
-- api/v1beta2/auth_config_types.go: authentication, metadata, authorization, response and callbacks,
-- with the functions `GetMethod`. An embedded struct is a field.
use authorino.Common.{Bytes, Bool, Option, List, is_some, if◌then◌else◌}
use authorino.Common.Int.{ℤ}
use authorino.Api.Kube.{LocalObjectReference}
use authorino.Api.V1beta2.Base.{
  PatternExpressions, ValueOrSelector, NamedValuesOrSelectors, CommonEvaluatorSpec, Credentials,
  SecretKeyReference, HttpEndpointSpec,
}

pub data AuthenticationMethod : Type 0 where
  api_key_authentication jwt_authentication oauth2_token_introspection_authentication
        kubernetes_token_review_authentication x509_client_certificate_authentication
        plain_identity_authentication anonymous_access_authentication unknown_authentication :
      AuthenticationMethod

-- `ApiKeyAuthenticationSpec` and `X509ClientCertificateAuthenticationSpec`
pub record SelectedSecrets (L : Type 0) : Type 0 where
  pub selector : L
  pub all_namespaces : Bool

pub record JwtAuthenticationSpec : Type 0 where
  pub issuer_url : Bytes
  pub ttl : ℤ

pub record OAuth2TokenIntrospectionSpec : Type 0 where
  pub url : Bytes
  pub token_type_hint : Bytes
  pub credentials : LocalObjectReference

pub record KubernetesTokenReviewSpec : Type 0 where
  pub audiences : List Bytes

pub record PlainIdentitySpec : Type 0 where
  pub selector : Bytes

pub record AuthenticationMethodSpec (L : Type 0) : Type 0 where
  pub api_key : Option (SelectedSecrets L)
  pub jwt : Option JwtAuthenticationSpec
  pub oauth2_token_introspection : Option OAuth2TokenIntrospectionSpec
  pub kubernetes_token_review : Option KubernetesTokenReviewSpec
  pub x509_client_certificate : Option (SelectedSecrets L)
  pub plain : Option PlainIdentitySpec
  pub anonymous_access : Option (Unit {0})

pub record AuthenticationSpec (L : Type 0) : Type 0 where
  pub common : CommonEvaluatorSpec
  pub credentials : Credentials
  pub overrides : NamedValuesOrSelectors
  pub defaults : NamedValuesOrSelectors
  pub method : AuthenticationMethodSpec L

-- `AuthenticationSpec.GetMethod`
unfoldable pub authentication_method :
    {L : Type 0} → AuthenticationMethodSpec L → AuthenticationMethod
authentication_method s =
    if is_some s.api_key
    then api_key_authentication
    else if is_some s.jwt
    then jwt_authentication
    else if is_some s.oauth2_token_introspection
    then oauth2_token_introspection_authentication
    else if is_some s.x509_client_certificate
    then x509_client_certificate_authentication
    else if is_some s.kubernetes_token_review
    then kubernetes_token_review_authentication
    else if is_some s.plain
    then plain_identity_authentication
    else if is_some s.anonymous_access
    then anonymous_access_authentication
    else unknown_authentication

pub data MetadataMethod : Type 0 where
  http_metadata user_info_metadata uma_resource_metadata unknown_metadata : MetadataMethod

pub record UserInfoMetadataSpec : Type 0 where
  pub identity_source : Bytes

pub record UmaMetadataSpec : Type 0 where
  pub endpoint : Bytes
  pub credentials : LocalObjectReference

pub record MetadataMethodSpec : Type 0 where
  pub http : Option HttpEndpointSpec
  pub user_info : Option UserInfoMetadataSpec
  pub uma : Option UmaMetadataSpec

pub record MetadataSpec : Type 0 where
  pub common : CommonEvaluatorSpec
  pub method : MetadataMethodSpec

-- `MetadataSpec.GetMethod`
unfoldable pub metadata_method : MetadataMethodSpec → MetadataMethod
metadata_method s =
    if is_some s.http
    then http_metadata
    else if is_some s.user_info
    then user_info_metadata
    else if is_some s.uma
    then uma_resource_metadata
    else unknown_metadata

pub data AuthorizationMethod : Type 0 where
  pattern_matching_authorization opa_authorization kubernetes_subject_access_review_authorization
        spice_db_authorization unknown_authorization :
      AuthorizationMethod

-- `ExternalOpaPolicy`, with the endpoint that it embeds.
pub record ExternalOpaPolicy : Type 0 where
  pub http : HttpEndpointSpec
  pub ttl : ℤ

pub record OpaAuthorizationSpec : Type 0 where
  pub rego : Bytes
  pub external : Option ExternalOpaPolicy
  pub all_values : Bool

-- `KubernetesSubjectAccessReviewResourceAttributesSpec`
pub record ResourceAttributesSpec : Type 0 where
  pub namespace : ValueOrSelector
  pub group : ValueOrSelector
  pub resource : ValueOrSelector
  pub name : ValueOrSelector
  pub sub_resource : ValueOrSelector
  pub verb : ValueOrSelector

-- `KubernetesSubjectAccessReviewAuthorizationSpec`
pub record SubjectAccessReviewSpec : Type 0 where
  pub user : Option ValueOrSelector
  pub groups : List Bytes
  pub resource_attributes : Option ResourceAttributesSpec

pub record SpiceDbObject : Type 0 where
  pub name : ValueOrSelector
  pub kind : ValueOrSelector

pub record SpiceDbAuthorizationSpec : Type 0 where
  pub endpoint : Bytes
  pub insecure : Bool
  pub shared_secret : Option SecretKeyReference
  pub subject : Option SpiceDbObject
  pub resource : Option SpiceDbObject
  pub permission : ValueOrSelector

-- The patterns of `PatternMatchingAuthorizationSpec` are its only field.
pub record AuthorizationMethodSpec : Type 0 where
  pub pattern_matching : Option PatternExpressions
  pub opa : Option OpaAuthorizationSpec
  pub kubernetes_subject_access_review : Option SubjectAccessReviewSpec
  pub spice_db : Option SpiceDbAuthorizationSpec

pub record AuthorizationSpec : Type 0 where
  pub common : CommonEvaluatorSpec
  pub method : AuthorizationMethodSpec

-- `AuthorizationSpec.GetMethod`
unfoldable pub authorization_method : AuthorizationMethodSpec → AuthorizationMethod
authorization_method s =
    if is_some s.pattern_matching
    then pattern_matching_authorization
    else if is_some s.opa
    then opa_authorization
    else if is_some s.kubernetes_subject_access_review
    then kubernetes_subject_access_review_authorization
    else if is_some s.spice_db
    then spice_db_authorization
    else unknown_authorization

pub data AuthResponseMethod : Type 0 where
  plain_auth_response json_auth_response wristband_auth_response unknown_auth_response :
      AuthResponseMethod

pub record WristbandSigningKeyRef : Type 0 where
  pub name : Bytes
  pub algorithm : Bytes

pub record WristbandAuthResponseSpec : Type 0 where
  pub issuer : Bytes
  pub custom_claims : NamedValuesOrSelectors
  pub token_duration : Option ℤ
  pub signing_key_refs : List (Option WristbandSigningKeyRef)

-- The properties of `JsonAuthResponseSpec` are its only field.
pub record AuthResponseMethodSpec : Type 0 where
  pub plain : Option ValueOrSelector
  pub json : Option NamedValuesOrSelectors
  pub wristband : Option WristbandAuthResponseSpec

-- `SuccessResponseSpec`; `HeaderSuccessResponseSpec` only embeds it.
pub record SuccessResponseSpec : Type 0 where
  pub common : CommonEvaluatorSpec
  pub method : AuthResponseMethodSpec
  pub key : Bytes

-- `SuccessResponseSpec.GetMethod`
unfoldable pub auth_response_method : AuthResponseMethodSpec → AuthResponseMethod
auth_response_method s =
    if is_some s.plain
    then plain_auth_response
    else if is_some s.json
    then json_auth_response
    else if is_some s.wristband
    then wristband_auth_response
    else unknown_auth_response

pub data CallbackMethod : Type 0 where
  http_callback unknown_callback : CallbackMethod

pub record CallbackSpec : Type 0 where
  pub common : CommonEvaluatorSpec
  pub http : Option HttpEndpointSpec

-- `CallbackSpec.GetMethod`
unfoldable pub callback_method : CallbackSpec → CallbackMethod
callback_method s = if is_some s.http then http_callback else unknown_callback
