-- ===== src/Api/Conversion/Dispatch.antt =====
-- The kind of an evaluator in v1beta2, by its `GetMethod`, and in v1beta1, by its `GetType`.

use authorino.Common.{Bytes, ◌≡◌, arith}
use authorino.Api.V1beta1
use authorino.Api.V1beta2
use authorino.Api.V1beta1.Evaluators.{
  identity_type, metadata_type, authorization_type, response_type,
}
use authorino.Api.V1beta2.Evaluators.{
  authentication_method, metadata_method, authorization_method, auth_response_method,
}
use authorino.Api.Conversion.Base.{JsonText}
use authorino.Api.Conversion.Authentication.{authentication_method_to, authentication_to}
use authorino.Api.Conversion.Evaluators.{
  metadata_method_to, metadata_to, authorization_method_to, authorization_to,
}
use authorino.Api.Conversion.Responses.{response_method_to, response_to}

abbrev pub identity_for : V1beta2.AuthenticationMethod → V1beta1.IdentityType
identity_for V1beta2.api_key_authentication = V1beta1.identity_api_key
identity_for V1beta2.jwt_authentication = V1beta1.identity_oidc
identity_for V1beta2.oauth2_token_introspection_authentication = V1beta1.identity_oauth2
identity_for V1beta2.kubernetes_token_review_authentication = V1beta1.identity_kubernetes_auth
identity_for V1beta2.x509_client_certificate_authentication = V1beta1.identity_mtls
identity_for V1beta2.plain_identity_authentication = V1beta1.identity_plain
identity_for V1beta2.anonymous_access_authentication = V1beta1.identity_anonymous
identity_for V1beta2.unknown_authentication = V1beta1.identity_unknown

abbrev pub metadata_for : V1beta2.MetadataMethod → V1beta1.MetadataType
metadata_for V1beta2.http_metadata = V1beta1.metadata_generic_http
metadata_for V1beta2.user_info_metadata = V1beta1.metadata_user_info
metadata_for V1beta2.uma_resource_metadata = V1beta1.metadata_uma
metadata_for V1beta2.unknown_metadata = V1beta1.metadata_unknown

abbrev pub authorization_for : V1beta2.AuthorizationMethod → V1beta1.AuthorizationType
authorization_for V1beta2.pattern_matching_authorization = V1beta1.authorization_json
authorization_for V1beta2.opa_authorization = V1beta1.authorization_opa
authorization_for V1beta2.kubernetes_subject_access_review_authorization =
    V1beta1.authorization_kubernetes_authz
authorization_for V1beta2.spice_db_authorization = V1beta1.authorization_authzed
authorization_for V1beta2.unknown_authorization = V1beta1.authorization_unknown

abbrev pub response_for : V1beta2.AuthResponseMethod → V1beta1.ResponseType
response_for V1beta2.plain_auth_response = V1beta1.response_plain
response_for V1beta2.json_auth_response = V1beta1.response_dynamic_json
response_for V1beta2.wristband_auth_response = V1beta1.response_wristband
response_for V1beta2.unknown_auth_response = V1beta1.response_unknown

module _ (json : JsonText) where
  identity_type-authentication_to :
      {L : Type 0} (name : Bytes) (a : V1beta2.AuthenticationSpec L)
      → identity_type (authentication_to json name a)
        ≡ identity_for (authentication_method a.method)
  unfolding identity_type authentication_to authentication_method authentication_method_to
  identity_type-authentication_to name a = ground arith

  metadata_type-metadata_to :
      (name : Bytes) (m : V1beta2.MetadataSpec)
      → metadata_type (metadata_to json name m) ≡ metadata_for (metadata_method m.method)
  unfolding metadata_type metadata_to metadata_method metadata_method_to
  metadata_type-metadata_to name m = ground arith

  authorization_type-authorization_to :
      (name : Bytes) (a : V1beta2.AuthorizationSpec)
      → authorization_type (authorization_to json name a)
        ≡ authorization_for (authorization_method a.method)
  unfolding authorization_type authorization_to authorization_method authorization_method_to
  authorization_type-authorization_to name a = ground arith

  response_type-response_to :
      (name wrapper : Bytes) (r : V1beta2.SuccessResponseSpec)
      → response_type (response_to json name r wrapper)
        ≡ response_for (auth_response_method r.method)
  unfolding response_type response_to auth_response_method response_method_to
  response_type-response_to name wrapper r = ground arith

  -- An evaluator that is converted to v1beta1 is of the type that stands there for its method, also
  -- where its specification fills in more than one method: the first in the order of `GetMethod`
  -- counts. So for authentication, metadata, authorization and responses.
  pub types-converted :
      {L : Type 0} (name wrapper : Bytes) (a : V1beta2.AuthenticationSpec L)
      (m : V1beta2.MetadataSpec) (z : V1beta2.AuthorizationSpec) (r : V1beta2.SuccessResponseSpec)
      → (identity_type (authentication_to json name a)
          ≡ identity_for (authentication_method a.method))
        × (metadata_type (metadata_to json name m) ≡ metadata_for (metadata_method m.method))
        × (authorization_type (authorization_to json name z)
            ≡ authorization_for (authorization_method z.method))
        × (response_type (response_to json name r wrapper)
            ≡ response_for (auth_response_method r.method))
  types-converted name wrapper a m z r = (
    identity_type-authentication_to name a,
    metadata_type-metadata_to name m,
    authorization_type-authorization_to name z,
    response_type-response_to name wrapper r,
  )
