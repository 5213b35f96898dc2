-- ===== src/Api/Conversion/Roundtrip/Authentication.antt =====
-- Authentication, to v1beta1 and back.
use mathlib.Core.Option
use authorino.Common.{Bytes, true, false, Option, List, [], ◌∷◌, ◌++◌, is_some, ◌≡◌, refl, arith}
use authorino.Api.V1beta1
use authorino.Api.V1beta2
use authorino.Api.V1beta1.Evaluators.{identity_type}
use authorino.Api.V1beta2.Evaluators.{authentication_method}
use authorino.Api.Conversion.Base.{
  JsonText, named_values_to, caching_to, caching_from, credentials_to,
}
use authorino.Api.Conversion.Authentication.{
  extended, properties_that, no_identity, common_to, common_from, authentication_method_to,
  authentication_to, identity_method_from, authentication_from,
}
use authorino.Api.Conversion.Roundtrip.Maps.{AllOption, AtMostOne, map-map_option}
use authorino.Api.Conversion.Roundtrip.Values.{
  patterns_from-patterns_to, IsNamedValues, named_values_from-named_values_to, IsCredentials,
  credentials_from-credentials_to, IsTextKey, caching_from-caching_to,
}

-- What overwrites is found again before what does not.
overrides-extended :
    (os ds : List V1beta1.JsonProperty)
    → properties_that true (extended true os ++ extended false ds) ≡ os
unfolding properties_that extended
overrides-extended [] [] = refl
overrides-extended [] (d ∷ ds) = overrides-extended [] ds
overrides-extended (o ∷ os) ds = rw (overrides-extended os ds)

defaults-extended :
    (os ds : List V1beta1.JsonProperty)
    → properties_that false (extended true os ++ extended false ds) ≡ ds
unfolding properties_that extended
defaults-extended [] [] = refl
defaults-extended [] (d ∷ ds) = rw (defaults-extended [] ds)
defaults-extended (o ∷ os) ds = defaults-extended os ds

module _ {L : Type 0} where
  -- At most one method.
  abbrev pub IsMethod : V1beta2.AuthenticationMethodSpec L → Type 0
  IsMethod s = AtMostOne (
      is_some s.api_key
      ∷ is_some s.jwt
      ∷ is_some s.oauth2_token_introspection
      ∷ is_some s.kubernetes_token_review
      ∷ is_some s.x509_client_certificate
      ∷ is_some s.plain
      ∷ is_some s.anonymous_access
      ∷ [])

  identity_method_from-authentication_method_to :
      (s : V1beta2.AuthenticationMethodSpec L) (c : V1beta1.Common)
      (cache : Option V1beta1.EvaluatorCaching) (k : V1beta1.Credentials)
      (ps : List V1beta1.ExtendedProperty)
      → IsMethod s
      → let i = authentication_method_to (authentication_method s) s (no_identity c cache k ps) in
        identity_method_from (identity_type i) i ≡ s
  unfolding authentication_method authentication_method_to identity_type identity_method_from
  identity_method_from-authentication_method_to s c cache k ps h = ground arith

  -- The switch on the method writes the fields of the methods only.
  authentication_method_to-SameFields :
      (m : V1beta2.AuthenticationMethod) (s : V1beta2.AuthenticationMethodSpec L)
      (i : V1beta1.Identity L)
      → let j = authentication_method_to m s i in
        (j.common ≡ i.common)
        × (j.cache ≡ i.cache)
        × (j.credentials ≡ i.credentials)
        × (j.extended_properties ≡ i.extended_properties)
  unfolding authentication_method_to
  authentication_method_to-SameFields V1beta2.api_key_authentication s i = (refl, refl, refl, refl)
  authentication_method_to-SameFields m s i = ground arith

module _ (json : JsonText) where
  abbrev pub IsCommon : V1beta2.CommonEvaluatorSpec → Type 0
  IsCommon c = AllOption (IsTextKey json) c.cache

  pub record IsAuthentication {L : Type 0} (a : V1beta2.AuthenticationSpec L) : Type 0 where
    pub common : IsCommon a.common
    pub credentials : IsCredentials a.credentials
    pub overrides : IsNamedValues a.overrides
    pub defaults : IsNamedValues a.defaults
    pub method : IsMethod a.method

  module _ (string_of-marshal : (s : Bytes) → json.string_of (json.marshal s) ≡ s) where
    pub common_from-common_to :
        (name : Bytes) (c : V1beta2.CommonEvaluatorSpec)
        → IsCommon c
        → common_from json (common_to name c) (Option.map (caching_to json) c.cache) ≡ c
    unfolding common_from common_to
    common_from-common_to name c h = rw (
      patterns_from-patterns_to c.conditions,
      map-map_option (IsTextKey json) (caching_to json) (caching_from json)
          (caching_from-caching_to json string_of-marshal) c.cache h,
    )

    module _ {L : Type 0} where
      pub authentication_from-authentication_to :
          (name : Bytes) (a : V1beta2.AuthenticationSpec L)
          → IsAuthentication a
          → authentication_from json (authentication_to json name a) ≡ (name, a)
      unfolding authentication_from authentication_to
      authentication_from-authentication_to name a h =
          let os = named_values_to a.overrides in
          let ds = named_values_to a.defaults in
          let c = common_to name a.common in
          let cache = Option.map (caching_to json) a.common.cache in
          let k = credentials_to a.credentials in
          let ps = extended true os ++ extended false ds in
          let same =
            authentication_method_to-SameFields (authentication_method a.method) a.method
              (no_identity c cache k ps) in
          rw (same.0, same.1, same.2, same.3)
            (cc (
              common_from-common_to name a.common h.common,
              credentials_from-credentials_to a.credentials h.credentials,
              overrides-extended os ds,
              defaults-extended os ds,
              named_values_from-named_values_to a.overrides h.overrides,
              named_values_from-named_values_to a.defaults h.defaults,
              identity_method_from-authentication_method_to a.method c cache k ps h.method,
            ))
