-- ===== src/Api/Conversion/Roundtrip/Authorization.antt =====
-- Authorization, to v1beta1 and back.
use mathlib.Core.Option
use authorino.Common.{
  Bytes, is_empty, true, false, Option, none, some, [], ◌∷◌, is_some, ◌≡◌, refl, ap, arith,
}
use authorino.Api.V1beta1
use authorino.Api.V1beta2
use authorino.Api.V1beta1.Evaluators.{authorization_type}
use authorino.Api.V1beta2.Evaluators.{authorization_method}
use authorino.Api.Conversion.Base.{
  JsonText, patterns_to, patterns_from, caching_to, value_to, value_from,
}
use authorino.Api.Conversion.Authentication.{common_to}
use authorino.Api.Conversion.Evaluators.{
  registry_to, registry_from, attributes_to, attributes_from, object_to, object_from, user_to,
  review_to, review_from, spice_db_to, spice_db_from, opa_to, opa_from, authorization_method_to,
  authorization_to, authorization_method_from, authorization_from,
}
use authorino.Api.Conversion.Roundtrip.Maps.{AllOption, AtMostOne, map-map_option, map-map_all}
use authorino.Api.Conversion.Roundtrip.Values.{
  patterns_from-patterns_to, secrets_back, IsCredentials, credentials_from-credentials_to, IsText,
  value_from-value_to,
}
use authorino.Api.Conversion.Roundtrip.Authentication.{IsCommon, common_from-common_to}

-- Of the endpoint of an external policy, v1beta1 keeps the URL, the shared secret and the place of
-- the credentials.
pub record IsExternal (e : V1beta2.ExternalOpaPolicy) : Type 0 where
  pub url : is_empty e.http.url ≡ false
  pub method : e.http.method ≡ none
  pub body : e.http.body ≡ none
  pub parameters : e.http.parameters ≡ []
  pub content_type : e.http.content_type ≡ []
  pub headers : e.http.headers ≡ []
  pub oauth2 : e.http.oauth2 ≡ none
  pub credentials : IsCredentials e.http.credentials

abbrev pub IsOpa : V1beta2.OpaAuthorizationSpec → Type 0
IsOpa o = AllOption IsExternal o.external

registry_from-registry_to :
    (e : Option V1beta2.ExternalOpaPolicy)
    → AllOption IsExternal e
    → registry_from (registry_to e) ≡ e
unfolding registry_from registry_to
registry_from-registry_to none h = unfold is_empty in refl
registry_from-registry_to (some e) h = rw h.url (
    cc (
      secrets_back e.http.shared_secret,
      credentials_from-credentials_to e.http.credentials h.credentials,
      h.method,
      h.body,
      h.parameters,
      h.content_type,
      h.headers,
      h.oauth2,
    ))

opa_from-opa_to : (o : V1beta2.OpaAuthorizationSpec) → IsOpa o → opa_from (opa_to o) ≡ o
unfolding opa_from opa_to
opa_from-opa_to o h = rw (registry_from-registry_to o.external h)

module _ (json : JsonText) where
  pub record IsAttributes (a : V1beta2.ResourceAttributesSpec) : Type 0 where
    pub namespace : IsText json a.namespace
    pub group : IsText json a.group
    pub resource : IsText json a.resource
    pub name : IsText json a.name
    pub sub_resource : IsText json a.sub_resource
    pub verb : IsText json a.verb

  -- A review names its user.
  pub record IsReview (r : V1beta2.SubjectAccessReviewSpec) : Type 0 where
    pub named : is_some r.user ≡ true
    pub user : AllOption (IsText json) r.user
    pub resource_attributes : AllOption IsAttributes r.resource_attributes

  abbrev pub IsObject : V1beta2.SpiceDbObject → Type 0
  IsObject o = IsText json o.name × IsText json o.kind

  pub record IsSpiceDb (s : V1beta2.SpiceDbAuthorizationSpec) : Type 0 where
    pub subject : AllOption IsObject s.subject
    pub resource : AllOption IsObject s.resource
    pub permission : IsText json s.permission

  -- At most one method, and what it holds.
  pub record IsAuthorizationMethod (s : V1beta2.AuthorizationMethodSpec) : Type 0 where
    pub single : AtMostOne (
        is_some s.pattern_matching
        ∷ is_some s.opa
        ∷ is_some s.kubernetes_subject_access_review
        ∷ is_some s.spice_db
        ∷ [])
    pub opa : AllOption IsOpa s.opa
    pub review : AllOption IsReview s.kubernetes_subject_access_review
    pub spice_db : AllOption IsSpiceDb s.spice_db

  abbrev pub IsAuthorization : V1beta2.AuthorizationSpec → Type 0
  IsAuthorization a = IsCommon json a.common × IsAuthorizationMethod a.method

  abbrev no_authorization : V1beta1.Common → Option V1beta1.EvaluatorCaching → V1beta1.Authorization
  no_authorization c cache = record {
    common = c;
    cache = cache;
    opa = none;
    json = none;
    kubernetes_authz = none;
    authzed = none;
  }

  authorization_method_to-SameFields :
      (m : V1beta2.AuthorizationMethod) (s : V1beta2.AuthorizationMethodSpec)
      (i : V1beta1.Authorization)
      → let j = authorization_method_to json m s i in (j.common ≡ i.common) × (j.cache ≡ i.cache)
  unfolding authorization_method_to
  authorization_method_to-SameFields V1beta2.opa_authorization s i = (refl, refl)
  authorization_method_to-SameFields m s i = ground arith

  module _ (string_of-marshal : (s : Bytes) → json.string_of (json.marshal s) ≡ s) where
    back : (v : V1beta2.ValueOrSelector) → IsText json v → value_from json (value_to json v) ≡ v
    back v h = value_from-value_to json string_of-marshal v h

    attributes_from-attributes_to :
        (a : V1beta2.ResourceAttributesSpec)
        → IsAttributes a
        → attributes_from json (attributes_to json a) ≡ a
    unfolding attributes_from attributes_to
    attributes_from-attributes_to a h = rw (
      back a.namespace h.namespace,
      back a.group h.group,
      back a.resource h.resource,
      back a.name h.name,
      back a.sub_resource h.sub_resource,
      back a.verb h.verb,
    )

    object_from-object_to :
        (o : V1beta2.SpiceDbObject) → IsObject o → object_from json (object_to json o) ≡ o
    unfolding object_from object_to
    object_from-object_to o h = rw (back o.name h.0, back o.kind h.1)

    user_back :
        (user : Option V1beta2.ValueOrSelector)
        → is_some user ≡ true
        → AllOption (IsText json) user
        → some (value_from json (user_to json user)) ≡ user
    unfolding user_to
    user_back none named h = cc
    user_back (some v) named h = ap some (back v h)

    review_from-review_to :
        (r : V1beta2.SubjectAccessReviewSpec) → IsReview r → review_from json (review_to json r) ≡ r
    unfolding review_from review_to
    review_from-review_to r h = rw (
      user_back r.user h.named h.user,
      map-map_option IsAttributes (attributes_to json) (attributes_from json)
          attributes_from-attributes_to r.resource_attributes h.resource_attributes,
    )

    spice_db_from-spice_db_to :
        (s : V1beta2.SpiceDbAuthorizationSpec)
        → IsSpiceDb s
        → spice_db_from json (spice_db_to json s) ≡ s
    unfolding spice_db_from spice_db_to
    spice_db_from-spice_db_to s h =
        let objects =
          map-map_option IsObject (object_to json) (object_from json) object_from-object_to in
        rw (
          secrets_back s.shared_secret,
          objects s.subject h.subject,
          objects s.resource h.resource,
          back s.permission h.permission,
        )

    authorization_method_from-authorization_method_to :
        (s : V1beta2.AuthorizationMethodSpec) (c : V1beta1.Common)
        (cache : Option V1beta1.EvaluatorCaching)
        → IsAuthorizationMethod s
        → let i =
            authorization_method_to json (authorization_method s) s (no_authorization c cache) in
          authorization_method_from json (authorization_type i) i ≡ s
    unfolding authorization_method authorization_method_to authorization_type
        authorization_method_from
    authorization_method_from-authorization_method_to s c cache h = ground (
      arith,
      map-map_all patterns_to patterns_from patterns_from-patterns_to s.pattern_matching,
      map-map_option IsOpa opa_to opa_from opa_from-opa_to s.opa h.opa,
      map-map_option IsReview (review_to json) (review_from json) review_from-review_to
          s.kubernetes_subject_access_review h.review,
      map-map_option IsSpiceDb (spice_db_to json) (spice_db_from json) spice_db_from-spice_db_to
          s.spice_db h.spice_db,
    )

    pub authorization_from-authorization_to :
        (name : Bytes) (a : V1beta2.AuthorizationSpec)
        → IsAuthorization a
        → authorization_from json (authorization_to json name a) ≡ (name, a)
    unfolding authorization_from authorization_to
    authorization_from-authorization_to name a h =
        let c = common_to name a.common in
        let cache = Option.map (caching_to json) a.common.cache in
        let same =
          authorization_method_to-SameFields (authorization_method a.method) a.method
            (no_authorization c cache) in
        rw (same.0, same.1)
          (cc (
            common_from-common_to json string_of-marshal name a.common h.0,
            authorization_method_from-authorization_method_to a.method c cache h.1,
          ))
