-- ===== src/Api/Conversion/Evaluators.antt =====
-- api/v1beta2/auth_config_conversion.go: metadata, authorization and callbacks.
use mathlib.Core.Option
use authorino.Common.{Bytes, Option, none, some, [], is_empty, if◌then◌else◌}
use authorino.Common.Int.{pos}
use authorino.Api.V1beta1
use authorino.Api.V1beta2
use authorino.Api.V1beta1.Evaluators.{metadata_type, authorization_type, callback_type}
use authorino.Api.V1beta2.Evaluators.{metadata_method, authorization_method, callback_method}
use authorino.Api.Conversion.Base.{
  JsonText, patterns_to, patterns_from, credentials_to, credentials_from, secret_to, secret_from,
  value_to, value_from, caching_to, http_to, http_from,
}
use authorino.Api.Conversion.Authentication.{common_to, common_from}

abbrev no_metadata_method : V1beta2.MetadataMethodSpec
no_metadata_method = record { http = none; user_info = none; uma = none }

abbrev no_authorization_method : V1beta2.AuthorizationMethodSpec
no_authorization_method = record {
  pattern_matching = none;
  opa = none;
  kubernetes_subject_access_review = none;
  spice_db = none;
}

abbrev pub empty_value : V1beta1.StaticOrDynamicValue
empty_value = record { value = []; value_from = record { auth_json = [] } }

abbrev pub empty_registry : V1beta1.ExternalRegistry
empty_registry = record {
  endpoint = [];
  shared_secret = none;
  credentials = record { location = []; key_selector = [] };
  ttl = pos 0;
}

-- `convertOpaExternalRegistryTo`
unfoldable pub registry_to : Option V1beta2.ExternalOpaPolicy → V1beta1.ExternalRegistry
unfolding secret_to credentials_to
registry_to none = empty_registry
registry_to (some e) = record {
  endpoint = e.http.url;
  shared_secret = Option.map secret_to e.http.shared_secret;
  credentials = credentials_to e.http.credentials;
  ttl = e.ttl;
}

-- `convertOpaExternalRegistryFrom`
unfoldable pub registry_from : V1beta1.ExternalRegistry → Option V1beta2.ExternalOpaPolicy
unfolding secret_from credentials_from
registry_from r =
    if is_empty r.endpoint
    then none
    else some (record {
      http = record {
        url = r.endpoint;
        method = none;
        body = none;
        parameters = [];
        content_type = [];
        headers = [];
        shared_secret = Option.map secret_from r.shared_secret;
        oauth2 = none;
        credentials = credentials_from r.credentials;
      };
      ttl = r.ttl;
    })

unfoldable pub opa_to : V1beta2.OpaAuthorizationSpec → V1beta1.Opa
unfolding registry_to
opa_to o = record {
  inline_rego = o.rego;
  external_registry = registry_to o.external;
  all_values = o.all_values;
}

unfoldable pub opa_from : V1beta1.Opa → V1beta2.OpaAuthorizationSpec
unfolding registry_from
opa_from o = record {
  rego = o.inline_rego;
  external = registry_from o.external_registry;
  all_values = o.all_values;
}

module _ (json : JsonText) where
  -- The switch of `convertMetadataTo`.
  unfoldable pub metadata_method_to :
      V1beta2.MetadataMethod → V1beta2.MetadataMethodSpec → V1beta1.Metadata → V1beta1.Metadata
  unfolding http_to
  metadata_method_to V1beta2.http_metadata s m = record m {
    generic_http = Option.map (http_to json) s.http;
  }
  metadata_method_to V1beta2.user_info_metadata s m = record m {
    user_info =
        Option.map
          (λ (u : V1beta2.UserInfoMetadataSpec). record { identity_source = u.identity_source })
          s.user_info;
  }
  metadata_method_to V1beta2.uma_resource_metadata s m = record m {
    uma =
        Option.map
          (λ (u : V1beta2.UmaMetadataSpec). record {
            endpoint = u.endpoint;
            credentials = u.credentials;
          })
          s.uma;
  }
  metadata_method_to V1beta2.unknown_metadata s m = m

  -- `convertMetadataTo`
  unfoldable pub metadata_to : Bytes → V1beta2.MetadataSpec → V1beta1.Metadata
  unfolding common_to caching_to metadata_method metadata_method_to
  metadata_to name m = metadata_method_to (metadata_method m.method) m.method (record {
    common = common_to name m.common;
    cache = Option.map (caching_to json) m.common.cache;
    user_info = none;
    uma = none;
    generic_http = none;
  })

  -- The switch of `convertMetadataFrom`.
  unfoldable pub metadata_method_from :
      V1beta1.MetadataType → V1beta1.Metadata → V1beta2.MetadataMethodSpec
  unfolding http_from
  metadata_method_from V1beta1.metadata_generic_http m = record no_metadata_method {
    http = Option.map (http_from json) m.generic_http;
  }
  metadata_method_from V1beta1.metadata_user_info m = record no_metadata_method {
    user_info =
        Option.map (λ (u : V1beta1.UserInfo). record { identity_source = u.identity_source })
          m.user_info;
  }
  metadata_method_from V1beta1.metadata_uma m = record no_metadata_method {
    uma =
        Option.map
          (λ (u : V1beta1.Uma). record { endpoint = u.endpoint; credentials = u.credentials })
          m.uma;
  }
  metadata_method_from V1beta1.metadata_unknown m = no_metadata_method

  -- `convertMetadataFrom`
  unfoldable pub metadata_from : V1beta1.Metadata → Bytes × V1beta2.MetadataSpec
  unfolding common_from metadata_type metadata_method_from
  metadata_from m = (
    m.common.name,
    record {
      common = common_from json m.common m.cache;
      method = metadata_method_from (metadata_type m) m;
    },
  )

  -- `convertKubernetesSubjectAccessReviewResourceAttributesTo`
  unfoldable pub attributes_to : V1beta2.ResourceAttributesSpec → V1beta1.ResourceAttributes
  unfolding value_to
  attributes_to a = record {
    namespace = value_to json a.namespace;
    group = value_to json a.group;
    resource = value_to json a.resource;
    name = value_to json a.name;
    sub_resource = value_to json a.sub_resource;
    verb = value_to json a.verb;
  }

  -- `convertKubernetesSubjectAccessReviewResourceAttributesFrom`
  unfoldable pub attributes_from : V1beta1.ResourceAttributes → V1beta2.ResourceAttributesSpec
  unfolding value_from
  attributes_from a = record {
    namespace = value_from json a.namespace;
    group = value_from json a.group;
    resource = value_from json a.resource;
    name = value_from json a.name;
    sub_resource = value_from json a.sub_resource;
    verb = value_from json a.verb;
  }

  -- `spiceDBObjectTo`, `spiceDBObjectFrom`
  unfoldable pub object_to : V1beta2.SpiceDbObject → V1beta1.AuthzedObject
  unfolding value_to
  object_to o = record { name = value_to json o.name; kind = value_to json o.kind }

  unfoldable pub object_from : V1beta1.AuthzedObject → V1beta2.SpiceDbObject
  unfolding value_from
  object_from o = record { name = value_from json o.name; kind = value_from json o.kind }

  unfoldable pub user_to : Option V1beta2.ValueOrSelector → V1beta1.StaticOrDynamicValue
  unfolding value_to
  user_to none = empty_value
  user_to (some v) = value_to json v

  unfoldable pub review_to : V1beta2.SubjectAccessReviewSpec → V1beta1.KubernetesAuthz
  unfolding user_to attributes_to
  review_to r = record {
    user = user_to r.user;
    groups = r.groups;
    resource_attributes = Option.map attributes_to r.resource_attributes;
  }

  unfoldable pub review_from : V1beta1.KubernetesAuthz → V1beta2.SubjectAccessReviewSpec
  unfolding value_from attributes_from
  review_from k = record {
    user = some (value_from json k.user);
    groups = k.groups;
    resource_attributes = Option.map attributes_from k.resource_attributes;
  }

  unfoldable pub spice_db_to : V1beta2.SpiceDbAuthorizationSpec → V1beta1.Authzed
  unfolding secret_to object_to value_to
  spice_db_to s = record {
    endpoint = s.endpoint;
    insecure = s.insecure;
    shared_secret = Option.map secret_to s.shared_secret;
    subject = Option.map object_to s.subject;
    resource = Option.map object_to s.resource;
    permission = value_to json s.permission;
  }

  unfoldable pub spice_db_from : V1beta1.Authzed → V1beta2.SpiceDbAuthorizationSpec
  unfolding secret_from object_from value_from
  spice_db_from a = record {
    endpoint = a.endpoint;
    insecure = a.insecure;
    shared_secret = Option.map secret_from a.shared_secret;
    subject = Option.map object_from a.subject;
    resource = Option.map object_from a.resource;
    permission = value_from json a.permission;
  }

  -- The switch of `convertAuthorizationTo`.
  unfoldable pub authorization_method_to :
      V1beta2.AuthorizationMethod
      → V1beta2.AuthorizationMethodSpec
      → V1beta1.Authorization
      → V1beta1.Authorization
  unfolding patterns_to opa_to review_to spice_db_to
  authorization_method_to V1beta2.pattern_matching_authorization s a = record a {
    json = Option.map patterns_to s.pattern_matching;
  }
  authorization_method_to V1beta2.opa_authorization s a = record a { opa = Option.map opa_to s.opa }
  authorization_method_to V1beta2.kubernetes_subject_access_review_authorization s a = record a {
    kubernetes_authz = Option.map review_to s.kubernetes_subject_access_review;
  }
  authorization_method_to V1beta2.spice_db_authorization s a = record a {
    authzed = Option.map spice_db_to s.spice_db;
  }
  authorization_method_to V1beta2.unknown_authorization s a = a

  -- `convertAuthorizationTo`
  unfoldable pub authorization_to : Bytes → V1beta2.AuthorizationSpec → V1beta1.Authorization
  unfolding common_to caching_to authorization_method authorization_method_to
  authorization_to name a =
      authorization_method_to (authorization_method a.method) a.method (record {
        common = common_to name a.common;
        cache = Option.map (caching_to json) a.common.cache;
        opa = none;
        json = none;
        kubernetes_authz = none;
        authzed = none;
      })

  -- The switch of `convertAuthorizationFrom`.
  unfoldable pub authorization_method_from :
      V1beta1.AuthorizationType → V1beta1.Authorization → V1beta2.AuthorizationMethodSpec
  unfolding patterns_from opa_from review_from spice_db_from
  authorization_method_from V1beta1.authorization_json a = record no_authorization_method {
    pattern_matching = Option.map patterns_from a.json;
  }
  authorization_method_from V1beta1.authorization_opa a = record no_authorization_method {
    opa = Option.map opa_from a.opa;
  }
  authorization_method_from V1beta1.authorization_kubernetes_authz a =
      record no_authorization_method {
        kubernetes_subject_access_review = Option.map review_from a.kubernetes_authz;
      }
  authorization_method_from V1beta1.authorization_authzed a = record no_authorization_method {
    spice_db = Option.map spice_db_from a.authzed;
  }
  authorization_method_from V1beta1.authorization_unknown a = no_authorization_method

  -- `convertAuthorizationFrom`
  unfoldable pub authorization_from : V1beta1.Authorization → Bytes × V1beta2.AuthorizationSpec
  unfolding common_from authorization_type authorization_method_from
  authorization_from a = (
    a.common.name,
    record {
      common = common_from json a.common a.cache;
      method = authorization_method_from (authorization_type a) a;
    },
  )

  -- `convertCallbackTo`, by `GetMethod`
  unfoldable pub callback_to : Bytes → V1beta2.CallbackSpec → V1beta1.Callback
  unfolding common_to http_to callback_method
  callback_to name c = record {
    common = common_to name c.common;
    http = elim (callback_method c) [
      | V1beta2.http_callback ↦ Option.map (http_to json) c.http
      | V1beta2.unknown_callback ↦ none
    ];
  }

  -- `convertCallbackFrom`, by `GetType`
  unfoldable pub callback_from : V1beta1.Callback → Bytes × V1beta2.CallbackSpec
  unfolding common_from http_from callback_type
  callback_from c = (
    c.common.name,
    record {
      common = common_from json c.common none;
      http = elim (callback_type c) [
        | V1beta1.callback_http ↦ Option.map (http_from json) c.http
        | V1beta1.callback_unknown ↦ none
      ];
    },
  )
