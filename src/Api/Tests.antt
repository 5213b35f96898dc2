-- ===== src/Api/Tests.antt =====
-- A resource in v1beta2 with an evaluator of each kind.
use authorino.Common.{
  ℕ, Bytes, codes, bytes_eq, is_empty, true, false, none, some, [], ◌∷◌, ◌++◌, ◌≡◌, refl, ap, arith,
  inl, inr,
}
use authorino.Common.Int.{pos}
use authorino.Api.V1beta2
use authorino.Api.V1beta2.Base.{no_expressions, expression_and, pattern_expression_or_ref}
use authorino.Api.Conversion.Base.{JsonText, no_credentials}
use authorino.Api.Conversion.Authentication.{no_authentication}
use authorino.Api.V1beta1.Evaluators.{
  identity_type, metadata_type, authorization_type, response_type,
}
use authorino.Api.V1beta2.Evaluators.{
  authentication_method, metadata_method, authorization_method, auth_response_method,
}
use authorino.Api.Conversion.Authentication.{authentication_to}
use authorino.Api.Conversion.Evaluators.{metadata_to, authorization_to}
use authorino.Api.Conversion.Responses.{response_to}
use authorino.Api.Conversion.Dispatch.{
  identity_for, metadata_for, authorization_for, response_for, types-converted,
}
use authorino.Api.Conversion.Resource.{convert_to, convert_from}
use authorino.Api.Conversion.Roundtrip.Values.{IsHttp}
use authorino.Api.Conversion.Roundtrip.Authentication.{IsAuthentication}
use authorino.Api.Conversion.Roundtrip.Resource.{IsSpec, convert_from-convert_to}

-- Everything but the last byte.
but_last : Bytes → Bytes
but_last [] = []
but_last (c ∷ []) = []
but_last (c ∷ d ∷ s) = c ∷ but_last (d ∷ s)

but_last-append : (s : Bytes) (c : ℕ) → but_last (s ++ c ∷ []) ≡ s
unfolding but_last
but_last-append [] c = refl
but_last-append (d ∷ []) c = refl
but_last-append (d ∷ e ∷ s) c = ap (λ t. d ∷ t) (but_last-append (e ∷ s) c)

unquoted : Bytes → Bytes
unquoted [] = []
unquoted (c ∷ s) = but_last s

abbrev quoted : Bytes → Bytes
quoted s = b'"' ∷ (s ++ b'"' ∷ [])

-- Texts without characters to escape.
abbrev quotes : JsonText
quotes = record { string_of = unquoted; marshal = quoted }

unquoted-quoted : (s : Bytes) → unquoted (quoted s) ≡ s
unfolding unquoted
unquoted-quoted s = but_last-append s b'"'

abbrev static : Bytes → V1beta2.ValueOrSelector
static s = record { value = record { raw = quoted s }; selector = [] }

abbrev dynamic : Bytes → V1beta2.ValueOrSelector
dynamic s = record { value = record { raw = [] }; selector = s }

abbrev uncached : V1beta2.CommonEvaluatorSpec
uncached = record { priority = pos 0; metrics = false; conditions = no_expressions; cache = none }

abbrev cached : V1beta2.CommonEvaluatorSpec
cached = record {
  priority = pos 1;
  metrics = true;
  conditions =
      expression_and
        (pattern_expression_or_ref
          (record { selector = codes "request.method"; operator = codes "eq"; value = codes "GET" })
          [] no_expressions no_expressions)
        no_expressions;
  cache = some (record { key = dynamic (codes "auth.identity.sub"); ttl = pos 60 });
}

abbrev endpoint : V1beta2.HttpEndpointSpec
endpoint = record {
  url = codes "http://talker";
  method = none;
  body = some (static (codes "hi"));
  parameters = (codes "p", dynamic (codes "request.path")) ∷ [];
  content_type = [];
  headers = [];
  shared_secret = none;
  oauth2 = none;
  credentials = record no_credentials { cookie = some (record { name = codes "session" }) };
}

abbrev api_keys : V1beta2.AuthenticationSpec Bytes
api_keys = record {
  common = uncached;
  credentials = record no_credentials {
    authorization_header = some (record { prefix = codes "APIKEY" });
  };
  overrides = (codes "a", static (codes "1")) ∷ (codes "b", dynamic (codes "x")) ∷ [];
  defaults = (codes "c", static (codes "2")) ∷ [];
  method = record no_authentication {
    api_key = some (record { selector = codes "app=talker"; all_namespaces = true });
  };
}

abbrev anonymous : V1beta2.AuthenticationSpec Bytes
anonymous = record {
  common = cached;
  credentials = no_credentials;
  overrides = [];
  defaults = [];
  method = record no_authentication { anonymous_access = some tt };
}

abbrev geo : V1beta2.MetadataSpec
geo = record {
  common = cached;
  method = record { http = some endpoint; user_info = none; uma = none };
}

abbrev spice : V1beta2.AuthorizationSpec
spice = record {
  common = uncached;
  method = record {
    pattern_matching = none;
    opa = none;
    kubernetes_subject_access_review = none;
    spice_db = some (record {
      endpoint = codes "spicedb";
      insecure = true;
      shared_secret = none;
      subject =
          some
            (record { name = dynamic (codes "auth.identity.sub"); kind = static (codes "user") });
      resource = none;
      permission = static (codes "read");
    });
  };
}

abbrev x_user : V1beta2.SuccessResponseSpec
x_user = record {
  common = uncached;
  method = record { plain = some (dynamic (codes "auth.identity")); json = none; wristband = none };
  key = [];
}

abbrev talker : V1beta2.AuthConfig Bytes Bytes ℕ
talker = record {
  object_meta = codes "talker";
  spec = record {
    hosts = codes "talker.example" ∷ [];
    named_patterns = (codes "get", []) ∷ [];
    conditions = no_expressions;
    authentication = (codes "keys", api_keys) ∷ (codes "anyone", anonymous) ∷ [];
    metadata = (codes "geo", geo) ∷ [];
    authorization = (codes "spice", spice) ∷ [];
    response = some (record {
      unauthenticated = none;
      unauthorized = some (record {
        code = pos 404;
        message = some (static (codes "gone"));
        headers = [];
        body = none;
      });
      success = record {
        headers = (codes "x-user", x_user) ∷ [];
        dynamic_metadata =
            (
              codes "user",
              record {
                common = uncached;
                method = record {
                  plain = none;
                  json = some ((codes "n", static (codes "1")) ∷ []);
                  wristband = none;
                };
                key = codes "user";
              },
            )
            ∷ [];
      };
    });
    callbacks = (codes "log", record { common = uncached; http = some endpoint }) ∷ [];
  };
  status = record {
    conditions = [];
    summary = record {
      ready = false;
      hosts_ready = [];
      num_hosts_ready = codes "0/1";
      num_identity_sources = pos 2;
      num_metadata_sources = pos 1;
      num_authorization_policies = pos 1;
      num_response_items = pos 2;
      festival_wristband_enabled = false;
    };
  };
}

endpoint-IsHttp : IsHttp quotes endpoint
unfolding bytes_eq is_empty
endpoint-IsHttp = record {
  body = inl (refl, (codes "hi", refl));
  parameters = ((tt, tt), (inr (refl, refl), tt));
  headers = (tt, tt);
  credentials = omega arith;
}

api_keys-IsAuthentication : IsAuthentication quotes api_keys
unfolding bytes_eq is_empty
api_keys-IsAuthentication = record {
  common = tt;
  credentials = omega arith;
  overrides = (((refl, tt), (tt, tt)), (inl refl, (inr (refl, refl), tt)));
  defaults = ((tt, tt), (inl refl, tt));
  method = omega arith;
}

anonymous-IsAuthentication : IsAuthentication quotes anonymous
unfolding is_empty
anonymous-IsAuthentication = record {
  common = inr (refl, refl);
  credentials = omega arith;
  overrides = (tt, tt);
  defaults = (tt, tt);
  method = omega arith;
}

talker-IsSpec : IsSpec quotes talker.spec
unfolding bytes_eq is_empty
talker-IsSpec = record {
  authentication =
      (((refl, tt), (tt, tt)), (api_keys-IsAuthentication, (anonymous-IsAuthentication, tt)));
  metadata = (
    (tt, tt),
    (record { common = inr (refl, refl); method = omega arith; http = endpoint-IsHttp }, tt),
  );
  authorization = (
    (tt, tt),
    (
      (
        tt,
        record {
          single = omega arith;
          opa = tt;
          review = tt;
          spice_db = record {
            subject = (inr (refl, refl), inl (refl, (codes "user", refl)));
            resource = tt;
            permission = inl (refl, (codes "read", refl));
          };
        },
      ),
      tt,
    ),
  );
  response = record {
    given = refl;
    unauthenticated = tt;
    unauthorized = record {
      message = inl (refl, (codes "gone", refl));
      headers = (tt, tt);
      body = tt;
    };
    headers = (
      (tt, tt),
      (
        (
          tt,
          record {
            single = omega arith;
            plain = inr (refl, refl);
            properties = tt;
            wristband = tt;
          },
        ),
        tt,
      ),
    );
    dynamic_metadata = (
      (tt, tt),
      (
        (
          tt,
          record {
            single = omega arith;
            plain = tt;
            properties = ((tt, tt), (inl refl, tt));
            wristband = tt;
          },
        ),
        tt,
      ),
    );
  };
  callbacks = ((tt, tt), (record { common = tt; uncached = refl; http = endpoint-IsHttp }, tt));
}

convert_from-convert_to_example : convert_from quotes (convert_to quotes talker) ≡ talker
convert_from-convert_to_example =
    convert_from-convert_to quotes unquoted-quoted talker talker-IsSpec

types-converted_example :
    (identity_type (authentication_to quotes (codes "talk") anonymous)
      ≡ identity_for (authentication_method anonymous.method))
    × (metadata_type (metadata_to quotes (codes "talk") geo)
        ≡ metadata_for (metadata_method geo.method))
    × (authorization_type (authorization_to quotes (codes "talk") spice)
        ≡ authorization_for (authorization_method spice.method))
    × (response_type (response_to quotes (codes "talk") x_user (codes "httpHeader"))
        ≡ response_for (auth_response_method x_user.method))
types-converted_example =
    types-converted quotes (codes "talk") (codes "httpHeader") anonymous geo spice x_user
