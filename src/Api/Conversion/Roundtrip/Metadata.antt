-- ===== src/Api/Conversion/Roundtrip/Metadata.antt =====
-- Metadata and callbacks, to v1beta1 and back.
use mathlib.Core.Option
use authorino.Common.{Bytes, Option, none, [], ◌∷◌, is_some, ◌≡◌, refl, arith}
use authorino.Api.V1beta1
use authorino.Api.V1beta2
use authorino.Api.V1beta1.Evaluators.{metadata_type, callback_type}
use authorino.Api.V1beta2.Evaluators.{metadata_method, callback_method}
use authorino.Api.Conversion.Base.{JsonText, caching_to, http_to, http_from}
use authorino.Api.Conversion.Authentication.{common_to}
use authorino.Api.Conversion.Evaluators.{
  metadata_method_to, metadata_to, metadata_method_from, metadata_from, callback_to, callback_from,
}
use authorino.Api.Conversion.Roundtrip.Maps.{AllOption, AtMostOne, map-map_option}
use authorino.Api.Conversion.Roundtrip.Values.{IsHttp, http_from-http_to}
use authorino.Api.Conversion.Roundtrip.Authentication.{IsCommon, common_from-common_to}

module _ (json : JsonText) where
  pub record IsMetadata (m : V1beta2.MetadataSpec) : Type 0 where
    pub common : IsCommon json m.common
    pub method :
        AtMostOne (is_some m.method.http ∷ is_some m.method.user_info ∷ is_some m.method.uma ∷ [])
    pub http : AllOption (IsHttp json) m.method.http

  pub record IsCallback (c : V1beta2.CallbackSpec) : Type 0 where
    pub common : IsCommon json c.common
    pub uncached : c.common.cache ≡ none
    pub http : AllOption (IsHttp json) c.http

  abbrev no_metadata : V1beta1.Common → Option V1beta1.EvaluatorCaching → V1beta1.Metadata
  no_metadata c cache = record {
    common = c;
    cache = cache;
    user_info = none;
    uma = none;
    generic_http = none;
  }

  metadata_method_to-SameFields :
      (m : V1beta2.MetadataMethod) (s : V1beta2.MetadataMethodSpec) (i : V1beta1.Metadata)
      → let j = metadata_method_to json m s i in (j.common ≡ i.common) × (j.cache ≡ i.cache)
  unfolding metadata_method_to
  metadata_method_to-SameFields V1beta2.http_metadata s i = (refl, refl)
  metadata_method_to-SameFields m s i = ground arith

  module _ (string_of-marshal : (s : Bytes) → json.string_of (json.marshal s) ≡ s) where
    http_back :
        (o : Option V1beta2.HttpEndpointSpec)
        → AllOption (IsHttp json) o
        → Option.map (http_from json) (Option.map (http_to json) o) ≡ o
    http_back o h =
        map-map_option (IsHttp json) (http_to json) (http_from json)
          (http_from-http_to json string_of-marshal) o h

    metadata_method_from-metadata_method_to :
        (s : V1beta2.MetadataMethodSpec) (c : V1beta1.Common)
        (cache : Option V1beta1.EvaluatorCaching)
        → AtMostOne (is_some s.http ∷ is_some s.user_info ∷ is_some s.uma ∷ [])
        → AllOption (IsHttp json) s.http
        → let i = metadata_method_to json (metadata_method s) s (no_metadata c cache) in
          metadata_method_from json (metadata_type i) i ≡ s
    unfolding metadata_method metadata_method_to metadata_type metadata_method_from
    metadata_method_from-metadata_method_to s c cache h k = ground (arith, http_back s.http k)

    pub metadata_from-metadata_to :
        (name : Bytes) (m : V1beta2.MetadataSpec)
        → IsMetadata m
        → metadata_from json (metadata_to json name m) ≡ (name, m)
    unfolding metadata_from metadata_to
    metadata_from-metadata_to name m h =
        let c = common_to name m.common in
        let cache = Option.map (caching_to json) m.common.cache in
        let same =
          metadata_method_to-SameFields (metadata_method m.method) m.method (no_metadata c cache) in
        rw (same.0, same.1)
          (cc (
            common_from-common_to json string_of-marshal name m.common h.common,
            metadata_method_from-metadata_method_to m.method c cache h.method h.http,
          ))

    pub callback_from-callback_to :
        (name : Bytes) (c : V1beta2.CallbackSpec)
        → IsCallback c
        → callback_from json (callback_to json name c) ≡ (name, c)
    unfolding callback_from callback_to callback_type callback_method
    callback_from-callback_to name c h = ground (
      arith,
      common_from-common_to json string_of-marshal name c.common h.common,
      h.uncached,
      http_back c.http h.http,
    )
