-- ===== src/Api/Conversion/Roundtrip/Responses.antt =====
-- Responses and denials, to v1beta1 and back.
use mathlib.Core.Option
use authorino.Common.{Bytes, true, Option, none, some, List, [], ◌∷◌, is_some, ◌≡◌, refl, arith}
use authorino.Api.V1beta1
use authorino.Api.V1beta2
use authorino.Api.V1beta1.Evaluators.{response_type}
use authorino.Api.V1beta2.Evaluators.{auth_response_method}
use authorino.Api.Conversion.Base.{
  JsonText, named_values_to, named_values_from, caching_to, value_to, value_from,
}
use authorino.Api.Conversion.Authentication.{common_to}
use authorino.Api.Conversion.Responses.{
  signing_keys_to, signing_keys_from, wristband_to, wristband_from, response_method_to, response_to,
  response_method_from, response_from, deny_with_to, deny_with_from,
}
use authorino.Api.Conversion.Roundtrip.Maps.{AllOption, AllList, AtMostOne, map-map_option}
use authorino.Api.Conversion.Roundtrip.Values.{
  IsNamedValues, named_values_from-named_values_to, IsText, value_from-value_to,
}
use authorino.Api.Conversion.Roundtrip.Authentication.{IsCommon, common_from-common_to}

-- No reference to a signing key is nil.
abbrev IsKey : Option V1beta2.WristbandSigningKeyRef → Type 0
IsKey k = is_some k ≡ true

signing_keys_from-signing_keys_to :
    (ks : List (Option V1beta2.WristbandSigningKeyRef))
    → AllList IsKey ks
    → signing_keys_from (signing_keys_to ks) ≡ ks
unfolding signing_keys_from signing_keys_to
signing_keys_from-signing_keys_to [] h = refl
signing_keys_from-signing_keys_to (none ∷ ks) h = absurd (cc (h.0))
signing_keys_from-signing_keys_to (some k ∷ ks) h = rw (signing_keys_from-signing_keys_to ks h.1)

abbrev pub IsWristband : V1beta2.WristbandAuthResponseSpec → Type 0
IsWristband w = IsNamedValues w.custom_claims × AllList IsKey w.signing_key_refs

wristband_from-wristband_to :
    (w : V1beta2.WristbandAuthResponseSpec) → IsWristband w → wristband_from (wristband_to w) ≡ w
unfolding wristband_from wristband_to
wristband_from-wristband_to w h = rw (
  named_values_from-named_values_to w.custom_claims h.0,
  signing_keys_from-signing_keys_to w.signing_key_refs h.1,
)

module _ (json : JsonText) where
  pub record IsResponseMethod (s : V1beta2.AuthResponseMethodSpec) : Type 0 where
    pub single : AtMostOne (is_some s.plain ∷ is_some s.json ∷ is_some s.wristband ∷ [])
    pub plain : AllOption (IsText json) s.plain
    pub properties : AllOption IsNamedValues s.json
    pub wristband : AllOption IsWristband s.wristband

  abbrev pub IsResponse : V1beta2.SuccessResponseSpec → Type 0
  IsResponse r = IsCommon json r.common × IsResponseMethod r.method

  pub record IsDenial (d : V1beta2.DenyWithSpec) : Type 0 where
    pub message : AllOption (IsText json) d.message
    pub headers : IsNamedValues d.headers
    pub body : AllOption (IsText json) d.body

  abbrev no_response :
      V1beta1.Common → Option V1beta1.EvaluatorCaching → Bytes → Bytes → V1beta1.Response
  no_response c cache wrapper key = record {
    common = c;
    cache = cache;
    wrapper = wrapper;
    wrapper_key = key;
    wristband = none;
    json = none;
    plain = none;
  }

  response_method_to-SameFields :
      (m : V1beta2.AuthResponseMethod) (s : V1beta2.AuthResponseMethodSpec) (i : V1beta1.Response)
      → let j = response_method_to json m s i in
        (j.common ≡ i.common)
        × (j.cache ≡ i.cache)
        × (j.wrapper ≡ i.wrapper)
        × (j.wrapper_key ≡ i.wrapper_key)
  unfolding response_method_to
  response_method_to-SameFields V1beta2.plain_auth_response s i = (refl, refl, refl, refl)
  response_method_to-SameFields m s i = ground arith

  -- A response keeps the wrapper that it is given.
  pub wrapper-response_to :
      (name : Bytes) (r : V1beta2.SuccessResponseSpec) (wrapper : Bytes)
      → (response_to json name r wrapper).wrapper ≡ wrapper
  unfolding response_to
  wrapper-response_to name r wrapper =
      (response_method_to-SameFields (auth_response_method r.method) r.method (
        no_response (common_to name r.common) (Option.map (caching_to json) r.common.cache) wrapper
          r.key)).2

  module _ (string_of-marshal : (s : Bytes) → json.string_of (json.marshal s) ≡ s) where
    text_back :
        (o : Option V1beta2.ValueOrSelector)
        → AllOption (IsText json) o
        → Option.map (value_from json) (Option.map (value_to json) o) ≡ o
    text_back o h =
        map-map_option (IsText json) (value_to json) (value_from json)
          (value_from-value_to json string_of-marshal) o h

    response_method_from-response_method_to :
        (s : V1beta2.AuthResponseMethodSpec) (c : V1beta1.Common)
        (cache : Option V1beta1.EvaluatorCaching) (wrapper key : Bytes)
        → IsResponseMethod s
        → let i =
            response_method_to json (auth_response_method s) s (no_response c cache wrapper key) in
          response_method_from json (response_type i) i ≡ s
    unfolding auth_response_method response_method_to response_type response_method_from
    response_method_from-response_method_to s c cache wrapper key h = ground (
      arith,
      text_back s.plain h.plain,
      map-map_option IsNamedValues named_values_to named_values_from
          named_values_from-named_values_to s.json h.properties,
      map-map_option IsWristband wristband_to wristband_from wristband_from-wristband_to s.wristband
          h.wristband,
    )

    pub response_from-response_to :
        (wrapper name : Bytes) (r : V1beta2.SuccessResponseSpec)
        → IsResponse r
        → response_from json (response_to json name r wrapper) ≡ (name, r)
    unfolding response_from response_to
    response_from-response_to wrapper name r h =
        let c = common_to name r.common in
        let cache = Option.map (caching_to json) r.common.cache in
        let same =
          response_method_to-SameFields (auth_response_method r.method) r.method
            (no_response c cache wrapper r.key) in
        rw (same.0, same.1, same.3)
          (cc (
            common_from-common_to json string_of-marshal name r.common h.0,
            response_method_from-response_method_to r.method c cache wrapper r.key h.1,
          ))

    pub deny_with_from-deny_with_to :
        (d : V1beta2.DenyWithSpec) → IsDenial d → deny_with_from json (deny_with_to json d) ≡ d
    unfolding deny_with_from deny_with_to
    deny_with_from-deny_with_to d h = rw (
      text_back d.message h.message,
      named_values_from-named_values_to d.headers h.headers,
      text_back d.body h.body,
    )
