-- ===== src/Api/Conversion/Roundtrip/ResponseSpec.antt =====
-- The response of a resource, to v1beta1 and back.
use mathlib.Core.List.{append-nil}
use mathlib.Core.Option
use authorino.Common.{
  Bytes, bytes_eq, is_empty, Bool, true, false, not, ◌&&◌, ◌||◌, Option, none, some, List, [], ◌∷◌,
  ◌++◌, is_some, ◌≡◌, refl, arith,
}
use authorino.Evaluators.{StringMap}
use authorino.Api.V1beta1
use authorino.Api.V1beta2
use authorino.Api.Conversion.Maps.{entries_to, entries_from}
use authorino.Api.Conversion.Base.{JsonText}
use authorino.Api.Conversion.Responses.{
  http_header, envoy_dynamic_metadata, response_to, response_from, deny_with_to, deny_with_from,
}
use authorino.Api.Conversion.Resource.{
  responses_to, denials_to, in_header, in_metadata, responses_that, denial_of, no_responses,
  response_spec_from,
}
use authorino.Api.Conversion.Roundtrip.Maps.{
  DistinctKeys, AllValues, AllOption, entries_from-entries_to, map-map_option,
}
use authorino.Api.Conversion.Roundtrip.Responses.{
  IsResponse, IsDenial, wrapper-response_to, response_from-response_to, deny_with_from-deny_with_to,
}

abbrev pub no_entries : {A : Type 0} → StringMap A → Bool
no_entries [] = true
no_entries (x ∷ m) = false

responses_that-append :
    (wanted : V1beta1.Response → Bool) (rs ss : List V1beta1.Response)
    → responses_that wanted (rs ++ ss) ≡ responses_that wanted rs ++ responses_that wanted ss
unfolding responses_that
responses_that-append wanted [] ss = refl
responses_that-append wanted (r ∷ rs) ss = ground (arith, responses_that-append wanted rs ss)

module _ {A : Type 0} (wanted : V1beta1.Response → Bool) (f : Bytes → A → V1beta1.Response) where
  all-responses_that :
      ((k : Bytes) (x : A) → wanted (f k x) ≡ true)
      → (m : StringMap A) → responses_that wanted (entries_to f m) ≡ entries_to f m
  unfolding responses_that entries_to
  all-responses_that h [] = refl
  all-responses_that h ((k, x) ∷ m) = rw (h k x, all-responses_that h m)

  none-responses_that :
      ((k : Bytes) (x : A) → wanted (f k x) ≡ false)
      → (m : StringMap A) → responses_that wanted (entries_to f m) ≡ []
  unfolding responses_that entries_to
  none-responses_that h [] = refl
  none-responses_that h ((k, x) ∷ m) = rw (h k x, none-responses_that h m)

module _ (json : JsonText) where
  to_header : Bytes → V1beta2.SuccessResponseSpec → V1beta1.Response
  to_header name x = response_to json name x http_header

  to_metadata : Bytes → V1beta2.SuccessResponseSpec → V1beta1.Response
  to_metadata name x = response_to json name x envoy_dynamic_metadata

  -- Each of the two loops of `ConvertFrom` takes the responses that its map became.
  headers-responses_that :
      (hs ms : StringMap V1beta2.SuccessResponseSpec)
      → responses_that in_header (entries_to to_header hs ++ entries_to to_metadata ms)
        ≡ entries_to to_header hs
  unfolding to_header to_metadata in_header bytes_eq is_empty
  headers-responses_that hs ms =
      rw
        (
          responses_that-append in_header (entries_to to_header hs) (entries_to to_metadata ms),
          all-responses_that in_header to_header
              (λ k x. rw (wrapper-response_to json k x http_header)) hs,
          none-responses_that in_header to_metadata
              (λ k x. rw (wrapper-response_to json k x envoy_dynamic_metadata)) ms,
        )
        (append-nil (entries_to to_header hs))

  metadata-responses_that :
      (hs ms : StringMap V1beta2.SuccessResponseSpec)
      → responses_that in_metadata (entries_to to_header hs ++ entries_to to_metadata ms)
        ≡ entries_to to_metadata ms
  unfolding to_header to_metadata in_metadata bytes_eq
  metadata-responses_that hs ms = rw (
    responses_that-append in_metadata (entries_to to_header hs) (entries_to to_metadata ms),
    all-responses_that in_metadata to_metadata
        (λ k x. rw (wrapper-response_to json k x envoy_dynamic_metadata)) ms,
    none-responses_that in_metadata to_header (λ k x. rw (wrapper-response_to json k x http_header))
        hs,
  )

  no_responses-entries_to :
      (hs ms : StringMap V1beta2.SuccessResponseSpec)
      → no_responses (entries_to to_header hs ++ entries_to to_metadata ms)
        ≡ (no_entries hs && no_entries ms)
  unfolding no_responses entries_to
  no_responses-entries_to [] [] = refl
  no_responses-entries_to [] (m ∷ ms) = refl
  no_responses-entries_to (h ∷ hs) ms = refl

  -- Responses of different names in each map, and something to say.
  pub record IsResponseSpec (r : V1beta2.ResponseSpec) : Type 0 where
    pub given :
        ((is_some r.unauthenticated || is_some r.unauthorized)
          || not (no_entries r.success.headers && no_entries r.success.dynamic_metadata))
        ≡ true
    pub unauthenticated : AllOption (IsDenial json) r.unauthenticated
    pub unauthorized : AllOption (IsDenial json) r.unauthorized
    pub headers : DistinctKeys r.success.headers × AllValues (IsResponse json) r.success.headers
    pub dynamic_metadata :
        DistinctKeys r.success.dynamic_metadata
        × AllValues (IsResponse json) r.success.dynamic_metadata

  is_some-denials_to :
      (r : V1beta2.ResponseSpec)
      → is_some (denials_to json (some r)) ≡ (is_some r.unauthenticated || is_some r.unauthorized)
  unfolding denials_to
  is_some-denials_to r = ground arith

  unauthenticated-denials_to :
      (r : V1beta2.ResponseSpec)
      → denial_of (λ x. x.unauthenticated) (denials_to json (some r))
        ≡ Option.map (deny_with_to json) r.unauthenticated
  unfolding denials_to
  unauthenticated-denials_to r = ground arith

  unauthorized-denials_to :
      (r : V1beta2.ResponseSpec)
      → denial_of (λ x. x.unauthorized) (denials_to json (some r))
        ≡ Option.map (deny_with_to json) r.unauthorized
  unfolding denials_to
  unauthorized-denials_to r = ground arith

  module _ (string_of-marshal : (s : Bytes) → json.string_of (json.marshal s) ≡ s) where
    denial_back :
        (o : Option V1beta2.DenyWithSpec)
        → AllOption (IsDenial json) o
        → Option.map (deny_with_from json) (Option.map (deny_with_to json) o) ≡ o
    denial_back o h =
        map-map_option (IsDenial json) (deny_with_to json) (deny_with_from json)
          (deny_with_from-deny_with_to json string_of-marshal) o h

    responses_back :
        (wrapper : Bytes) (m : StringMap V1beta2.SuccessResponseSpec)
        → DistinctKeys m × AllValues (IsResponse json) m
        → entries_from
            (response_from json)
            (entries_to (λ name x. response_to json name x wrapper) m)
            []
          ≡ m
    responses_back wrapper m (distinct, values) =
        entries_from-entries_to (IsResponse json) (λ name x. response_to json name x wrapper)
          (response_from json) (response_from-response_to json string_of-marshal wrapper) m distinct
          values

    pub response_spec_from-responses_to :
        (o : Option V1beta2.ResponseSpec)
        → AllOption IsResponseSpec o
        → response_spec_from json (denials_to json o) (responses_to json o) ≡ o
    unfolding response_spec_from responses_to to_header to_metadata
    response_spec_from-responses_to none h = unfold denials_to no_responses in refl
    response_spec_from-responses_to (some r) h = rw (
      is_some-denials_to r,
      no_responses-entries_to r.success.headers r.success.dynamic_metadata,
      h.given,
      unauthenticated-denials_to r,
      unauthorized-denials_to r,
      denial_back r.unauthenticated h.unauthenticated,
      denial_back r.unauthorized h.unauthorized,
      headers-responses_that r.success.headers r.success.dynamic_metadata,
      metadata-responses_that r.success.headers r.success.dynamic_metadata,
      responses_back http_header r.success.headers h.headers,
      responses_back envoy_dynamic_metadata r.success.dynamic_metadata h.dynamic_metadata,
    )
