-- ===== src/Credentials/Tests.antt =====
-- The credentials of pkg/auth/credentials.go on small inputs.
use authorino.Common.{Bytes, codes, is_empty, Option, none, List, [], ◌∷◌, Outcome, ok, ◌≡◌, refl}
use authorino.Credentials.{
  in_cookie_header, OutgoingRequest, build_request_with_credentials, get_credentials_from_req,
}
use authorino.Credentials.Roundtrip.{auth_header, custom_header, received, credentials_roundtrip}

abbrev search : Bytes → Bytes → Option Bytes
search path key = none

abbrev accepts : Bytes → Option Bytes
accepts url = none

cookie_runs :
    get_credentials_from_req search
      (record { key_selector = codes "k"; location = in_cookie_header })
      ((codes "cookie", codes "a=1; k=secret; b=2") ∷ [])
      []
    ≡ ok (codes "secret")
unfolding get_credentials_from_req authorino.Common.bytes_eq authorino.Common.split
cookie_runs = refl

credentials_roundtrip_example :
    ((req : OutgoingRequest) × (build_request_with_credentials accepts
          (auth_header (codes "Key"))
          (codes "http://a")
          (codes "s")
        ≡ ok req)
      × (get_credentials_from_req search (auth_header (codes "Key")) (received req.header) []
          ≡ ok (codes "s")))
    × ((req : OutgoingRequest) × (build_request_with_credentials accepts
            (custom_header (codes "Key"))
            (codes "http://a")
            (codes "s")
          ≡ ok req)
        × (get_credentials_from_req search (custom_header (codes "Key")) (received req.header) []
            ≡ ok (codes "s")))
unfolding is_empty
credentials_roundtrip_example =
    credentials_roundtrip search accepts (codes "Key") (codes "http://a") (codes "s") [] refl refl
