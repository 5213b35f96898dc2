-- ===== src/Credentials/Roundtrip.antt =====
-- A credential that pkg/auth/credentials.go puts into a request, it reads from that request.
use authorino.Common.{
  Bytes, codes, bytes_eq, bytes_eq_refl, is_empty, false, ==_refl, Option, none, some, [], ◌∷◌,
  ◌++◌, ok, ◌≡◌, refl, sym,
}
use mathlib.Core.List.{append_assoc}
use authorino.Evaluators.{StringMap, get_string_key, put_string}
use authorino.Credentials.{
  AuthCredential, in_custom_header, in_auth_header, lower, strip_prefix, found_or_not, prefixed,
  OutgoingRequest, add_credentials, built, url_with_credentials, build_request_with_credentials,
  get_cred_from_auth_header, get_cred_from_custom_header, get_credentials_from_req,
}

strip_prefix-append : (p s : Bytes) → strip_prefix p (p ++ s) ≡ some s
unfolding strip_prefix
strip_prefix-append [] s = refl
strip_prefix-append (b ∷ p) s = rw (==_refl b) (strip_prefix-append p s)

-- The headers as a server gets them, with the names in lower case.
abbrev pub received : StringMap Bytes → StringMap Bytes
received [] = []
received ((k, v) ∷ m) = (lower k, v) ∷ received m

abbrev pub auth_header : Bytes → AuthCredential
auth_header key = record { key_selector = key; location = in_auth_header }

abbrev pub custom_header : Bytes → AuthCredential
custom_header key = record { key_selector = key; location = in_custom_header }

read_auth_header :
    (search : Bytes → Bytes → Option Bytes) (key value path : Bytes)
    → get_credentials_from_req search
        (auth_header key)
        (received (put_string (codes "Authorization") (key ++ (codes " " ++ value)) []))
        path
      ≡ ok value
unfolding get_credentials_from_req get_cred_from_auth_header lower put_string get_string_key
    bytes_eq prefixed found_or_not
read_auth_header search key value path =
    rw (sym (append_assoc key (32 ∷ []) value))
      (rw (strip_prefix-append (key ++ (32 ∷ [])) value) refl)

read_custom_header :
    (search : Bytes → Bytes → Option Bytes) (key value path : Bytes)
    → get_credentials_from_req search (custom_header key) (received (put_string key value [])) path
      ≡ ok value
unfolding get_credentials_from_req get_cred_from_custom_header put_string get_string_key bytes_eq
    found_or_not
read_custom_header search key value path = rw (bytes_eq_refl (lower key)) refl

built_auth_header :
    (refused : Bytes → Option Bytes) (key endpoint value : Bytes)
    → refused endpoint ≡ none
    → is_empty value ≡ false
    → build_request_with_credentials refused (auth_header key) endpoint value
      ≡ ok (record {
        url = endpoint;
        header = put_string (codes "Authorization") (key ++ (codes " " ++ value)) [];
      })
unfolding build_request_with_credentials url_with_credentials built add_credentials bytes_eq
built_auth_header refused key endpoint value h k = rw h (rw k refl)

built_custom_header :
    (refused : Bytes → Option Bytes) (key endpoint value : Bytes)
    → refused endpoint ≡ none
    → is_empty value ≡ false
    → build_request_with_credentials refused (custom_header key) endpoint value
      ≡ ok (record { url = endpoint; header = put_string key value [] })
unfolding build_request_with_credentials url_with_credentials built add_credentials bytes_eq
built_custom_header refused key endpoint value h k = rw h (rw k refl)

-- A credential that is not empty, for the Authorization header or for a custom header: the request
-- to a URL that is not refused is built without an error, and the credential is read back from its
-- headers.
pub credentials_roundtrip :
    (search : Bytes → Bytes → Option Bytes) (refused : Bytes → Option Bytes)
    (key endpoint value path : Bytes)
    → refused endpoint ≡ none
    → is_empty value ≡ false
    → ((req : OutgoingRequest) × (build_request_with_credentials refused
            (auth_header key)
            endpoint
            value
          ≡ ok req)
        × (get_credentials_from_req search (auth_header key) (received req.header) path ≡ ok value))
      × ((req : OutgoingRequest) × (build_request_with_credentials refused
              (custom_header key)
              endpoint
              value
            ≡ ok req)
          × (get_credentials_from_req search (custom_header key) (received req.header) path
              ≡ ok value))
credentials_roundtrip search refused key endpoint value path h k = (
  (_, built_auth_header refused key endpoint value h k, read_auth_header search key value path),
  (_, built_custom_header refused key endpoint value h k, read_custom_header search key value path),
)
