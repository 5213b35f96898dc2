-- ===== src/Credentials.antt =====
-- pkg/auth/credentials.go: where the credential of a request is, how it is read from there, and how
-- it is put into a request to another service.
-- Text in headers is ASCII. The query is searched with a regular expression made of the key name,
-- so that search is an argument, and so is `http.NewRequestWithContext`, which may fail on the URL.
pub mod Roundtrip
mod Tests
use authorino.Common.{
  not, ◌+◌, ℕ, Bytes, codes, bytes_eq, is_empty, split, leb, Bool, true, false, ◌==◌, ◌&&◌, ◌||◌,
  Option, none, some, List, [], ◌∷◌, ◌++◌, Outcome, ok, err, if◌then◌else◌,
}
use authorino.Evaluators.{StringMap, get_string_key, put_string}

-- `AuthCredential`
pub record AuthCredential : Type 0 where
  pub key_selector : Bytes
  pub location : Bytes

abbrev pub in_custom_header : Bytes
in_custom_header = codes "custom_header"

abbrev pub in_auth_header : Bytes
in_auth_header = codes "authorization_header"

abbrev pub in_cookie_header : Bytes
in_cookie_header = codes "cookie"

abbrev pub in_query : Bytes
in_query = codes "query"

abbrev pub credential_not_found : Bytes
credential_not_found = codes "credential not found"

-- `NewAuthCredential`
unfoldable pub new_auth_credential : Bytes → Bytes → AuthCredential
new_auth_credential selector location = record {
  key_selector = if is_empty selector then codes "Bearer" else selector;
  location = if is_empty location then in_auth_header else location;
}

-- `strings.ToLower`
lower_byte : ℕ → ℕ
lower_byte b = if leb 65 b && leb b 90 then b + 32 else b

unfoldable pub lower : Bytes → Bytes
unfolding lower_byte
lower [] = []
lower (b ∷ s) = lower_byte b ∷ lower s

-- `strings.HasPrefix` and `strings.TrimPrefix`: the rest behind the prefix, if it is there.
unfoldable pub strip_prefix : Bytes → Bytes → Option Bytes
strip_prefix [] s = some s
strip_prefix (p ∷ ps) [] = none
strip_prefix (p ∷ ps) (b ∷ s) = let rest = strip_prefix ps s in if p == b then rest else none

is_space : ℕ → Bool
is_space b = (b == 32) || (leb 9 b && leb b 13)

-- `strings.TrimSpace`
trim_left : Bytes → Bytes
unfolding is_space
trim_left [] = []
trim_left (b ∷ s) = let rest = trim_left s in if is_space b then rest else b ∷ s

trim_right : Bytes → Bytes
unfolding is_space
trim_right [] = []
trim_right (b ∷ s) = let rest = trim_right s in if is_space b && is_empty rest then [] else b ∷ rest

unfoldable pub trim_space : Bytes → Bytes
unfolding trim_left trim_right
trim_space s = trim_right (trim_left s)

found_or_not : Option Bytes → Outcome Bytes
found_or_not none = err credential_not_found
found_or_not (some cred) = ok cred

-- `getCredFromCustomHeader`
unfoldable pub get_cred_from_custom_header : StringMap Bytes → Bytes → Outcome Bytes
unfolding lower get_string_key found_or_not
get_cred_from_custom_header headers key_name =
    found_or_not (get_string_key (lower key_name) headers)

prefixed : Bytes → Option Bytes → Outcome Bytes
unfolding strip_prefix found_or_not
prefixed key none = err credential_not_found
prefixed key (some header) = found_or_not (strip_prefix key header)

-- `getCredFromAuthHeader`
unfoldable pub get_cred_from_auth_header : StringMap Bytes → Bytes → Outcome Bytes
unfolding get_string_key prefixed
get_cred_from_auth_header headers key_name =
    prefixed (key_name ++ (32 ∷ [])) (get_string_key (codes "authorization") headers)

-- The loop over the parts of the cookie header.
find_cookie : Bytes → List Bytes → Outcome Bytes
unfolding trim_space strip_prefix
find_cookie key [] = err credential_not_found
find_cookie key (part ∷ parts) =
    let rest = find_cookie key parts in
    elim (strip_prefix key (trim_space part)) [ none ↦ rest | some cred ↦ ok cred ]

in_cookies : Bytes → Option Bytes → Outcome Bytes
unfolding find_cookie
in_cookies key none = err credential_not_found
in_cookies key (some header) = find_cookie key (split 59 header)

-- `getFromCookieHeader`
unfoldable pub get_from_cookie_header : StringMap Bytes → Bytes → Outcome Bytes
unfolding in_cookies get_string_key
get_from_cookie_header headers key_name =
    in_cookies (key_name ++ codes "=") (get_string_key (codes "cookie") headers)

-- `GetCredentialsFromReq`; `search` is the search of the query in the path by a key name.
unfoldable pub get_credentials_from_req :
    (Bytes → Bytes → Option Bytes) → AuthCredential → StringMap Bytes → Bytes → Outcome Bytes
unfolding get_cred_from_custom_header get_cred_from_auth_header get_from_cookie_header found_or_not
get_credentials_from_req search c headers path =
    if bytes_eq c.location in_custom_header
    then get_cred_from_custom_header headers c.key_selector
    else if bytes_eq c.location in_auth_header
    then get_cred_from_auth_header headers c.key_selector
    else if bytes_eq c.location in_cookie_header
    then get_from_cookie_header headers c.key_selector
    else if bytes_eq c.location in_query
    then found_or_not (search path c.key_selector)
    else err (codes "the credential location is not supported")

-- `strings.Contains(url, "?")`
has_question : Bytes → Bool
has_question [] = false
has_question (b ∷ s) = (b == 63) || has_question s

-- The URL with the credential, if it goes there and is not empty.
unfoldable pub url_with_credentials : AuthCredential → Bytes → Bytes → Bytes
unfolding has_question
url_with_credentials c endpoint value =
    if bytes_eq c.location in_query && not (is_empty value)
    then endpoint
      ++ ((if has_question endpoint then codes "&" else codes "?")
          ++ (c.key_selector ++ (codes "=" ++ value)))
    else endpoint

-- The request that is built: its URL and its headers.
pub record OutgoingRequest : Type 0 where
  pub url : Bytes
  pub header : StringMap Bytes

add_credentials : AuthCredential → Bytes → Bytes → Outcome OutgoingRequest
unfolding put_string
add_credentials c url value =
    if bytes_eq c.location in_auth_header
    then ok (record {
      url = url;
      header = put_string (codes "Authorization") (c.key_selector ++ (codes " " ++ value)) [];
    })
    else if bytes_eq c.location in_custom_header
    then ok (record { url = url; header = put_string c.key_selector value [] })
    else if bytes_eq c.location in_cookie_header
    then ok (record {
      url = url;
      header = put_string (codes "Cookie") (c.key_selector ++ (codes "=" ++ value)) [];
    })
    else if bytes_eq c.location in_query
    then ok (record { url = url; header = [] })
    else err (codes "unsupported credentials location")

built : AuthCredential → Bytes → Bytes → Option Bytes → Outcome OutgoingRequest
unfolding add_credentials
built c url value (some e) = err e
built c url value none =
    if is_empty value then ok (record { url = url; header = [] }) else add_credentials c url value

-- `BuildRequestWithCredentials`; `refused` is the error that `http.NewRequestWithContext` gives.
unfoldable pub build_request_with_credentials :
    (Bytes → Option Bytes) → AuthCredential → Bytes → Bytes → Outcome OutgoingRequest
unfolding built url_with_credentials
build_request_with_credentials refused c endpoint value =
    let url = url_with_credentials c endpoint value in built c url value (refused url)
