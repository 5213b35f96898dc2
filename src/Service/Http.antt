-- ===== src/Service/Http.antt =====
-- pkg/service/auth.go: `ServeHTTP`, the raw HTTP authorization server in front of `Check`.
-- The body is read through `http.MaxBytesReader`: what the read gives is an argument, and so is
-- whether the payload is an AdmissionReview. An answer is the status that is written and the body.
use authorino.Common.{
  ℕ, Bytes, codes, bytes_eq, is_empty, join, Bool, true, false, not, ◌==◌, ◌&&◌, ◌||◌, Option, none,
  some, List, [], ◌∷◌, if◌then◌else◌,
}
use authorino.RadixTree.{Search, found, panic, out_of_fuel}
use authorino.Credentials.{lower}
use authorino.Evaluators.{StringMap, put_string, get_string_key}
use authorino.Pipeline.{rpc_ok}
use authorino.Pipeline.Phases.{Schedule}
use authorino.Service.{
  Request, CheckResponse, ok_response, denied_response, Server, status_code, check, reason_header,
  ensure_request_id,
}

-- Of `http.Request`, with the peer's certificate in PEM as it is sent on, or nothing.
pub record HttpRequest : Type 0 where
  pub method : Bytes
  pub path : Bytes
  pub header : List (Bytes × List Bytes)
  pub host : Bytes
  pub scheme : Bytes
  pub query : Bytes
  pub fragment : Bytes
  pub protocol : Bytes
  pub certificate : Bytes

-- What reading the body gives: its bytes, an error for its size, or another error.
pub data Payload : Type 0 where
  read_payload : Bytes → Payload
  too_large read_failed : Payload

-- What is written: a status with headers and a body, or the response to an AdmissionReview: whether
-- it is allowed, and else the status and the reason.
pub data HttpResponse : Type 0 where
  plain : ℕ → StringMap Bytes → Bytes → HttpResponse
  review_allowed : HttpResponse
  review_denied : ℕ → Bytes → HttpResponse

-- The loop over `req.Header`.
unfoldable pub lower_headers : List (Bytes × List Bytes) → StringMap Bytes → StringMap Bytes
unfolding lower put_string
lower_headers [] m = m
lower_headers ((key, values) ∷ header) m =
    lower_headers header (put_string (lower key) (join 32 values) m)

abbrev pub slash : ℕ
slash = 47

-- `strings.TrimSuffix(path, "/")`
unfoldable pub trim_slash : Bytes → Bytes
trim_slash [] = []
trim_slash (b ∷ s) = let rest = trim_slash s in if is_empty s && (b == slash) then [] else b ∷ rest

-- `req.Header.Get("X-Request-Id")`: the first value of the header.
first_value : Option (List Bytes) → Bytes
first_value none = []
first_value (some []) = []
first_value (some (v ∷ vs)) = v

-- The `CheckRequest` that `ServeHTTP` builds.
unfoldable pub check_request : Bytes → HttpRequest → Bytes → Request
unfolding lower_headers trim_slash ensure_request_id get_string_key first_value
check_request uuid r payload = record {
  id = ensure_request_id uuid (first_value (get_string_key (codes "X-Request-Id") r.header) ∷ []);
  method = r.method;
  headers = lower_headers r.header [];
  path = trim_slash r.path;
  host = r.host;
  scheme = r.scheme;
  query = r.query;
  fragment = r.fragment;
  protocol = r.protocol;
  body = payload;
  certificate = r.certificate;
  context_extensions = [];
}

-- The status of the body of a denied review: the first header with the reason.
reason_of : StringMap Bytes → Bytes
unfolding get_string_key
reason_of hs = elim (get_string_key reason_header hs) [ none ↦ [] | some v ↦ v ]

module _ {M : Type 0} where
  -- The response of `Check` as an HTTP response, for a review or another request.
  unfoldable pub http_response : Bool → CheckResponse M → HttpResponse
  unfolding status_code reason_of
  http_response true (ok_response hs m) = review_allowed
  http_response true (denied_response c st hs body) = review_denied (status_code c) (reason_of hs)
  http_response false (ok_response hs m) = plain (status_code rpc_ok) hs []
  http_response false (denied_response c st hs body) = plain (status_code c) hs body

  unfoldable pub http_answer : Bool → Option (CheckResponse M) → Option HttpResponse
  unfolding http_response
  http_answer review none = none
  http_answer review (some r) = some (http_response review r)

abbrev pub error_status : ℕ → Option HttpResponse
error_status code = some (plain code [] [])

module _ {O M : Type 0} (server : Server O M) (is_review : Bytes → Bool) where
  -- Behind the read of the payload, with whether the deadline has passed by then.
  unfoldable pub serve_payload :
      HttpRequest → Schedule O → Bool → Bool → Bool → Payload → Search (Option HttpResponse)
  unfolding check_request check http_answer
  serve_payload r schedule late late_check expired too_large = found (error_status 413)
  serve_payload r schedule late late_check expired read_failed = found (error_status 400)
  serve_payload r schedule late late_check expired (read_payload payload) =
      if late
      then found (error_status 503)
      else elim (check server (check_request server.uuid r payload) schedule late_check expired) [
        | found o ↦ found (http_answer (is_review payload) o)
        | panic ↦ panic
        | out_of_fuel ↦ out_of_fuel
      ]

  -- `ServeHTTP`; the deadline is tested before and after the payload is read, and in `Check`.
  unfoldable pub serve_http :
      HttpRequest → Payload → Schedule O → Bool → Bool → Bool → Bool → Search (Option HttpResponse)
  unfolding serve_payload trim_slash
  serve_http r payload schedule early late late_check expired =
      let served = serve_payload r schedule late late_check expired payload in
      if not (bytes_eq r.method (codes "GET") || bytes_eq r.method (codes "POST"))
      then found (error_status 404)
      else if not (bytes_eq (trim_slash r.path) (codes "/check"))
      then found (error_status 404)
      else if early
      then found (error_status 503)
      else served
