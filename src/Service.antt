-- ===== src/Service.antt =====
-- pkg/service/auth.go: `AuthService.Check`, from the lookup of the request's host in the index to the
-- response for Envoy.
-- The index is that of pkg/index, with its configs; what the pipeline takes of other packages is an
-- `Env` for each request. Whether the deadline has passed is given for the two points at which it
-- matters: the test of the context, and the begin of `Evaluate`.
pub mod Lookup
pub mod Decisions
pub mod Http
pub mod Admission
mod Tests
use authorino.Common.{
  ℕ, Bytes, codes, bytes_eq, is_empty, split, Bool, true, false, ◌==◌, ◌||◌, Option, none, some,
  List, [], ◌∷◌, ◌++◌, if◌then◌else◌,
}
use authorino.RadixTree.{Search, found, panic, out_of_fuel}
use authorino.Index
use authorino.Index.{AuthConfigTree}
use authorino.Evaluators.{AuthConfig, StringMap, get_string_key}
use authorino.Pipeline
use authorino.Pipeline.{
  Env, Code, rpc_ok, unauthenticated, permission_denied, not_found, unavailable, AuthResult,
}
use authorino.Pipeline.Phases.{Schedule}
use authorino.Pipeline.Evaluate.{initial_result, evaluate}

-- Of `CheckRequest`: the attributes of the HTTP request, the certificate of the source, and the
-- context extensions.
pub record Request : Type 0 where
  pub id : Bytes
  pub method : Bytes
  pub headers : StringMap Bytes
  pub path : Bytes
  pub host : Bytes
  pub scheme : Bytes
  pub query : Bytes
  pub fragment : Bytes
  pub protocol : Bytes
  pub body : Bytes
  pub certificate : Bytes
  pub context_extensions : StringMap Bytes

-- `CheckResponse`: OK with headers and dynamic metadata, or denied with the code, the status, headers
-- and the body.
pub data CheckResponse (M : Type 0) : Type 0 where
  ok_response : StringMap Bytes → Option M → CheckResponse M
  denied_response : Code → ℕ → StringMap Bytes → Bytes → CheckResponse M

-- What the server takes of other packages: a new UUID, and `structpb.NewStruct` on the metadata
-- through JSON.
pub record Server (O M : Type 0) : Type 0 where
  pub index : AuthConfigTree (AuthConfig O)
  pub uuid : Bytes
  pub dynamic_metadata : StringMap O → Option M
  pub env : Request → Env O

-- `statusCodeMapping`; a code that is not there gives 0.
unfoldable pub status_code : Code → ℕ
status_code rpc_ok = 200
status_code not_found = 404
status_code unauthenticated = 401
status_code permission_denied = 403
status_code unavailable = 0

abbrev pub reason_header : Bytes
reason_header = codes "X-Ext-Auth-Reason"

abbrev pub service_not_found : Bytes
service_not_found = codes "Service not found"

-- `ensureRequestId`
unfoldable pub ensure_request_id : Bytes → List Bytes → Bytes
ensure_request_id uuid [] = uuid
ensure_request_id uuid (id ∷ ids) =
    let rest = ensure_request_id uuid ids in if is_empty id then rest else id

-- `requestData.Headers["x-request-id"]`; a missing header is empty.
propagated_id : Request → Bytes
unfolding get_string_key
propagated_id req = elim (get_string_key (codes "x-request-id") req.headers) [
  | none ↦ []
  | some id ↦ id
]

-- The host of the request, unless the context extensions override it.
unfoldable pub lookup_host : Request → Bytes
unfolding get_string_key
lookup_host req = elim (get_string_key (codes "host") req.context_extensions) [
  | some h ↦ h
  | none ↦ req.host
]

abbrev pub colon : ℕ
colon = 58

-- `strings.Contains(host, ":")`
unfoldable pub has_colon : Bytes → Bool
has_colon [] = false
has_colon (b ∷ s) = (b == colon) || has_colon s

first_part : List Bytes → Bytes
first_part [] = []
first_part (p ∷ ps) = p

-- `splitHost[0]`
unfoldable pub without_port : Bytes → Bytes
unfolding first_part
without_port host = first_part (split colon host)

-- `buildResponseHeaders`
unfoldable pub build_response_headers : List (StringMap Bytes) → StringMap Bytes
build_response_headers [] = []
build_response_headers (m ∷ ms) = m ++ build_response_headers ms

-- `buildResponseHeadersWithReason`
unfoldable pub build_response_headers_with_reason : Bytes → List (StringMap Bytes) → StringMap Bytes
unfolding build_response_headers
build_response_headers_with_reason reason headers =
    build_response_headers (headers ++ (((reason_header, reason) ∷ []) ∷ []))

module _ {C : Type 0} (index : AuthConfigTree C) where
  unfoldable pub retry : Bytes → Option C → Search (Option C)
  unfolding has_colon without_port
  retry host (some c) = found (some c)
  retry host none = if has_colon host then Index.get index (without_port host) else found none

  -- The config for a host, or else for the host without its port.
  unfoldable pub lookup : Bytes → Search (Option C)
  unfolding retry
  lookup host = elim (Index.get index host) [
    | found c ↦ retry host c
    | panic ↦ panic
    | out_of_fuel ↦ out_of_fuel
  ]

module _ {O M : Type 0} (server : Server O M) where
  -- `successResponse`
  unfoldable pub success_response : AuthResult O → CheckResponse M
  unfolding build_response_headers
  success_response r =
      ok_response (build_response_headers r.headers) (server.dynamic_metadata r.metadata)

  -- `deniedResponse`
  unfoldable pub denied : AuthResult O → CheckResponse M
  unfolding build_response_headers_with_reason status_code
  denied r =
      denied_response r.code (if r.status == 0 then status_code r.code else r.status)
        (build_response_headers_with_reason r.message r.headers) r.body

  -- The response to the result of a pipeline, by `AuthResult.Success`.
  unfoldable pub respond_result : Code → AuthResult O → CheckResponse M
  unfolding success_response denied
  respond_result rpc_ok r = success_response r
  respond_result _ r = denied r

  -- The request with its id, as the pipeline sees it.
  unfoldable pub identify : Request → Request
  unfolding ensure_request_id propagated_id
  identify req = record req { id = ensure_request_id server.uuid (propagated_id req ∷ req.id ∷ []) }

  unfoldable pub evaluated :
      Option (AuthResult O × Pipeline.AuthPipeline O) → Option (CheckResponse M)
  unfolding respond_result
  evaluated none = none
  evaluated (some (r, pl)) = some (respond_result r.code r)

  -- `Check` after the lookup; none while the pipeline runs.
  unfoldable pub decide :
      Request → Schedule O → Bool → Bool → Option (AuthConfig O) → Option (CheckResponse M)
  unfolding denied evaluated evaluate identify
  decide req schedule late expired none =
      some (denied (record initial_result { code = not_found; message = service_not_found }))
  decide req schedule late expired (some config) =
      if late
      then some (denied (record initial_result { code = unavailable }))
      else evaluated (evaluate (server.env (identify req)) config schedule expired)

  -- `Check`
  unfoldable pub check : Request → Schedule O → Bool → Bool → Search (Option (CheckResponse M))
  unfolding lookup lookup_host decide
  check req schedule late expired = elim (lookup server.index (lookup_host req)) [
    | found c ↦ found (decide req schedule late expired c)
    | panic ↦ panic
    | out_of_fuel ↦ out_of_fuel
  ]
