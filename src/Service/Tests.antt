-- ===== src/Service/Tests.antt =====
-- The authorization service of pkg/service/auth.go on small inputs.
use authorino.Common.{
  ℕ, Bytes, codes, bytes_eq, is_empty, split, join, true, false, none, some, [], ◌∷◌, ok, err, ◌≡◌,
  ◌≢◌, ◌⊎◌, refl, ◌<|>◌, if◌then◌else◌,
}
use authorino.RadixTree
use authorino.RadixTree.{found}
use authorino.Index
use authorino.Index.{AuthConfigTree, new_auth_config_tree}
use authorino.Index.Keys.{path_of, IsHost}
use authorino.Index.WellFormed.{IsWellFormed, new-IsWellFormed, updated, updated-IsWellFormed}
use authorino.Evaluators.{AuthConfig}
use authorino.Pipeline.{
  AuthPipeline, Code, rpc_ok, not_found, unavailable, permission_denied, AuthResult,
}
use authorino.Pipeline.Evaluate.{evaluate}
use authorino.Pipeline.Results.{Unmatched}
use authorino.Pipeline.Access.{Granted}
use authorino.Pipeline.Fixtures.{env, config, schedule}
use authorino.Service.{
  Request, ok_response, denied_response, Server, lookup, lookup_host, identify, check, has_colon,
  without_port, reason_header,
}
use authorino.Service.Lookup.{config_for, lookup_lem}
use authorino.Service.Decisions.{check-Granted, check_denied}
use authorino.Service.Http.{HttpRequest, read_payload, plain, check_request, serve_http}

abbrev refused : Bytes
refused = codes "Unauthorized"

abbrev api : Bytes
api = codes "api.io"

abbrev index : AuthConfigTree (AuthConfig ℕ)
index = updated new_auth_config_tree (codes "ns/one") api config

api-IsHost : IsHost api
unfolding path_of split is_empty
api-IsHost = refl

index-IsWellFormed : IsWellFormed index
index-IsWellFormed =
    updated-IsWellFormed new_auth_config_tree (codes "ns/one") api config new-IsWellFormed
      api-IsHost

abbrev with_port : Bytes
with_port = codes "api.io:80"

with_port-IsHost : IsHost with_port
unfolding path_of split is_empty
with_port-IsHost = refl

without_port-IsHost : IsHost (without_port with_port)
unfolding path_of split without_port is_empty
without_port-IsHost = refl

lookup_lem_example :
    lookup index with_port
    ≡ found (
        config_for index with_port
        <|> (if has_colon with_port then config_for index (without_port with_port) else none))
lookup_lem_example =
    lookup_lem index with_port index-IsWellFormed with_port-IsHost without_port-IsHost

abbrev server : Server ℕ (Unit {0})
server = record { index = index; uuid = codes "1"; dynamic_metadata = λ m. none; env = λ r. env }

abbrev request : Request
request =
    check_request (codes "1")
      (record {
        method = codes "GET";
        path = codes "/check/";
        header = [];
        host = with_port;
        scheme = [];
        query = [];
        fragment = [];
        protocol = [];
        certificate = [];
      })
      []

check_runs :
    check server request (schedule (ok 7) (ok 1)) false false ≡ found (some (ok_response [] none))
unfolding check Index.get RadixTree.get split RadixTree.revert_key join check_request bytes_eq
    updated authorino.RadixTree.Insert.stored is_empty authorino.RadixTree.Paths.descend path_of
    RadixTree.lookup_child new_auth_config_tree RadixTree.new_tree_node RadixTree.write_at
    RadixTree.put_branch RadixTree.put_child RadixTree.new_branch
    authorino.RadixTree.Overwrite.overwritten evaluate authorino.Group.step
    authorino.Pipeline.resolve_extended_properties authorino.Pipeline.resolved_object
check_runs = refl

check-Granted_example :
    (c : AuthConfig ℕ) × (lookup server.index (lookup_host request) ≡ found (some c))
    × (false ≡ false)
    × (Unmatched (server.env (identify server request)) c (schedule (ok 7) (ok 1))
        ⊎ Granted (server.env (identify server request)) c (schedule (ok 7) (ok 1)) false)
check-Granted_example =
    check-Granted server request (schedule (ok 7) (ok 1)) false false [] none check_runs

denial_runs :
    check server request (schedule (ok 7) (err refused)) false false
    ≡ found (some (denied_response permission_denied 403 ((reason_header, refused) ∷ []) []))
unfolding check Index.get RadixTree.get split RadixTree.revert_key join check_request bytes_eq
    updated authorino.RadixTree.Insert.stored is_empty authorino.RadixTree.Paths.descend path_of
    RadixTree.lookup_child new_auth_config_tree RadixTree.new_tree_node RadixTree.write_at
    RadixTree.put_branch RadixTree.put_child RadixTree.new_branch
    authorino.RadixTree.Overwrite.overwritten evaluate authorino.Group.step
    authorino.Pipeline.resolve_extended_properties authorino.Pipeline.resolved_object
denial_runs = refl

check_denied_example :
    (permission_denied ≢ rpc_ok)
    × (((lookup server.index (lookup_host request) ≡ found none) × (permission_denied ≡ not_found))
        ⊎ ((c : AuthConfig ℕ) × (lookup server.index (lookup_host request) ≡ found (some c))
            × (((false ≡ true) × (permission_denied ≡ unavailable))
                ⊎ ((end : AuthResult ℕ × AuthPipeline ℕ) × (evaluate
                        (server.env (identify server request))
                        c
                        (schedule (ok 7) (err refused))
                        false
                      ≡ some end)
                    × (end.0.code ≡ permission_denied)))))
check_denied_example =
    check_denied server request (schedule (ok 7) (err refused)) false false permission_denied 403
      ((reason_header, refused) ∷ []) [] denial_runs

abbrev http_request : HttpRequest
http_request = record {
  method = codes "GET";
  path = codes "/check/";
  header = [];
  host = with_port;
  scheme = [];
  query = [];
  fragment = [];
  protocol = [];
  certificate = [];
}

-- The deadline passes during the request: the raw HTTP server writes the status 0.
unavailable_runs :
    serve_http server is_empty http_request
      (read_payload (codes "x"))
      (schedule (ok 7) (ok 1))
      false
      false
      true
      true
    ≡ found (some (plain 0 ((reason_header, []) ∷ []) []))
unfolding serve_http Index.get RadixTree.get split RadixTree.revert_key join check_request bytes_eq
    updated authorino.RadixTree.Insert.stored is_empty authorino.RadixTree.Paths.descend path_of
    RadixTree.lookup_child new_auth_config_tree RadixTree.new_tree_node RadixTree.write_at
    RadixTree.put_branch RadixTree.put_child RadixTree.new_branch
    authorino.RadixTree.Overwrite.overwritten evaluate authorino.Group.step
    authorino.Pipeline.resolve_extended_properties authorino.Pipeline.resolved_object
unavailable_runs = refl
