-- ===== src/Controllers/Tests.antt =====
-- The reconciler on an index with two hosts, and conditions with named sets of patterns.

use authorino.Common.{
  ℕ, Bytes, codes, bytes_eq, is_empty, split, Bool, true, false, Option, none, some, List, [], ◌∷◌,
  Outcome, ok, ◌≡◌, refl,
}
use authorino.Common.Int.{pos}
use authorino.Evaluators.{get_string_key, json_pattern_matching}
use authorino.Jsonexp.{JsonLib, matches, all, any, pattern_matches, side}
use authorino.RadixTree.{found}
use authorino.Index.{AuthConfigTree, new_auth_config_tree, keys_of, append_key, empty}
use authorino.Index.Keys.{path_of, IsHost}
use authorino.Index.WellFormed.{IsWellFormed, new-IsWellFormed, updated, updated-IsWellFormed}
use authorino.Api.V1beta1
use authorino.Api.V1beta1.Base.{
  JsonPatternExpression, JsonPatterns, json_pattern, no_patterns, pattern_and,
}
use authorino.Controllers.Expressions.{NamedPatterns, expressions_of, build_json_expression}
use authorino.Controllers.Conditions.{all_hold}
use authorino.Controllers.Rules.{IsDangling, matches-build_json_expression, dangling-authorized}
use authorino.Controllers.Linking.{Linking, add_to_index, reindex}
use authorino.Controllers.Division.{AllHosts}
use authorino.Controllers.Hosts.{unlinked, Links, add_to_index-Links}
use authorino.Controllers.Reindexing.{Reindexed, reindex-Reindexed}
use authorino.Controllers.Reports.{get_report}
use authorino.Controllers.Reconciler.{
  got, Reconciler, Reconciliation, Listed, reconcile, bootstrap_index,
}
use authorino.Controllers.Behind.{report_of}
use authorino.Controllers.Safety.{IsSafe, reconcile-IsSafe, reconcile-report_of}
use authorino.Controllers.Bootstrap.{
  serves_ready, AllListed, AllDeny, Bootstrapped, bootstrap_index-AllDeny,
}
use authorino.Evaluators.{AuthConfig}
use authorino.Pipeline.Fixtures.{env, config}

abbrev api : Bytes
api = codes "api.io"

abbrev other : Bytes
other = codes "b.io"

abbrev owner : Bytes
owner = codes "ns/one"

api-IsHost : IsHost api
unfolding path_of split is_empty
api-IsHost = refl

other-IsHost : IsHost other
unfolding path_of split is_empty
other-IsHost = refl

-- Another id has "b.io".
abbrev start : AuthConfigTree (AuthConfig ℕ)
start = updated (updated new_auth_config_tree owner api config) (codes "ns/two") other config

start-IsWellFormed : IsWellFormed start
start-IsWellFormed =
    updated-IsWellFormed (updated new_auth_config_tree owner api config) (codes "ns/two") other
      config
      (updated-IsWellFormed new_auth_config_tree owner api config new-IsWellFormed api-IsHost)
      other-IsHost

abbrev both_hosts : List Bytes
both_hosts = api ∷ other ∷ []

both_hosts-AllHosts : AllHosts both_hosts
both_hosts-AllHosts = (api-IsHost, (other-IsHost, tt))

keys-AllHosts : AllHosts (keys_of owner start.keys)
unfolding keys_of updated append_key new_auth_config_tree bytes_eq
keys-AllHosts = (api-IsHost, tt)

add_to_index-Links_example :
    (l : Linking (AuthConfig ℕ)) × (add_to_index false owner config both_hosts start ≡ found l)
    × Links false owner config both_hosts (unlinked start) l
add_to_index-Links_example =
    add_to_index-Links false owner config both_hosts start start-IsWellFormed both_hosts-AllHosts

reindex-Reindexed_example :
    (l : Linking (AuthConfig ℕ)) × (reindex true owner config (other ∷ []) start ≡ found l)
    × Reindexed owner config (other ∷ []) start l
reindex-Reindexed_example =
    reindex-Reindexed true owner config (other ∷ []) start start-IsWellFormed (other-IsHost, tt)

abbrev resource : V1beta1.AuthConfig Bytes Bool ℕ
resource = record {
  object_meta = true;
  spec = record {
    hosts = both_hosts;
    patterns = [];
    conditions = no_patterns;
    identity = [];
    metadata = [];
    authorization = [];
    response = [];
    callbacks = [];
    deny_with = none;
  };
  status = record {
    conditions = [];
    summary = record {
      ready = false;
      hosts_ready = [];
      num_hosts_ready = [];
      num_identity_sources = pos 0;
      num_metadata_sources = pos 0;
      num_authorization_policies = pos 0;
      num_response_items = pos 0;
      festival_wristband_enabled = false;
    };
  };
}

abbrev running : Reconciler (AuthConfig ℕ)
running = record { index = start; reports = [] }

abbrev is_watched : Bool → Bool
is_watched b = b

abbrev translated : V1beta1.AuthConfig Bytes Bool ℕ → Outcome (AuthConfig ℕ)
translated r = ok config

-- The resource above and another one, both with hosts in their status.
abbrev items : List Listed
items =
    record { id = owner; hosts = api ∷ []; hosts_ready = api ∷ [] }
    ∷ record { id = codes "ns/two"; hosts = other ∷ []; hosts_ready = other ∷ [] }
    ∷ []

items-AllListed : AllListed items
items-AllListed = ((api-IsHost, tt), ((other-IsHost, tt), tt))

-- The reconciler as it starts.
abbrev started : Reconciler (AuthConfig ℕ)
started = record { index = new_auth_config_tree; reports = [] }

no_keys-AllHosts : AllHosts (keys_of owner (new_auth_config_tree {C = AuthConfig ℕ}).keys)
unfolding keys_of new_auth_config_tree
no_keys-AllHosts = tt

reconcile-IsSafe_example : IsSafe env 9 false owner (ok items) started (
    reconcile env.json.of_string 9 false is_watched translated owner
      (ok items)
      (got resource)
      started)
reconcile-IsSafe_example =
    reconcile-IsSafe env 9 false is_watched translated owner (ok items) (got resource) started
      new-IsWellFormed no_keys-AllHosts items-AllListed both_hosts-AllHosts

reconcile-report_of_example :
    (n : Reconciliation (AuthConfig ℕ)) × (l : Linking (AuthConfig ℕ)) × (c : AuthConfigTree
      (AuthConfig ℕ))
    × (failed : Option Bytes) × (reconcile env.json.of_string 9 false is_watched translated owner
          (ok items)
          (got resource)
          running
        ≡ found n)
    × (bootstrap_index env.json.of_string 9 false (ok items) start ≡ found (c, failed))
    × Bootstrapped env 9 start c
    × (n.after.index ≡ l.index)
    × Reindexed owner config both_hosts c l
    × (get_report owner n.after.reports ≡ some (report_of l.linked_hosts l.loose_hosts))
reconcile-report_of_example =
    reconcile-report_of env 9 false is_watched translated owner (ok items) resource config running
      start-IsWellFormed keys-AllHosts items-AllListed both_hosts-AllHosts refl refl

new-empty : empty (new_auth_config_tree {C = AuthConfig ℕ}) ≡ true
unfolding empty new_auth_config_tree
new-empty = refl

bootstrap_index-AllDeny_example :
    (c : AuthConfigTree (AuthConfig ℕ)) × (bootstrap_index env.json.of_string 9 false
        (ok items)
        new_auth_config_tree
      ≡ found (c, none))
    × IsWellFormed c
    × AllDeny env 9 c
    × (serves_ready c items ≡ true)
bootstrap_index-AllDeny_example =
    bootstrap_index-AllDeny env 9 false items new_auth_config_tree new-IsWellFormed new-empty
      items-AllListed

-- A document that is its own value, and expressions that match what begins as they do.
abbrev lib : JsonLib
lib = record {
  get_string = λ json selector. json;
  get_array = λ json selector. json ∷ [];
  compile = λ source. ok (bytes_eq source);
}

abbrev method : Bytes → JsonPatternExpression
method value = record { selector = codes "method"; operator = codes "eq"; value = value }

abbrev none_given : JsonPatternExpression
none_given = record { selector = []; operator = []; value = [] }

abbrev reads : NamedPatterns
reads = (codes "reads", method (codes "GET") ∷ method (codes "HEAD") ∷ []) ∷ []

-- One of the methods of the set, within `any`.
abbrev reading : JsonPatterns
reading =
    pattern_and
      (json_pattern [] none_given no_patterns
        (pattern_and (json_pattern (codes "reads") none_given no_patterns no_patterns) no_patterns))
      no_patterns

matches-build_json_expression_example :
    matches lib (codes "HEAD") (build_json_expression reads reading)
    ≡ all_hold lib (codes "HEAD") reads reading
matches-build_json_expression_example =
    matches-build_json_expression lib (codes "HEAD") reads reading

reading_any : matches lib (codes "HEAD") (build_json_expression reads reading) ≡ ok true
unfolding build_json_expression expressions_of matches all any pattern_matches get_string_key
    bytes_eq is_empty authorino.Jsonexp.from_string
reading_any = refl

abbrev misspelt : JsonPatterns
misspelt = pattern_and (json_pattern (codes "raeds") none_given no_patterns no_patterns) no_patterns

misspelt-IsDangling : IsDangling reads misspelt
unfolding get_string_key bytes_eq is_empty
misspelt-IsDangling = (refl, refl, refl, refl, tt)

dangling-authorized_example :
    json_pattern_matching lib (side (build_json_expression reads misspelt)) (codes "POST") ≡ ok true
dangling-authorized_example =
    dangling-authorized lib (codes "POST") reads misspelt misspelt-IsDangling
