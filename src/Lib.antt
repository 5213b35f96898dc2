-- ===== src/Lib.antt =====
-- Authorino is an external authorization service. A reconciler fills an index from host names to
-- AuthConfigs; for each request the server looks the host up in the index and evaluates the
-- AuthConfig that it finds as a pipeline of five phases: identity, metadata, authorization, response
-- and callbacks. This library models the resource in its two versions, the
-- reconciler, the index, the pipeline with its concurrency, and the expressions and templates that
-- the pipeline evaluates, and proves what makes them correct.
--
-- Which file models which part:
--   Common: text as lists of bytes with split and join, tests on numbers, Go's `(value, error)`.
--   RadixTree: `treeNode` of pkg/index/index.go, a tree of labels. The pointer to the parent is the
--     list of the nodes that the search has come by. Its children are read as a map from lists of
--     labels in RadixTree/Paths; Lookup, Insert, Overwrite, Shape and Labels say what `get` and `set`
--     do to that map.
--   Index: `authConfigTree` of pkg/index/index.go, the tree with the keys of each id. Index/WellFormed
--     has the invariant, Lookup and Delete the operations. The mutex is left out: each operation
--     holds it for all its body.
--   Jsonexp: pkg/jsonexp/expressions.go, patterns, `And`, `Or`, `All` and `Any`. gjson and regexp are
--     the parameter `JsonLib`.
--   Json: pkg/json/json.go, `JSONValue` and `ReplaceJSONPlaceholders`. gjson is the parameter
--     `JsonEnv`.
--   Evaluators: what the pipeline uses of pkg/evaluators (config.go, identity.go, response.go,
--     identity_extension.go, authorization/json.go).
--   Calls: `Call` of the evaluators that only read the authorization JSON
--     (pkg/evaluators/identity/plain.go and noop.go, response/dynamic_json.go).
--   Priorities: `groupAuthConfigsByPriority` of pkg/service/auth_pipeline.go.
--   Group: `evaluateAuthConfig` and `evaluateAuthConfigs` of the same file, the goroutines of one
--     group of configs and the loop that reads their responses. A run is a list of events, one for
--     each step of a goroutine, of the reader or of the deadline, so a statement on all lists is one
--     on all interleavings. Group/Loop is the loop of a phase over its groups.
--   Pipeline: `AuthPipeline` of the same file. Pipeline/Phases has the five phases, Pipeline/Evaluate
--     has `Evaluate`, and Identity, Authorization, Deadline, Results, Access and Ends what holds of them.
--   Credentials: pkg/auth/credentials.go, where a request carries its credential. The regular
--     expression on the query is a parameter.
--   Service: pkg/service/auth.go, `Check` with the lookup of the host in the index (Service/Lookup) and
--     the responses (Service/Decisions), and the raw HTTP server `ServeHTTP` (Service/Http, Admission).
--
--   Api: the AuthConfig resource in its versions, api/v1beta1/auth_config_types.go (Api/V1beta1) and
--     api/v1beta2/auth_config_types.go (Api/V1beta2), and ConvertTo and ConvertFrom of
--     api/v1beta2/auth_config_conversion.go (Api/Conversion, with a module for each part of the
--     resource; Roundtrip and Dispatch say what the conversion keeps). Label selectors, metadata of
--     objects and times are type parameters; gjson and the encoding of a string are `JsonText`.
--   Controllers: controllers/auth_config_controller.go and status_report.go. Expressions are what
--     conditions and rules become, against their description in Conditions and Rules; Linking is
--     `addToIndex`, with Division, Hosts and Reindexing on what it does to the index of Index; Reconciler is
--     `Reconcile` with `bootstrapIndex`, `denyAll` (pkg/evaluators/deny_all.go) and `Ready`, with
--     Bootstrap, Behind and Safety. The answers of the cluster
--     and the translated config are arguments. Status is auth_config_status_updater.go, with Conditions,
--     Summaries and Updates on what an update leaves and Readiness on its answer; Strings has the
--     sorting and printing that it uses.
--   ApiKeys: pkg/evaluators/identity/api_key.go, the secrets that are trusted as API keys. Store has the
--     lookups, Updates what a key finds after a change, Invariant that each secret has one key.
--
-- Bounds and fuel: the search of the tree runs on fuel, one for each label of the key, and the
-- theorems on the index say that it is enough. `Evaluate` runs on a schedule, the events of each
-- group of each phase; a schedule that leaves a group unfinished gives none, and Pipeline/Ends proves
-- that there are schedules that finish. Priorities are integers without bounds, since the source only
-- compares them. Go's maps are association lists, in the order in which their keys were first set.
--
-- What is not modelled: the other servers (pkg/service/oidc.go, health.go), the mapping of request
-- attributes, the other methods of identity, metadata, authorization and callbacks, whose outcomes are
-- chosen by the schedule, their cache, the translation of a resource to evaluators
-- (`translateAuthConfig`, whose result `Reconcile` takes as an argument), the reconciler of secrets,
-- generated code, and logs, metrics and traces.
-- Of the pipeline, two things are left out: the panic of `ResolveExtendedProperties` on an identity
-- object that is null in JSON, and conditions that are evaluated between the two writes of an identity
-- object that is extended.
pub mod Common
pub mod RadixTree
pub mod Index
pub mod Jsonexp
pub mod Group
pub mod Json
pub mod Priorities
pub mod Evaluators
pub mod Pipeline
pub mod Service
pub mod Credentials
pub mod Calls
pub mod Controllers
pub mod Api
pub mod ApiKeys
