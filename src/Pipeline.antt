-- ===== src/Pipeline.antt =====
-- pkg/service/auth_pipeline.go: `AuthPipeline`, its five phases and `Evaluate`.
-- The state is the five maps of resolved objects. `Evaluate` runs on a schedule: for each group of
-- each phase, the events of Group. A schedule that leaves a group incomplete gives none: the
-- program is still running then. Goroutines that go on after a phase has returned only write to a
-- channel that nobody reads, so they are left out. A map is iterated in the order in which its
-- keys were first set, which is one of the orders that Go may take.
pub mod Phases
pub mod Evaluate
pub mod Identity
pub mod Authorization
pub mod Results
pub mod Access
pub mod Ends
pub mod Fixtures
pub mod Deadline
mod Tests
use authorino.Common.{
  ℕ, zero, suc, length, Bytes, codes, Bool, true, false, ◌==◌, Option, none, some, List, [], ◌∷◌,
  ◌++◌, map, Outcome, ok, err, if◌then◌else◌,
}
use authorino.Jsonexp.{JsonLib, Side}
use authorino.Json.{JsonEnv, JsonValue, JsonProperty, resolve_for}
use authorino.Evaluators.{
  Config, IdentitySettings, ResponseSettings, DenyWithValues, AuthConfig, StringMap, put_config,
  put_string, get_challenge_headers, extend_object, evaluate_conditions, wrap_responses,
}

-- `AuthPipeline`, the maps of resolved objects.
pub record AuthPipeline (O : Type 0) : Type 0 where
  pub identity : List (Config (IdentitySettings O) × O)
  pub metadata : List (Config (Unit {0}) × O)
  pub authorization : List (Config (Unit {0}) × O)
  pub response : List (Config ResponseSettings × O)
  pub callbacks : List (Config (Unit {0}) × O)

-- `authData` of `GetAuthorizationJSON`: without callbacks while there are none.
pub record AuthData (O : Type 0) : Type 0 where
  pub identity : O
  pub metadata : StringMap O
  pub authorization : StringMap O
  pub response : StringMap O
  pub callbacks : Option (StringMap O)

-- What the pipeline takes of other packages, for the type `O` of Go's `interface{}` values: nil,
-- `NewAuthorizationJSON` on the request, an object through JSON to a map, a map as an object, the
-- errors of the identity phase as JSON, and the header value of a response object.
pub record Env (O : Type 0) : Type 0 where
  pub nil_object : O
  pub is_nil : O → Bool
  pub json : JsonEnv O
  pub lib : JsonLib
  pub marshal : AuthData O → Bytes
  pub as_map : O → Outcome (StringMap O)
  pub of_map : StringMap O → O
  pub errors_json : StringMap Bytes → Bytes
  pub header_value : Config ResponseSettings → O → Bytes

-- `rpc.Code`, those that the program uses.
pub data Code : Type 0 where
  rpc_ok unauthenticated permission_denied not_found unavailable : Code

-- `auth.AuthResult`; a status of 0 keeps the default for the code.
pub record AuthResult (O : Type 0) : Type 0 where
  pub code : Code
  pub status : ℕ
  pub message : Bytes
  pub headers : List (StringMap Bytes)
  pub metadata : StringMap O
  pub body : Bytes

module _ {O : Type 0} where
  -- `NewAuthPipeline`
  unfoldable pub new_auth_pipeline : AuthPipeline O
  new_auth_pipeline = record {
    identity = [];
    metadata = [];
    authorization = [];
    response = [];
    callbacks = [];
  }

  -- The objects by the names of their configs, as `GetAuthorizationJSON` collects them.
  by_name : {X : Type 0} → List (Config X × O) → StringMap O → StringMap O
  unfolding put_string
  by_name [] m = m
  by_name ((c, o) ∷ objs) m = by_name objs (put_string c.name o m)

  some_callbacks : StringMap O → Option (StringMap O)
  some_callbacks [] = none
  some_callbacks (c ∷ m) = some (c ∷ m)

module _ {O : Type 0} (env : Env O) where
  resolved : List (Config (IdentitySettings O) × O) → Option (Config (IdentitySettings O) × O)
  resolved [] = none
  resolved ((c, o) ∷ m) = let rest = resolved m in if env.is_nil o then rest else some (c, o)

  -- `GetResolvedIdentity`: the first object that is not nil.
  unfoldable pub get_resolved_identity : AuthPipeline O → Option (Config (IdentitySettings O) × O)
  unfolding resolved
  get_resolved_identity pl = resolved pl.identity

  unfoldable pub resolved_object : AuthPipeline O → O
  unfolding get_resolved_identity
  resolved_object pl = elim (get_resolved_identity pl) [ none ↦ env.nil_object | some (c, o) ↦ o ]

  -- `GetAuthorizationJSON`
  unfoldable pub get_authorization_json : AuthPipeline O → Bytes
  unfolding resolved_object by_name some_callbacks
  get_authorization_json pl = env.marshal (record {
    identity = resolved_object pl;
    metadata = by_name pl.metadata [];
    authorization = by_name pl.authorization [];
    response = by_name pl.response [];
    callbacks = some_callbacks (by_name pl.callbacks []);
  })

  -- `IdentityConfig.ResolveExtendedProperties`. `as_map` gives a map that can be assigned to, or the
  -- error of the conversion: an object that is null in JSON, for which the source has a nil map and
  -- panics at the first property, is outside the model.
  unfoldable pub resolve_extended_properties :
      Config (IdentitySettings O) → AuthPipeline O → Outcome O
  unfolding extend_object
  resolve_extended_properties c pl = elim c.settings.extended_properties [
    | [] ↦ ok (resolved_object pl)
    | i ∷ is ↦ elim (env.as_map (resolved_object pl)) [
      | err e ↦ err e
      | ok object ↦
          ok (env.of_map (extend_object env.json (i ∷ is) (get_authorization_json pl) object))
    ]
  ]

  resolve_text : JsonValue O → Bytes → Bytes
  unfolding resolve_for
  resolve_text v json = env.json.stringify (resolve_for env.json v json)

  deny_headers : List (JsonProperty O) → Bytes → List (StringMap Bytes)
  unfolding resolve_text
  deny_headers [] json = []
  deny_headers (h ∷ headers) json =
      ((h.name, resolve_text h.value json) ∷ []) ∷ deny_headers headers json

  -- The assignments of `customizeDenyWith`, each behind its test.
  deny_values : AuthResult O → DenyWithValues O → Bytes → AuthResult O
  unfolding deny_headers
  deny_values r d json = record r {
    status = if d.code == 0 then r.status else d.code;
    message = elim d.message [ none ↦ r.message | some v ↦ resolve_text v json ];
    headers = elim d.headers [ [] ↦ r.headers | h ∷ hs ↦ deny_headers (h ∷ hs) json ];
    body = elim d.body [ none ↦ r.body | some v ↦ resolve_text v json ];
  }

  -- `customizeDenyWith`
  unfoldable pub customize_deny_with :
      AuthResult O → Option (DenyWithValues O) → AuthPipeline O → AuthResult O
  unfolding deny_values
  customize_deny_with r none pl = r
  customize_deny_with r (some d) pl = deny_values r d (get_authorization_json pl)
