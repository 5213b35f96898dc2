-- ===== src/Evaluators.antt =====
-- pkg/evaluators: the configs that an auth pipeline evaluates (config.go, identity.go, response.go),
-- and what the pipeline calls of them besides `Call`.
-- A config pointer is a config with its address, by which the maps of the pipeline are keyed. The
-- five kinds of config share their first fields and differ in their settings.
use authorino.Common.{
  ℕ, Bytes, codes, bytes_eq, Bool, true, ◌==◌, Option, none, some, List, [], ◌∷◌, ◌++◌, map,
  Outcome, ok, err, if◌then◌else◌,
}
use authorino.Common.Int.{ℤ}
use authorino.Jsonexp.{JsonLib, Side, nil, side, matches}
use authorino.Json.{JsonEnv, JsonValue, JsonProperty, resolve_for}

pub record Config (X : Type 0) : Type 0 where
  pub pointer : ℕ
  pub name : Bytes
  pub priority : ℤ
  pub conditions : Side
  pub settings : X

-- `IdentityExtension`
pub record IdentityExtension (O : Type 0) : Type 0 where
  pub property : JsonProperty O
  pub overwrite : Bool

-- Of `IdentityConfig`: the key selector of its credentials, and its extended properties.
pub record IdentitySettings (O : Type 0) : Type 0 where
  pub key_selector : Bytes
  pub extended_properties : List (IdentityExtension O)

-- Of `ResponseConfig`: its wrapper, and whether its type is JSON or wristband.
pub record ResponseSettings : Type 0 where
  pub wrapper : Bytes
  pub wrapper_key : Bytes
  pub as_json : Bool

-- `DenyWithValues`
pub record DenyWithValues (O : Type 0) : Type 0 where
  pub code : ℕ
  pub message : Option (JsonValue O)
  pub headers : List (JsonProperty O)
  pub body : Option (JsonValue O)

-- `AuthConfig`
pub record AuthConfig (O : Type 0) : Type 0 where
  pub conditions : Side
  pub identity_configs : List (Config (IdentitySettings O))
  pub metadata_configs : List (Config (Unit {0}))
  pub authorization_configs : List (Config (Unit {0}))
  pub response_configs : List (Config ResponseSettings)
  pub callback_configs : List (Config (Unit {0}))
  pub unauthenticated : Option (DenyWithValues O)
  pub unauthorized : Option (DenyWithValues O)

-- A Go map with string keys.
abbrev pub StringMap : Type 0 → Type 0
StringMap V = List (Bytes × V)

module _ {V : Type 0} where
  unfoldable pub put_string : Bytes → V → StringMap V → StringMap V
  put_string k v [] = (k, v) ∷ []
  put_string k v ((j, w) ∷ m) = if bytes_eq j k then (j, v) ∷ m else (j, w) ∷ put_string k v m

  unfoldable pub get_string_key : Bytes → StringMap V → Option V
  get_string_key k [] = none
  get_string_key k ((j, w) ∷ m) = if bytes_eq j k then some w else get_string_key k m

  -- `m[conf] = v` on a map whose keys are pointers to configs.
  unfoldable pub put_config :
      {X : Type 0} → Config X → V → List (Config X × V) → List (Config X × V)
  put_config c v [] = (c, v) ∷ []
  put_config c v ((d, w) ∷ m) =
      if d.pointer == c.pointer then (c, v) ∷ m else (d, w) ∷ put_config c v m

challenge_header : {O : Type 0} → Config (IdentitySettings O) → StringMap Bytes
challenge_header c =
    (
      codes "WWW-Authenticate",
      c.settings.key_selector ++ (codes " realm=\"" ++ (c.name ++ codes "\"")),
    )
    ∷ []

-- `AuthConfig.GetChallengeHeaders`
unfoldable pub get_challenge_headers : {O : Type 0} → AuthConfig O → List (StringMap Bytes)
unfolding challenge_header
get_challenge_headers config = map challenge_header config.identity_configs

module _ {O : Type 0} (json : JsonEnv O) where
  -- `IdentityExtension.ResolveFor`
  unfoldable pub resolve_extension : IdentityExtension O → StringMap O → Bytes → O
  unfolding get_string_key resolve_for
  resolve_extension i object auth_json = elim (get_string_key i.property.name object) [
    | none ↦ resolve_for json i.property.value auth_json
    | some value ↦ if i.overwrite then resolve_for json i.property.value auth_json else value
  ]

  -- The loop of `ResolveExtendedProperties`.
  unfoldable pub extend_object : List (IdentityExtension O) → Bytes → StringMap O → StringMap O
  unfolding resolve_extension put_string
  extend_object [] auth_json object = object
  extend_object (i ∷ is) auth_json object =
      extend_object is auth_json
        (put_string i.property.name (resolve_extension i object auth_json) object)

-- `JSONPatternMatching.Call`; no rules authorize.
unfoldable pub json_pattern_matching : JsonLib → Side → Bytes → Outcome Bool
json_pattern_matching lib nil json = ok true
json_pattern_matching lib (side rules) json = elim (matches lib json rules) [
  | ok authorized ↦ if authorized then ok true else err (codes "Unauthorized")
  | err e ↦ err e
]

-- `evaluateConditions` of the pipeline: none when the conditions match.
unfoldable pub evaluate_conditions : JsonLib → Side → Bytes → Option Bytes
evaluate_conditions lib nil json = none
evaluate_conditions lib (side e) json = elim (matches lib json e) [
  | ok match ↦ if match then none else some (codes "unmatching conditions for config")
  | err e ↦ some e
]

module _ {O : Type 0} (header_value : Config ResponseSettings → O → Bytes) where
  -- `WrapResponses`, whose `WrapObjectAsHeaderValue` is the parameter.
  unfoldable pub wrap_responses :
      List (Config ResponseSettings × O)
      → StringMap Bytes
      → StringMap O
      → StringMap Bytes × StringMap O
  unfolding put_string
  wrap_responses [] headers metadata = (headers, metadata)
  wrap_responses ((c, o) ∷ m) headers metadata =
      if bytes_eq c.settings.wrapper (codes "httpHeader")
      then wrap_responses m (put_string c.settings.wrapper_key (header_value c o) headers) metadata
      else if bytes_eq c.settings.wrapper (codes "envoyDynamicMetadata")
      then wrap_responses m headers (put_string c.settings.wrapper_key o metadata)
      else wrap_responses m headers metadata
