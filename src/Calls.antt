-- ===== src/Calls.antt =====
-- The evaluators whose `Call` only reads the authorization JSON: pkg/evaluators/identity/plain.go and
-- noop.go, pkg/evaluators/response/dynamic_json.go. The JSON is an argument.
mod Tests
use authorino.Common.{
  Bytes, codes, Bool, true, false, List, [], ◌∷◌, Outcome, ok, err, if◌then◌else◌,
}
use authorino.Json.{JsonEnv, JsonProperty, resolve_for}
use authorino.Evaluators.{StringMap, put_string}

-- `identity.Plain`
pub record Plain : Type 0 where
  pub pattern : Bytes

-- The methods of `Plain` as credentials, which it does not have.
plain_credentials_from_req : Plain → Outcome Bytes
plain_credentials_from_req p = err (codes "not implemented")

plain_credentials_key_selector : Plain → Bytes
plain_credentials_key_selector p = p.pattern

plain_credentials_in : Plain → Bytes
plain_credentials_in p = p.pattern

plain_request_with_credentials : {R : Type 0} → Plain → Outcome R
plain_request_with_credentials p = err (codes "not implemented")

module _ {O : Type 0} (env : JsonEnv O) (nil_object : O) (is_nil : O → Bool) where
  -- `identity.Plain.Call`
  unfoldable pub plain_identity : Plain → Bytes → Outcome O
  unfolding resolve_for
  plain_identity p json =
      let object = resolve_for env (record { static = nil_object; pattern = p.pattern }) json in
      if is_nil object then err (codes "could not retrieve identity object or null") else ok object

-- `anonymousAccess`
pub record AnonymousAccess : Type 0 where
  pub anonymous : Bool

-- `Noop.Call`
unfoldable pub noop : Outcome AnonymousAccess
noop = ok (record { anonymous = true })

module _ {O : Type 0} (env : JsonEnv O) where
  resolve_properties : List (JsonProperty O) → Bytes → StringMap O → StringMap O
  unfolding resolve_for put_string
  resolve_properties [] json obj = obj
  resolve_properties (p ∷ ps) json obj =
      resolve_properties ps json (put_string p.name (resolve_for env p.value json) obj)

  -- `DynamicJSON.Call`
  unfoldable pub dynamic_json : List (JsonProperty O) → Bytes → Outcome (StringMap O)
  unfolding resolve_properties
  dynamic_json properties json = ok (resolve_properties properties json [])
