-- ===== src/Pipeline/Fixtures.antt =====
-- Small inputs for the auth pipeline of pkg/service/auth_pipeline.go.
use authorino.Common.{ℕ, codes, bytes_eq, false, none, List, [], ◌∷◌, Outcome, ok}
use authorino.Common.Int.{pos}
use authorino.Jsonexp.{JsonLib, nil}
use authorino.Json.{JsonEnv}
use authorino.Evaluators.{Config, IdentitySettings, AuthConfig}
use authorino.Group.{Event, check, conditions, reply, callback, read}
use authorino.Pipeline.{AuthPipeline, Env, AuthResult}
use authorino.Pipeline.Phases.{Schedule}
use authorino.Pipeline.Evaluate.{initial_result}

-- Stand-ins for the other packages, with numbers for Go's values.
abbrev pub json : JsonEnv ℕ
json = record {
  get_value = λ s p. 0;
  get_string = λ s p. s;
  of_string = λ s. 0;
  stringify = λ o. [];
  modifier_braces = λ p. 0;
}

abbrev pub lib : JsonLib
lib = record { get_string = λ s p. s; get_array = λ s p. s ∷ []; compile = λ e. ok (bytes_eq e) }

abbrev pub env : Env ℕ
env = record {
  nil_object = 0;
  is_nil = λ o. false;
  json = json;
  lib = lib;
  marshal = λ d. [];
  as_map = λ o. ok [];
  of_map = λ m. 0;
  errors_json = λ m. codes "{}";
  header_value = λ c o. [];
}

-- A config with one identity and one policy.
abbrev pub identity : Config (IdentitySettings ℕ)
identity = record {
  pointer = 1;
  name = codes "id";
  priority = pos 0;
  conditions = nil;
  settings = record { key_selector = codes "Bearer"; extended_properties = [] };
}

abbrev pub policy : Config (Unit {0})
policy = record {
  pointer = 2;
  name = codes "opa";
  priority = pos 0;
  conditions = nil;
  settings = tt;
}

abbrev pub config : AuthConfig ℕ
config = record {
  conditions = nil;
  identity_configs = identity ∷ [];
  metadata_configs = [];
  authorization_configs = policy ∷ [];
  response_configs = [];
  callback_configs = [];
  unauthenticated = none;
  unauthorized = none;
}

-- The steps of a group of one config whose `Call` gives an outcome.
abbrev pub called : Outcome ℕ → List (List (Event ℕ))
called o = (check 0 ∷ conditions 0 ∷ reply 0 o ∷ callback 0 ∷ read ∷ []) ∷ []

abbrev pub schedule : Outcome ℕ → Outcome ℕ → Schedule ℕ
schedule who policy_says = record {
  identity = called who;
  metadata = [];
  authorization = called policy_says;
  response = [];
  callbacks = [];
}

abbrev pub granted_end : AuthResult ℕ × AuthPipeline ℕ
granted_end = (
  record initial_result { headers = [] ∷ [] },
  record {
    identity = (identity, 7) ∷ [];
    metadata = [];
    authorization = (policy, 1) ∷ [];
    response = [];
    callbacks = [];
  },
)
