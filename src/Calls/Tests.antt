-- ===== src/Calls/Tests.antt =====
-- A dynamic JSON response of pkg/evaluators/response/dynamic_json.go.
use authorino.Common.{ℕ, Bytes, codes, [], ◌∷◌, ok, ◌≡◌, refl}
use authorino.Json.{JsonEnv}
use authorino.Calls.{dynamic_json}

abbrev env : JsonEnv ℕ
env = record {
  get_value = λ s p. 5;
  get_string = λ s p. s;
  of_string = λ s. 0;
  stringify = λ o. [];
  modifier_braces = λ p. 0;
}

dynamic_json_runs :
    dynamic_json env
      ((record { name = codes "a"; value = record { static = 1; pattern = [] } })
        ∷ (record { name = codes "b"; value = record { static = 0; pattern = codes "x" } })
        ∷ (record { name = codes "a"; value = record { static = 2; pattern = [] } })
        ∷ [])
      []
    ≡ ok ((codes "a", 2) ∷ (codes "b", 5) ∷ [])
unfolding dynamic_json authorino.Common.bytes_eq authorino.Common.is_empty
dynamic_json_runs = refl
