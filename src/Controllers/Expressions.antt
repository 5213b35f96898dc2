-- ===== src/Controllers/Expressions.antt =====
-- controllers/auth_config_controller.go: the expressions that conditions and rules become.
use authorino.Common.{Bytes, is_empty, none, some, List, [], ◌∷◌, ◌++◌, map, if◌then◌else◌}
use authorino.Evaluators.{StringMap, get_string_key}
use authorino.Jsonexp.{from_string, Expression, pattern_expression, all, any}
use authorino.Api.V1beta1.Base.{
  JsonPatternExpression, JsonPattern, JsonPatterns, json_pattern, no_patterns, pattern_and,
}

-- `authConfig.Spec.Patterns`
abbrev pub NamedPatterns : Type 0
NamedPatterns = StringMap (List JsonPatternExpression)

unfoldable pub build_json_expression_pattern : JsonPatternExpression → Expression
build_json_expression_pattern e =
    pattern_expression
      (record { selector = e.selector; operator = from_string e.operator; value = e.value })

-- `expressionsToAdd`: the patterns of the name, if there are any of that name, or else the
-- expression, if it has an operator.
unfoldable pub expressions_to_add :
    NamedPatterns → Bytes → JsonPatternExpression → List JsonPatternExpression
expressions_to_add named ref e = elim (get_string_key ref named) [
  | some es ↦ es
  | none ↦ if is_empty e.operator then [] else e ∷ []
]

unfoldable pub build_json_expression_patterns :
    NamedPatterns → Bytes → JsonPatternExpression → List Expression
unfolding build_json_expression_pattern expressions_to_add
build_json_expression_patterns named ref e =
    map build_json_expression_pattern (expressions_to_add named ref e)

-- A list `All` or `Any` adds one expression, unless it is empty.
unfoldable pub nested :
    (List Expression → Expression) → JsonPatterns → List Expression → List Expression
nested op no_patterns es = []
nested op (pattern_and p ps) es = op es ∷ []

-- The loop of `buildJSONExpression`.
unfoldable mutual
  unfolding build_json_expression_patterns nested

  pub expressions_of : NamedPatterns → JsonPatterns → List Expression
  expressions_of named no_patterns = []
  expressions_of named (pattern_and p ps) =
      expressions_of_pattern named p ++ expressions_of named ps

  pub expressions_of_pattern : NamedPatterns → JsonPattern → List Expression
  expressions_of_pattern named (json_pattern ref e alls anys) =
      build_json_expression_patterns named ref e
      ++ (nested all alls (expressions_of named alls)
          ++ nested any anys (expressions_of named anys))

-- `buildJSONExpression` with `jsonexp.All`, as the translation calls it.
unfoldable pub build_json_expression : NamedPatterns → JsonPatterns → Expression
unfolding expressions_of
build_json_expression named patterns = all (expressions_of named patterns)
