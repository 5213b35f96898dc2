-- ===== src/Jsonexp/Tests.antt =====
-- Expressions of pkg/jsonexp/expressions.go on small inputs.
use authorino.Common.{codes, bytes_eq, true, false, List, [], ◌∷◌, ok, ◌≡◌, refl}
use authorino.Jsonexp.{
  JsonLib, unknown, equal, pattern_matches, Expression, pattern_expression, matches, all, any,
}
use authorino.Jsonexp.Laws.{FirstNot, all_any}

-- A stand-in for gjson and regexp: a selector finds the document, and an array of two items.
abbrev lib : JsonLib
lib = record {
  get_string = λ json selector. json;
  get_array = λ json selector. json ∷ selector ∷ [];
  compile = λ e. ok (bytes_eq e);
}

-- One that holds, one that does not, and one that fails.
abbrev three : List Expression
three =
    pattern_expression (record { selector = []; operator = equal; value = codes "x" })
    ∷ pattern_expression (record { selector = []; operator = equal; value = codes "z" })
    ∷ pattern_expression (record { selector = []; operator = unknown; value = [] })
    ∷ []

all_runs : matches lib (codes "x") (all three) ≡ ok false
unfolding matches all pattern_matches bytes_eq
all_runs = refl

all_any_example :
    FirstNot lib (codes "x") true three (matches lib (codes "x") (all three))
    × FirstNot lib (codes "x") false three (matches lib (codes "x") (any three))
all_any_example = all_any lib (codes "x") three
