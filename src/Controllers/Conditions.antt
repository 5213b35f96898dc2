-- ===== src/Controllers/Conditions.antt =====
-- The conditions of an AuthConfig, against their description.
use authorino.Common.{
  Bytes, Bool, true, false, List, [], ◌∷◌, ◌++◌, Outcome, ok, err, ◌≡◌, refl, arith,
}
use authorino.Jsonexp.{JsonLib, Expression, matches, all, any, and_matches, or_matches}
use authorino.Api.V1beta1.Base.{
  JsonPatternExpression, JsonPattern, JsonPatterns, json_pattern, no_patterns, pattern_and,
}
use authorino.Controllers.Expressions.{
  NamedPatterns, build_json_expression_pattern, expressions_to_add,
}

-- Until one does not hold, or until one does or fails.
abbrev pub both : Outcome Bool → Outcome Bool → Outcome Bool
both (ok true) o = o
both (ok false) o = ok false
both (err e) o = err e

abbrev pub either : Outcome Bool → Outcome Bool → Outcome Bool
either (ok false) o = o
either (ok true) o = ok true
either (err e) o = err e

-- An empty list `any` asks for nothing, and an empty list `all` offers nothing.
unfoldable pub any_holds_in : JsonPatterns → Outcome Bool → Outcome Bool
any_holds_in no_patterns o = ok true
any_holds_in (pattern_and p ps) o = o

unfoldable pub all_hold_in : JsonPatterns → Outcome Bool → Outcome Bool
all_hold_in no_patterns o = ok false
all_hold_in (pattern_and p ps) o = o

module _ (lib : JsonLib) (json : Bytes) where
  pub matches-all :
      (e : Expression) (es : List Expression)
      → matches lib json (all (e ∷ es)) ≡ both (matches lib json e) (matches lib json (all es))
  unfolding all matches and_matches
  matches-all e es = ground arith

  pub matches-any :
      (e : Expression) (es : List Expression)
      → matches lib json (any (e ∷ es)) ≡ either (matches lib json e) (matches lib json (any es))
  unfolding any matches or_matches
  matches-any e es = ground arith

  pub matches-all-append :
      (es fs : List Expression)
      → matches lib json (all (es ++ fs))
        ≡ both (matches lib json (all es)) (matches lib json (all fs))
  matches-all-append [] fs = unfold all matches and_matches in refl
  matches-all-append (e ∷ es) fs =
      ground (arith, matches-all e es, matches-all e (es ++ fs), matches-all-append es fs)

  pub matches-any-append :
      (es fs : List Expression)
      → matches lib json (any (es ++ fs))
        ≡ either (matches lib json (any es)) (matches lib json (any fs))
  matches-any-append [] fs = unfold any matches or_matches in refl
  matches-any-append (e ∷ es) fs =
      ground (arith, matches-any e es, matches-any e (es ++ fs), matches-any-append es fs)

  -- The expressions of a list, all of them or any of them.
  unfoldable pub every_expression : List JsonPatternExpression → Outcome Bool
  every_expression [] = ok true
  every_expression (e ∷ es) =
      both (matches lib json (build_json_expression_pattern e)) (every_expression es)

  unfoldable pub some_expression : List JsonPatternExpression → Outcome Bool
  some_expression [] = ok false
  some_expression (e ∷ es) =
      either (matches lib json (build_json_expression_pattern e)) (some_expression es)

  module _ (named : NamedPatterns) where
    -- What a list of conditions says, read off the resource. Within `any` the expressions of a named
    -- set, and the parts of one item, are alternatives.
    unfoldable mutual
      unfolding every_expression some_expression any_holds_in all_hold_in

      pub all_hold : JsonPatterns → Outcome Bool
      all_hold no_patterns = ok true
      all_hold (pattern_and p ps) = both (holds p) (all_hold ps)

      pub holds : JsonPattern → Outcome Bool
      holds (json_pattern ref e alls anys) =
          both (every_expression (expressions_to_add named ref e))
            (both (all_hold alls) (any_holds_in anys (any_holds anys)))

      pub any_holds : JsonPatterns → Outcome Bool
      any_holds no_patterns = ok false
      any_holds (pattern_and p ps) = either (alternative p) (any_holds ps)

      pub alternative : JsonPattern → Outcome Bool
      alternative (json_pattern ref e alls anys) =
          either (some_expression (expressions_to_add named ref e))
            (either (all_hold_in alls (all_hold alls)) (any_holds anys))
