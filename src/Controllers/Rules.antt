-- ===== src/Controllers/Rules.antt =====
-- The expression that conditions and rules become gives what they say.
use authorino.Common.{
  Bytes, is_empty, Bool, true, false, none, List, [], ◌∷◌, ◌++◌, map, Outcome, ok, err, ◌≡◌, ◌∙◌,
  refl, sym, arith,
}
use authorino.Evaluators.{get_string_key, json_pattern_matching}
use authorino.Jsonexp.{JsonLib, Expression, matches, all, any, and_matches, or_matches, side}
use authorino.Api.V1beta1.Base.{
  JsonPatternExpression, JsonPattern, JsonPatterns, json_pattern, no_patterns, pattern_and,
}
use authorino.Controllers.Expressions.{
  NamedPatterns, build_json_expression_pattern, expressions_to_add, nested, expressions_of,
  expressions_of_pattern, build_json_expression,
}
use authorino.Controllers.Conditions.{
  both, either, matches-all, matches-any, matches-all-append, matches-any-append, every_expression,
  some_expression, all_hold, holds, any_holds, alternative, any_holds_in, all_hold_in,
}

-- A reference to a set of patterns that is not there, with no expression of its own.
abbrev pub IsDangling : NamedPatterns → JsonPatterns → Type 0
IsDangling named no_patterns = Unit
IsDangling named (pattern_and (json_pattern ref e alls anys) ps) =
    (get_string_key ref named ≡ none)
    × (is_empty e.operator ≡ true)
    × (alls ≡ no_patterns)
    × (anys ≡ no_patterns)
    × IsDangling named ps

both-ok : (o : Outcome Bool) → both o (ok true) ≡ o
both-ok (ok true) = refl
both-ok (ok false) = refl
both-ok (err e) = refl

either-ok : (o : Outcome Bool) → either o (ok false) ≡ o
either-ok (ok true) = refl
either-ok (ok false) = refl
either-ok (err e) = refl

module _ (lib : JsonLib) (json : Bytes) where
  all_nil : matches lib json (all []) ≡ ok true
  unfolding all matches and_matches
  all_nil = refl

  any_nil : matches lib json (any []) ≡ ok false
  unfolding any matches or_matches
  any_nil = refl

  all-map :
      (es : List JsonPatternExpression)
      → matches lib json (all (map build_json_expression_pattern es)) ≡ every_expression lib json es
  unfolding every_expression
  all-map [] = all_nil
  all-map (e ∷ es) = rw (
    matches-all lib json (build_json_expression_pattern e) (map build_json_expression_pattern es),
    all-map es,
  )

  any-map :
      (es : List JsonPatternExpression)
      → matches lib json (any (map build_json_expression_pattern es)) ≡ some_expression lib json es
  unfolding some_expression
  any-map [] = any_nil
  any-map (e ∷ es) = rw (
    matches-any lib json (build_json_expression_pattern e) (map build_json_expression_pattern es),
    any-map es,
  )

  all_one : (e : Expression) → matches lib json (all (e ∷ [])) ≡ matches lib json e
  all_one e = matches-all lib json e [] ∙ rw all_nil (both-ok (matches lib json e))

  any_one : (e : Expression) → matches lib json (any (e ∷ [])) ≡ matches lib json e
  any_one e = matches-any lib json e [] ∙ rw any_nil (either-ok (matches lib json e))

  all-nested-all :
      (ps : JsonPatterns) (es : List Expression) (o : Outcome Bool)
      → matches lib json (all es) ≡ o
      → (ps ≡ no_patterns → o ≡ ok true)
      → matches lib json (all (nested all ps es)) ≡ o
  unfolding nested
  all-nested-all no_patterns es o h empty = all_nil ∙ sym (empty refl)
  all-nested-all (pattern_and p ps) es o h empty = all_one (all es) ∙ h

  all-nested-any :
      (ps : JsonPatterns) (es : List Expression) (o : Outcome Bool)
      → matches lib json (any es) ≡ o
      → matches lib json (all (nested any ps es)) ≡ any_holds_in ps o
  unfolding nested any_holds_in
  all-nested-any no_patterns es o h = all_nil
  all-nested-any (pattern_and p ps) es o h = all_one (any es) ∙ h

  any-nested-all :
      (ps : JsonPatterns) (es : List Expression) (o : Outcome Bool)
      → matches lib json (all es) ≡ o
      → matches lib json (any (nested all ps es)) ≡ all_hold_in ps o
  unfolding nested all_hold_in
  any-nested-all no_patterns es o h = any_nil
  any-nested-all (pattern_and p ps) es o h = any_one (all es) ∙ h

  any-nested-any :
      (ps : JsonPatterns) (es : List Expression) (o : Outcome Bool)
      → matches lib json (any es) ≡ o
      → (ps ≡ no_patterns → o ≡ ok false)
      → matches lib json (any (nested any ps es)) ≡ o
  unfolding nested
  any-nested-any no_patterns es o h empty = any_nil ∙ sym (empty refl)
  any-nested-any (pattern_and p ps) es o h empty = any_one (any es) ∙ h

  module _ (named : NamedPatterns) where
    mutual
      unfolding expressions_of all_hold

      all-expressions_of :
          (ps : JsonPatterns)
          → matches lib json (all (expressions_of named ps)) ≡ all_hold lib json named ps
      all-expressions_of no_patterns = all_nil
      all-expressions_of (pattern_and p ps) = rw (
        matches-all-append lib json (expressions_of_pattern named p) (expressions_of named ps),
        all-expressions_of_pattern p,
        all-expressions_of ps,
      )

      all-expressions_of_pattern :
          (p : JsonPattern)
          → matches lib json (all (expressions_of_pattern named p)) ≡ holds lib json named p
      all-expressions_of_pattern (json_pattern ref e alls anys) =
          let own = expressions_to_add named ref e in
          let every = nested all alls (expressions_of named alls) in
          let some_of = nested any anys (expressions_of named anys) in
          rw (
            matches-all-append lib json (map build_json_expression_pattern own) (every ++ some_of),
            matches-all-append lib json every some_of,
            all-map own,
            all-nested-all alls (expressions_of named alls) (all_hold lib json named alls)
                (all-expressions_of alls) (λ q. rw q),
            all-nested-any anys (expressions_of named anys) (any_holds lib json named anys)
                (any-expressions_of anys),
          )

      any-expressions_of :
          (ps : JsonPatterns)
          → matches lib json (any (expressions_of named ps)) ≡ any_holds lib json named ps
      any-expressions_of no_patterns = any_nil
      any-expressions_of (pattern_and p ps) = rw (
        matches-any-append lib json (expressions_of_pattern named p) (expressions_of named ps),
        any-expressions_of_pattern p,
        any-expressions_of ps,
      )

      any-expressions_of_pattern :
          (p : JsonPattern)
          → matches lib json (any (expressions_of_pattern named p)) ≡ alternative lib json named p
      any-expressions_of_pattern (json_pattern ref e alls anys) =
          let own = expressions_to_add named ref e in
          let every = nested all alls (expressions_of named alls) in
          let some_of = nested any anys (expressions_of named anys) in
          rw (
            matches-any-append lib json (map build_json_expression_pattern own) (every ++ some_of),
            matches-any-append lib json every some_of,
            any-map own,
            any-nested-all alls (expressions_of named alls) (all_hold lib json named alls)
                (all-expressions_of alls),
            any-nested-any anys (expressions_of named anys) (any_holds lib json named anys)
                (any-expressions_of anys) (λ q. rw q),
          )

    -- The expression that a list of conditions becomes has the outcome of their description: every
    -- condition has to hold, with the sets of patterns that they name, and the first that does not,
    -- or fails, decides.
    pub matches-build_json_expression :
        (ps : JsonPatterns)
        → matches lib json (build_json_expression named ps) ≡ all_hold lib json named ps
    unfolding build_json_expression
    matches-build_json_expression ps = all-expressions_of ps

    expressions_to_add-eq-nil :
        (ref : Bytes) (e : JsonPatternExpression)
        → get_string_key ref named ≡ none
        → is_empty e.operator ≡ true
        → expressions_to_add named ref e ≡ []
    unfolding expressions_to_add
    expressions_to_add-eq-nil ref e missing none_given = ground arith

    all_hold-IsDangling :
        (ps : JsonPatterns) → IsDangling named ps → all_hold lib json named ps ≡ ok true
    unfolding all_hold
    all_hold-IsDangling no_patterns h = refl
    all_hold-IsDangling (pattern_and (json_pattern ref e alls anys) ps) h =
        rw (expressions_to_add-eq-nil ref e h.0 h.1, h.2, h.3, all_hold-IsDangling ps h.4)

    -- JSON authorization rules that only name sets of patterns which are not there authorize every
    -- request.
    pub dangling-authorized :
        (ps : JsonPatterns)
        → IsDangling named ps
        → json_pattern_matching lib (side (build_json_expression named ps)) json ≡ ok true
    unfolding json_pattern_matching
    dangling-authorized ps h =
        ground (arith, matches-build_json_expression ps, all_hold-IsDangling ps h)
