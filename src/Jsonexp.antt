-- ===== src/Jsonexp.antt =====
-- pkg/jsonexp/expressions.go: patterns on a JSON document and their conjunctions and disjunctions.
-- The packages gjson and regexp are a parameter, `JsonLib`.
pub mod Laws
pub mod Operators
mod Tests
use authorino.Common.{
  Bytes, codes, bytes_eq, Bool, true, false, not, Option, none, some, List, [], ◌∷◌, Outcome, ok,
  err, if◌then◌else◌,
}

-- What the source takes of gjson and regexp: the string of `gjson.Get(json, selector)`, the strings
-- of the items of its array, and a compiled regular expression, or the error of its compilation.
pub record JsonLib : Type 0 where
  pub get_string : Bytes → Bytes → Bytes
  pub get_array : Bytes → Bytes → List Bytes
  pub compile : Bytes → Outcome (Bytes → Bool)

pub data Operator : Type 0 where
  unknown equal not_equal includes excludes regex : Operator

-- `Operator.String`
unfoldable pub to_string : Operator → Bytes
to_string equal = codes "eq"
to_string not_equal = codes "neq"
to_string includes = codes "incl"
to_string excludes = codes "excl"
to_string regex = codes "matches"
to_string unknown = codes "unknown"

-- `OperatorFromString`
unfoldable pub from_string : Bytes → Operator
from_string s =
    if bytes_eq s (codes "eq")
    then equal
    else if bytes_eq s (codes "neq")
    then not_equal
    else if bytes_eq s (codes "incl")
    then includes
    else if bytes_eq s (codes "excl")
    then excludes
    else if bytes_eq s (codes "matches")
    then regex
    else unknown

pub record Pattern : Type 0 where
  pub selector : Bytes
  pub operator : Operator
  pub value : Bytes

-- The loops over `obtainedValue.Array()`.
unfoldable pub includes_item : Bytes → List Bytes → Bool
includes_item expected [] = false
includes_item expected (item ∷ items) =
    if bytes_eq expected item then true else includes_item expected items

unfoldable pub excludes_item : Bytes → List Bytes → Bool
excludes_item expected [] = true
excludes_item expected (item ∷ items) =
    if bytes_eq expected item then false else excludes_item expected items

abbrev pub unsupported : Bytes
unsupported = codes "unsupported operator for json authorization"

regex_matches : Outcome (Bytes → Bool) → Bytes → Outcome Bool
regex_matches (ok re) s = ok (re s)
regex_matches (err e) s = err e

-- `Pattern.Matches`, by its operator.
unfoldable pub pattern_matches : JsonLib → Bytes → Pattern → Outcome Bool
unfolding includes_item excludes_item regex_matches
pattern_matches lib json p = elim p.operator [
  | equal ↦ ok (bytes_eq p.value (lib.get_string json p.selector))
  | not_equal ↦ ok (not (bytes_eq p.value (lib.get_string json p.selector)))
  | includes ↦ ok (includes_item p.value (lib.get_array json p.selector))
  | excludes ↦ ok (excludes_item p.value (lib.get_array json p.selector))
  | regex ↦ regex_matches (lib.compile p.value) (lib.get_string json p.selector)
  | unknown ↦ err unsupported
]

-- `Expression`: a pattern, an `And` or an `Or`, either side of which may be nil.
mutual
  pub data Expression : Type 0 where
    pattern_expression : Pattern → Expression
    and or : Side → Side → Expression

  pub data Side : Type 0 where
    nil : Side
    side : Expression → Side

-- `And.Matches` and `Or.Matches`, by what the sides give.
and_right : Option (Outcome Bool) → Outcome Bool
and_right none = ok true
and_right (some (ok b)) = ok b
and_right (some (err e)) = err e

unfoldable pub and_matches : Option (Outcome Bool) → Option (Outcome Bool) → Outcome Bool
unfolding and_right
and_matches none right = and_right right
and_matches (some (ok true)) right = and_right right
and_matches (some (ok false)) right = ok false
and_matches (some (err e)) right = err e

or_right : Option (Outcome Bool) → Outcome Bool
or_right none = ok false
or_right (some (ok b)) = ok b
or_right (some (err e)) = err e

unfoldable pub or_matches : Option (Outcome Bool) → Option (Outcome Bool) → Outcome Bool
unfolding or_right
or_matches none right = or_right right
or_matches (some (ok true)) right = ok true
or_matches (some (ok false)) right = or_right right
or_matches (some (err e)) right = err e

unfoldable mutual
  unfolding and_matches or_matches

  -- `Expression.Matches`
  pub matches : JsonLib → Bytes → Expression → Outcome Bool
  matches lib json (pattern_expression p) = pattern_matches lib json p
  matches lib json (and left right) =
      and_matches (matches_side lib json left) (matches_side lib json right)
  matches lib json (or left right) =
      or_matches (matches_side lib json left) (matches_side lib json right)

  pub matches_side : JsonLib → Bytes → Side → Option (Outcome Bool)
  matches_side lib json nil = none
  matches_side lib json (side e) = some (matches lib json e)

-- `All`
unfoldable pub all : List Expression → Expression
all [] = and nil nil
all (e ∷ es) = and (side e) (side (all es))

-- `Any`
unfoldable pub any : List Expression → Expression
any [] = or nil nil
any (e ∷ es) = or (side e) (side (any es))
