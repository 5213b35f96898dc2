-- ===== src/Jsonexp/Operators.antt =====
-- The operators of pkg/jsonexp/expressions.go: their names, and what a pattern by each decides.
use mathlib.Core.List.{Memᴰ}
use authorino.Common.{
  Bool-cases, inl, inr, ap, Bytes, codes, bytes_eq, bytes_eq_iff, bytes_eq_sound, Bool, true, not,
  List, [], ◌∷◌, ok, ◌≡◌, ◌≢◌, ◌↔◌, refl, arith,
}
use authorino.Jsonexp.{
  JsonLib, Operator, unknown, equal, not_equal, includes, excludes, regex, to_string, from_string,
  includes_item, excludes_item, pattern_matches,
}

from_string-to_string : (o : Operator) → from_string (to_string o) ≡ o
unfolding from_string to_string bytes_eq
from_string-to_string equal = refl
from_string-to_string not_equal = refl
from_string-to_string includes = refl
from_string-to_string excludes = refl
from_string-to_string regex = refl
from_string-to_string unknown = refl

to_string-from_string : (s : Bytes) → from_string s ≢ unknown → to_string (from_string s) ≡ s
unfolding from_string to_string
to_string-from_string s h = ground (
  arith,
  bytes_eq_sound s (codes "eq"),
  bytes_eq_sound s (codes "neq"),
  bytes_eq_sound s (codes "incl"),
  bytes_eq_sound s (codes "excl"),
  bytes_eq_sound s (codes "matches"),
)

-- Reading the name of an operator gives the operator back. And reading any text and naming the
-- result gives the text back, unless the result is the unknown operator.
operator_roundtrip :
    ((o : Operator) → from_string (to_string o) ≡ o)
    × ((s : Bytes) → from_string s ≢ unknown → to_string (from_string s) ≡ s)
operator_roundtrip = (from_string-to_string, to_string-from_string)

excludes-includes :
    (expected : Bytes) (items : List Bytes)
    → excludes_item expected items ≡ not (includes_item expected items)
unfolding excludes_item includes_item
excludes-includes expected [] = refl
excludes-includes expected (item ∷ items) = ground (arith, excludes-includes expected items)

includes_item-mem :
    (expected : Bytes) (items : List Bytes)
    → includes_item expected items ≡ true
    → Memᴰ expected items
unfolding includes_item
includes_item-mem expected [] h = cc
includes_item-mem expected (item ∷ items) h = elim (Bool-cases (bytes_eq expected item)) [
  | inl e ↦ Memᴰ.head (bytes_eq_sound expected item e)
  | inr e ↦ Memᴰ.tail (includes_item-mem expected items (rw e at h))
]

mem-includes_item :
    (expected : Bytes) (items : List Bytes)
    → Memᴰ expected items
    → includes_item expected items ≡ true
unfolding includes_item
mem-includes_item expected [] m = elim m [ ]
mem-includes_item expected (item ∷ items) (Memᴰ.head e) = ground (arith, bytes_eq_iff expected item)
mem-includes_item expected (item ∷ items) (Memᴰ.tail m) =
    ground (arith, mem-includes_item expected items m)

-- A pattern with `incl` and the one with `excl`, on the same selector and value, never fail and
-- decide the opposite: `incl` holds exactly when the value is an item of the selected array.
includes_excludes :
    (lib : JsonLib) (json selector value : Bytes)
    → (b : Bool) × (pattern_matches lib json
          (record { selector = selector; operator = includes; value = value })
        ≡ ok b)
      × (pattern_matches lib json
            (record { selector = selector; operator = excludes; value = value })
          ≡ ok (not b))
      × ((b ≡ true) ↔ Memᴰ value (lib.get_array json selector))
unfolding pattern_matches
includes_excludes lib json selector value =
    let items = lib.get_array json selector in
    (
      includes_item value items,
      refl,
      ap ok (excludes-includes value items),
      (includes_item-mem value items, mem-includes_item value items),
    )
