-- ===== src/Api/Conversion/Maps.antt =====
-- api/v1beta2/auth_config_conversion.go: its loops over maps and over lists.
-- A loop over a map goes over the association list in its order. A loop that puts into a map keeps,
-- of two entries of the same name, the later one.
use authorino.Common.{Bytes, List, [], ◌∷◌}
use authorino.Evaluators.{StringMap, put_string}

module _ {A B : Type 0} where
  -- `for name, x := range m { dst = append(dst, f(name, x)) }`
  unfoldable pub entries_to : (Bytes → A → B) → StringMap A → List B
  entries_to f [] = []
  entries_to f ((name, x) ∷ m) = f name x ∷ entries_to f m

  -- `for _, y := range list { name, x := f(y); dst[name] = x }`
  unfoldable pub entries_from : (B → Bytes × A) → List B → StringMap A → StringMap A
  entries_from f [] m = m
  entries_from f (y ∷ ys) m = entries_from f ys (put_string (f y).0 (f y).1 m)

  -- The values of a map, each converted under its key.
  unfoldable pub map_values : (A → B) → StringMap A → StringMap B
  map_values f [] = []
  map_values f ((name, x) ∷ m) = (name, f x) ∷ map_values f m
