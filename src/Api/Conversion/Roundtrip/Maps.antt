-- ===== src/Api/Conversion/Roundtrip/Maps.antt =====
-- The loops of the conversion over maps, one after the other.
use mathlib.Core.List.{append-nil, append_assoc}
use mathlib.Core.Option
use authorino.Common.{
  ℕ, suc, ◌≤◌, Bytes, bytes_eq, Bool, true, false, Option, none, some, List, [], ◌∷◌, ◌++◌, map,
  ◌≡◌, refl, sym, ap,
}
use authorino.Evaluators.{StringMap, put_string}
use authorino.Api.Conversion.Maps.{entries_to, entries_from, map_values}

module _ {A : Type 0} where
  -- The map has no entry under the key.
  abbrev pub Absent : Bytes → StringMap A → Type 0
  Absent k [] = Unit
  Absent k ((j, x) ∷ m) = (bytes_eq k j ≡ false) × Absent k m

  -- No key stands twice.
  abbrev pub DistinctKeys : StringMap A → Type 0
  DistinctKeys [] = Unit
  DistinctKeys ((k, x) ∷ m) = Absent k m × DistinctKeys m

  abbrev pub AllValues : (A → Type 0) → StringMap A → Type 0
  AllValues P [] = Unit
  AllValues P ((k, x) ∷ m) = P x × AllValues P m

  abbrev pub AllOption : (A → Type 0) → Option A → Type 0
  AllOption P none = Unit
  AllOption P (some x) = P x

  abbrev pub AllList : (A → Type 0) → List A → Type 0
  AllList P [] = Unit
  AllList P (x ∷ xs) = P x × AllList P xs

  Absent-append :
      (k j : Bytes) (x : A) (a m : StringMap A) → Absent k (a ++ (j, x) ∷ m) → bytes_eq k j ≡ false
  Absent-append k j x [] m h = h.0
  Absent-append k j x ((i, y) ∷ a) m h = Absent-append k j x a m h.1

  -- A new key goes to the end.
  put_string-eq :
      (k : Bytes) (x : A) (a m : StringMap A)
      → DistinctKeys (a ++ (k, x) ∷ m)
      → put_string k x a ≡ a ++ (k, x) ∷ []
  unfolding put_string
  put_string-eq k x [] m h = refl
  put_string-eq k x ((j, y) ∷ a) m h = rw (Absent-append j k x a m h.0, put_string-eq k x a m h.1)

  entries_from_step :
      {B : Type 0} (f : B → Bytes × A) (y : B) (ys : List B) (a : StringMap A)
      → entries_from f (y ∷ ys) a ≡ entries_from f ys (put_string (f y).0 (f y).1 a)
  unfolding entries_from
  entries_from_step f y ys a = refl

  module _ {B : Type 0} (P : A → Type 0) where
    entries_onto :
        (to : Bytes → A → B) (from : B → Bytes × A)
        → ((k : Bytes) (x : A) → P x → from (to k x) ≡ (k, x))
        → (m a : StringMap A) → AllValues P m
        → DistinctKeys (a ++ m)
        → entries_from from (entries_to to m) a ≡ a ++ m
    unfolding entries_to
    entries_onto to from inverse [] a h d = unfold entries_from in sym (append-nil a)
    entries_onto to from inverse ((k, x) ∷ m) a h d = rw (
      entries_from_step from (to k x) (entries_to to m) a,
      inverse k x h.0,
      put_string-eq k x a m d,
      entries_onto to from inverse m (a ++ (k, x) ∷ []) h.1 (rw (append_assoc a ((k, x) ∷ []) m) d),
      append_assoc a ((k, x) ∷ []) m,
    )

    -- A map becomes a list of its entries, and the list becomes the map.
    pub entries_from-entries_to :
        (to : Bytes → A → B) (from : B → Bytes × A)
        → ((k : Bytes) (x : A) → P x → from (to k x) ≡ (k, x))
        → (m : StringMap A) → DistinctKeys m
        → AllValues P m
        → entries_from from (entries_to to m) [] ≡ m
    entries_from-entries_to to from inverse m d h = entries_onto to from inverse m [] h d

    pub map-map_option :
        (to : A → B) (from : B → A)
        → ((x : A) → P x → from (to x) ≡ x)
        → (o : Option A) → AllOption P o
        → Option.map from (Option.map to o) ≡ o
    map-map_option to from inverse none h = refl
    map-map_option to from inverse (some x) h = ap some (inverse x h)

  module _ {B : Type 0} (to : A → B) (from : B → A) (inverse : (x : A) → from (to x) ≡ x) where
    pub map-map_list : (xs : List A) → map from (map to xs) ≡ xs
    map-map_list [] = refl
    map-map_list (x ∷ xs) = rw (inverse x, map-map_list xs)

    pub map-map_all : (o : Option A) → Option.map from (Option.map to o) ≡ o
    map-map_all none = refl
    map-map_all (some x) = ap some (inverse x)

    pub map_values-map_values : (m : StringMap A) → map_values from (map_values to m) ≡ m
    unfolding map_values
    map_values-map_values [] = refl
    map_values-map_values ((k, x) ∷ m) = rw (inverse x, map_values-map_values m)

-- How many of the tests hold.
abbrev pub trues : List Bool → ℕ
trues [] = 0
trues (true ∷ bs) = suc (trues bs)
trues (false ∷ bs) = trues bs

abbrev pub AtMostOne : List Bool → Type 0
AtMostOne bs = trues bs ≤ 1
