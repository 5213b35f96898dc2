-- ===== src/Controllers/Strings.antt =====
-- Strings as controllers/auth_config_status_updater.go uses them: `sort.Strings`, a number in
-- decimal, and `CapitalizeString` of pkg/utils/utils.go.
use authorino.Common.{
  ℕ, zero, suc, ◌+◌, Bytes, bytes_eq, Bool, true, false, ◌||◌, ◌==◌, List, [], ◌∷◌, length, ltb,
  ◌≡◌, refl, ap, ◌∙◌, arith, Bool-cases, inl, inr, if◌then◌else◌,
}
use authorino.Controllers.Linking.{slice_contains, subtract_slice}

-- The order of bytes.
unfoldable pub bytes_leb : Bytes → Bytes → Bool
bytes_leb [] ys = true
bytes_leb (x ∷ xs) [] = false
bytes_leb (x ∷ xs) (y ∷ ys) =
    let rest = bytes_leb xs ys in if ltb x y then true else if x == y then rest else false

unfoldable pub insert_string : Bytes → List Bytes → List Bytes
insert_string s [] = s ∷ []
insert_string s (t ∷ ts) =
    let rest = insert_string s ts in if bytes_leb s t then s ∷ t ∷ ts else t ∷ rest

-- `sort.Strings`
unfoldable pub sort_strings : List Bytes → List Bytes
unfolding insert_string
sort_strings [] = []
sort_strings (s ∷ ss) = insert_string s (sort_strings ss)

-- One more, on digits from the last to the first.
unfoldable increment : List ℕ → List ℕ
increment [] = 1 ∷ []
increment (d ∷ ds) = let rest = increment ds in if d == 9 then 0 ∷ rest else suc d ∷ ds

unfoldable digits : ℕ → List ℕ
unfolding increment
digits zero = 0 ∷ []
digits (suc n) = increment (digits n)

unfoldable printed : List ℕ → Bytes → Bytes
printed [] s = s
printed (d ∷ ds) s = printed ds ((48 + d) ∷ s)

-- `%d` of `Sprintf`
unfoldable pub decimal : ℕ → Bytes
unfolding digits printed
decimal n = printed (digits n) []

-- The conversions between strings and runes, and `unicode.ToUpper`.
pub record Unicode : Type 0 where
  pub runes : Bytes → List ℕ
  pub text : List ℕ → Bytes
  pub to_upper : ℕ → ℕ

unfoldable pub upper_first : Unicode → List ℕ → List ℕ
upper_first u [] = []
upper_first u (r ∷ rs) = u.to_upper r ∷ rs

-- `CapitalizeString`; a string that is not empty has a rune.
unfoldable pub capitalize_string : Unicode → Bytes → Bytes
unfolding upper_first
capitalize_string u [] = []
capitalize_string u (c ∷ s) = u.text (upper_first u (u.runes (c ∷ s)))

-- The string is at most the first of the list.
abbrev IsBefore : Bytes → List Bytes → Type 0
IsBefore s [] = Unit
IsBefore s (t ∷ ts) = bytes_leb s t ≡ true

abbrev IsSorted : List Bytes → Type 0
IsSorted [] = Unit
IsSorted (s ∷ ts) = IsBefore s ts × IsSorted ts

bytes_leb_total : (a b : Bytes) → bytes_leb a b ≡ false → bytes_leb b a ≡ true
unfolding bytes_leb
bytes_leb_total [] b h = ground (arith, h)
bytes_leb_total (x ∷ xs) [] h = refl
bytes_leb_total (x ∷ xs) (y ∷ ys) h = ground (arith, bytes_leb_total xs ys)

insert_string-IsBefore :
    (s t : Bytes) (ts : List Bytes)
    → bytes_leb t s ≡ true
    → IsBefore t ts
    → IsBefore t (insert_string s ts)
unfolding insert_string
insert_string-IsBefore s t [] h w = h
insert_string-IsBefore s t (u ∷ us) h w = elim (Bool-cases (bytes_leb s u)) [
  | inl k ↦ rw k h
  | inr k ↦ rw k w
]

insert_string-IsSorted : (s : Bytes) (ts : List Bytes) → IsSorted ts → IsSorted (insert_string s ts)
unfolding insert_string
insert_string-IsSorted s [] w = (tt, tt)
insert_string-IsSorted s (t ∷ ts) w = elim (Bool-cases (bytes_leb s t)) [
  | inl h ↦ rw h (h, w)
  | inr h ↦
      rw h
        (insert_string-IsBefore s t ts (bytes_leb_total s t h) w.0, insert_string-IsSorted s ts w.1)
]

sort_strings-IsSorted : (ss : List Bytes) → IsSorted (sort_strings ss)
unfolding sort_strings
sort_strings-IsSorted [] = tt
sort_strings-IsSorted (s ∷ ss) =
    insert_string-IsSorted s (sort_strings ss) (sort_strings-IsSorted ss)

sort_strings_sorted : (ss : List Bytes) → IsSorted ss → sort_strings ss ≡ ss
unfolding sort_strings insert_string
sort_strings_sorted [] w = refl
sort_strings_sorted (s ∷ []) w = refl
sort_strings_sorted (s ∷ t ∷ ts) w =
    ap (insert_string s) (sort_strings_sorted (t ∷ ts) w.1) ∙ rw w.0 refl

pub sort_strings_twice : (ss : List Bytes) → sort_strings (sort_strings ss) ≡ sort_strings ss
sort_strings_twice ss = sort_strings_sorted (sort_strings ss) (sort_strings-IsSorted ss)

length-insert_string : (s : Bytes) (ts : List Bytes) → length (insert_string s ts) ≡ suc (length ts)
unfolding insert_string
length-insert_string s [] = refl
length-insert_string s (t ∷ ts) = ground (arith, length-insert_string s ts)

pub length-sort_strings : (ss : List Bytes) → length (sort_strings ss) ≡ length ss
unfolding sort_strings
length-sort_strings [] = refl
length-sort_strings (s ∷ ss) =
    length-insert_string s (sort_strings ss) ∙ ap suc (length-sort_strings ss)

slice_contains-insert_string :
    (s v : Bytes) (ts : List Bytes)
    → slice_contains (insert_string s ts) v ≡ (bytes_eq s v || slice_contains ts v)
unfolding insert_string slice_contains
slice_contains-insert_string s v [] = ground arith
slice_contains-insert_string s v (t ∷ ts) = ground (arith, slice_contains-insert_string s v ts)

slice_contains-sort_strings :
    (v : Bytes) (ss : List Bytes) → slice_contains (sort_strings ss) v ≡ slice_contains ss v
unfolding sort_strings slice_contains
slice_contains-sort_strings v [] = refl
slice_contains-sort_strings v (s ∷ ss) =
    ground
      (arith, slice_contains-insert_string s v (sort_strings ss), slice_contains-sort_strings v ss)

pub subtract_slice-sort_strings :
    (hosts ss : List Bytes) → subtract_slice hosts (sort_strings ss) ≡ subtract_slice hosts ss
unfolding subtract_slice
subtract_slice-sort_strings [] ss = refl
subtract_slice-sort_strings (h ∷ hosts) ss =
    rw (slice_contains-sort_strings h ss, subtract_slice-sort_strings hosts ss) refl
