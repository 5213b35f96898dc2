-- ===== src/ApiKeys/Store.antt =====
-- The map of secrets by their keys.
use authorino.Common.{
  Bytes, bytes_eq, bytes_eq_iff, is_empty, Bool, true, false, none, some, [], ◌∷◌, ◌≡◌, refl, arith,
  Bool-cases, inl, inr, if◌then◌else◌,
}
use authorino.Evaluators.{StringMap, put_string, get_string_key}
use authorino.ApiKeys.{Secret, delete_string, is_secret, key_of}

module _ {V : Type 0} where
  pub get_string_key-put_string :
      (k j : Bytes) (v : V) (m : StringMap V)
      → get_string_key j (put_string k v m) ≡ (if bytes_eq k j then some v else get_string_key j m)
  unfolding get_string_key put_string
  get_string_key-put_string k j v [] = refl
  get_string_key-put_string k j v ((i, w) ∷ m) = ground (
    arith,
    get_string_key-put_string k j v m,
    bytes_eq_iff i k,
    bytes_eq_iff i j,
    bytes_eq_iff k j,
  )

  pub get_string_key-delete_string :
      (k j : Bytes) (m : StringMap V)
      → get_string_key j (delete_string k m) ≡ (if bytes_eq k j then none else get_string_key j m)
  unfolding get_string_key delete_string
  get_string_key-delete_string k j [] = ground arith
  get_string_key-delete_string k j ((i, w) ∷ m) = ground (
    arith,
    get_string_key-delete_string k j m,
    bytes_eq_iff i k,
    bytes_eq_iff i j,
    bytes_eq_iff k j,
  )

  -- The map has the key.
  abbrev pub has_key : Bytes → StringMap V → Bool
  has_key k [] = false
  has_key k ((j, v) ∷ m) = if bytes_eq j k then true else has_key k m

-- Each secret has one key, which is not empty, and each key one secret.
abbrev pub IsStore : StringMap Secret → Type 0
IsStore [] = Unit
IsStore ((k, s) ∷ m) =
    (is_empty k ≡ false)
    × (get_string_key k m ≡ none)
    × (key_of s.namespace s.name m ≡ none)
    × IsStore m

pub same-is_secret :
    (namespace name : Bytes) (s : Secret)
    → is_secret namespace name s ≡ true
    → (s.namespace ≡ namespace) × (s.name ≡ name)
unfolding is_secret
same-is_secret namespace name s h =
    ground (arith, bytes_eq_iff s.namespace namespace, bytes_eq_iff s.name name)

-- No key finds a secret that has none.
pub key_of-eq-none :
    (namespace name k : Bytes) (m : StringMap Secret) (s : Secret)
    → key_of namespace name m ≡ none
    → get_string_key k m ≡ some s
    → is_secret namespace name s ≡ false
unfolding key_of get_string_key
key_of-eq-none namespace name k [] s e h = cc
key_of-eq-none namespace name k ((j, t) ∷ m) s e h =
    ground (arith, key_of-eq-none namespace name k m s)

-- Only its key finds a secret.
pub key_of-eq-some :
    (namespace name k old : Bytes) (m : StringMap Secret) (s : Secret)
    → IsStore m
    → key_of namespace name m ≡ some old
    → get_string_key k m ≡ some s
    → is_secret namespace name s ≡ true
    → k ≡ old
unfolding key_of get_string_key
key_of-eq-some namespace name k old [] s w e h i = cc
key_of-eq-some namespace name k old ((j, t) ∷ m) s w e h i =
    elim (Bool-cases (is_secret namespace name t)) [
      | inl here ↦
          let same = same-is_secret namespace name t here in
          ground (arith, bytes_eq_iff j k, key_of-eq-none t.namespace t.name k m s, same.0, same.1)
      | inr other ↦ ground (arith, bytes_eq_iff j k, key_of-eq-some namespace name k old m s)
    ]

pub get-key_of :
    (namespace name old : Bytes) (m : StringMap Secret)
    → IsStore m
    → key_of namespace name m ≡ some old
    → (s : Secret) × (get_string_key old m ≡ some s)
      × (is_secret namespace name s ≡ true)
      × (is_empty old ≡ false)
unfolding key_of get_string_key
get-key_of namespace name old [] w e = absurd (cc)
get-key_of namespace name old ((j, t) ∷ m) w e = elim (Bool-cases (is_secret namespace name t)) [
  | inl here ↦ (t, ground (arith, bytes_eq_iff j old), here, ground arith)
  | inr other ↦
      let (s, found_here, i, n) = get-key_of namespace name old m w.3 (ground arith) in
      (s, ground (arith, bytes_eq_iff j old), i, n)
]
