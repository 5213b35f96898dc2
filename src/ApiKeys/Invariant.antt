-- ===== src/ApiKeys/Invariant.antt =====
-- Each secret has one key, and no other secret has it.
use authorino.Common.{
  Bytes, bytes_eq, bytes_eq_iff, is_empty, false, none, some, List, [], ◌∷◌, ◌≡◌, refl, arith,
  Bool-cases, Option-cases, inl, inr,
}
use authorino.Evaluators.{StringMap, put_string, get_string_key}
use authorino.ApiKeys.{
  Secret, ApiKey, delete_string, append_secret, usable_key, is_secret, key_of, new_key,
  updated_secrets, remaining_secrets, within_scope, add_secret, revoke_secret,
}
use authorino.ApiKeys.Store.{
  get_string_key-put_string, get_string_key-delete_string, IsStore, get-key_of, same-is_secret,
}
use authorino.ApiKeys.Updates.{new_key-usable_key}

key_of-delete_string :
    (namespace name k : Bytes) (m : StringMap Secret)
    → key_of namespace name m ≡ none
    → key_of namespace name (delete_string k m) ≡ none
unfolding key_of delete_string
key_of-delete_string namespace name k [] e = refl
key_of-delete_string namespace name k ((j, t) ∷ m) e =
    ground (arith, key_of-delete_string namespace name k m)

delete_string-IsStore : (k : Bytes) (m : StringMap Secret) → IsStore m → IsStore (delete_string k m)
unfolding delete_string
delete_string-IsStore k [] w = tt
delete_string-IsStore k ((j, t) ∷ m) w = elim (Bool-cases (bytes_eq j k)) [
  | inl gone ↦ rw gone (delete_string-IsStore k m w.3)
  | inr kept ↦ rw kept (
    w.0,
    ground (arith, get_string_key-delete_string k j m, w.1),
    key_of-delete_string t.namespace t.name k m w.2,
    delete_string-IsStore k m w.3,
  )
]

key_of-put_string :
    (namespace name k : Bytes) (s : Secret) (m : StringMap Secret)
    → key_of namespace name m ≡ none
    → is_secret namespace name s ≡ false
    → key_of namespace name (put_string k s m) ≡ none
unfolding key_of put_string
key_of-put_string namespace name k s [] e other = rw other
key_of-put_string namespace name k s ((j, t) ∷ m) e other =
    ground (arith, key_of-put_string namespace name k s m)

is_secret_sym :
    (s t : Secret) → is_secret s.namespace s.name t ≡ false → is_secret t.namespace t.name s ≡ false
unfolding is_secret
is_secret_sym s t other = ground (
  arith,
  bytes_eq_iff s.namespace t.namespace,
  bytes_eq_iff t.namespace s.namespace,
  bytes_eq_iff s.name t.name,
  bytes_eq_iff t.name s.name,
)

put_string-IsStore :
    (k : Bytes) (s : Secret) (m : StringMap Secret)
    → is_empty k ≡ false
    → key_of s.namespace s.name m ≡ none
    → IsStore m
    → IsStore (put_string k s m)
unfolding put_string
put_string-IsStore k s [] full new w = unfold get_string_key key_of in (full, refl, refl, tt)
put_string-IsStore k s ((j, t) ∷ m) full new w =
    let other : is_secret s.namespace s.name t ≡ false = unfold key_of in ground arith in
    let rest : key_of s.namespace s.name m ≡ none = unfold key_of in ground arith in
    elim (Bool-cases (bytes_eq j k)) [
      | inl same ↦ rw same (w.0, w.1, rest, w.3)
      | inr differs ↦ rw differs (
        w.0,
        ground (arith, get_string_key-put_string k j s m, w.1, bytes_eq_iff k j, bytes_eq_iff j k),
        key_of-put_string t.namespace t.name k s m w.2 (is_secret_sym s t other),
        put_string-IsStore k s m full rest w.3,
      )
    ]

-- Without its key a secret has none.
key_of-delete_string_self :
    (namespace name old : Bytes) (m : StringMap Secret)
    → IsStore m
    → key_of namespace name m ≡ some old
    → key_of namespace name (delete_string old m) ≡ none
unfolding key_of delete_string
key_of-delete_string_self namespace name old [] w e = refl
key_of-delete_string_self namespace name old ((j, t) ∷ m) w e =
    elim (Bool-cases (is_secret namespace name t)) [
      | inl here ↦
          let same = same-is_secret namespace name t here in
          ground (
            arith,
            same.0,
            same.1,
            bytes_eq_iff j old,
            key_of-delete_string t.namespace t.name old m w.2,
          )
      | inr other ↦
          let later : key_of namespace name m ≡ some old = ground arith in
          let (s, found_here, i, full) = get-key_of namespace name old m w.3 later in
          ground (
            arith,
            other,
            bytes_eq_iff j old,
            found_here,
            key_of-delete_string_self namespace name old m w.3 later,
          )
    ]

delete_string-put_string :
    (old k : Bytes) (s : Secret) (m : StringMap Secret)
    → bytes_eq old k ≡ false
    → delete_string old (put_string k s m) ≡ put_string k s (delete_string old m)
unfolding delete_string put_string
delete_string-put_string old k s [] h = ground (arith, bytes_eq_iff k old, bytes_eq_iff old k)
delete_string-put_string old k s ((j, t) ∷ m) h = ground (
  arith,
  delete_string-put_string old k s m h,
  bytes_eq_iff k old,
  bytes_eq_iff old k,
  bytes_eq_iff j k,
  bytes_eq_iff j old,
)

usable_key-full : (s : Secret) (value : Bytes) → usable_key s ≡ some value → is_empty value ≡ false
unfolding usable_key
usable_key-full s value e = ground arith

append_secret-IsStore :
    (s : Secret) (m : StringMap Secret)
    → key_of s.namespace s.name m ≡ none
    → IsStore m
    → IsStore (append_secret s m)
unfolding append_secret
append_secret-IsStore s m new w = elim (Option-cases (usable_key s)) [
  | inl unusable ↦ rw (unusable, append_secret) w
  | inr (value, usable) ↦
      rw (usable, append_secret)
        (put_string-IsStore value s m (usable_key-full s value usable) new w)
]

changed-IsStore :
    (new : Secret) (m : StringMap Secret) (old : Bytes)
    → IsStore m
    → key_of new.namespace new.name m ≡ some old
    → bytes_eq old (new_key new) ≡ false
    → IsStore (delete_string old (append_secret new m))
unfolding append_secret
changed-IsStore new m old w here other = elim (Option-cases (usable_key new)) [
  | inl unusable ↦ rw (unusable, append_secret) (delete_string-IsStore old m w)
  | inr (value, usable) ↦
      let differs : bytes_eq old value ≡ false = rw (← new_key-usable_key new value usable) other in
      rw (usable, append_secret)
        (rw (delete_string-put_string old value new m differs) (
          put_string-IsStore value new (delete_string old m) (usable_key-full new value usable)
            (key_of-delete_string_self new.namespace new.name old m w here)
            (delete_string-IsStore old m w)))
]

updated_secrets-IsStore :
    (new : Secret) (m : StringMap Secret) → IsStore m → IsStore (updated_secrets new m)
unfolding updated_secrets
updated_secrets-IsStore new m w = elim (Option-cases (key_of new.namespace new.name m)) [
  | inl absent ↦ rw (absent, updated_secrets) (append_secret-IsStore new m absent w)
  | inr (old, here) ↦ elim (Bool-cases (bytes_eq old (new_key new))) [
    | inl same ↦ rw (here, updated_secrets) (rw same w)
    | inr other ↦ rw (here, updated_secrets) (rw other (changed-IsStore new m old w here other))
  ]
]

remaining_secrets-IsStore :
    (namespace name : Bytes) (m : StringMap Secret)
    → IsStore m
    → IsStore (remaining_secrets namespace name m)
unfolding remaining_secrets
remaining_secrets-IsStore namespace name m w = elim (Option-cases (key_of namespace name m)) [
  | inl absent ↦ rw (absent, remaining_secrets) w
  | inr (old, here) ↦ rw (here, remaining_secrets) (delete_string-IsStore old m w)
]

-- A secret that is added, changed or revoked.
pub data Change : Type 0 where
  add : Secret → Change
  revoke : Bytes → Bytes → Change

module _ {L : Type 0} where
  abbrev pub changed : Change → ApiKey L → ApiKey L
  changed (add s) a = add_secret s a
  changed (revoke namespace name) a = revoke_secret namespace name a

  abbrev pub changed_by : List Change → ApiKey L → ApiKey L
  changed_by [] a = a
  changed_by (x ∷ xs) a = changed_by xs (changed x a)

  changed-IsStore_one :
      (x : Change) (a : ApiKey L) → IsStore a.secrets → IsStore (changed x a).secrets
  unfolding add_secret revoke_secret
  changed-IsStore_one (add s) a w = elim (Bool-cases (within_scope a s.namespace)) [
    | inl scope ↦ rw scope (updated_secrets-IsStore s a.secrets w)
    | inr scope ↦ rw scope w
  ]
  changed-IsStore_one (revoke namespace name) a w = elim (Bool-cases (within_scope a namespace)) [
    | inl scope ↦ rw scope (remaining_secrets-IsStore namespace name a.secrets w)
    | inr scope ↦ rw scope w
  ]

  -- If in a cache of API keys no key is empty, each key has one secret and each secret has one key,
  -- then so it is after any sequence of secrets that are added, changed and revoked.
  pub changed_by-IsStore :
      (xs : List Change) (a : ApiKey L) → IsStore a.secrets → IsStore (changed_by xs a).secrets
  changed_by-IsStore [] a w = w
  changed_by-IsStore (x ∷ xs) a w = changed_by-IsStore xs (changed x a) (changed-IsStore_one x a w)
