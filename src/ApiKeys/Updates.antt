-- ===== src/ApiKeys/Updates.antt =====
-- What a key finds after a secret is added, changed or revoked.

use authorino.Common.{
  Bytes, bytes_eq, bytes_eq_iff, is_empty, Bool, true, false, Option, none, some, [], ok, ◌≡◌, ap,
  arith, Bool-cases, Option-cases, inl, inr, if◌then◌else◌,
}
use authorino.Evaluators.{StringMap, get_string_key}
use authorino.ApiKeys.{
  api_key_selector, Secret, ApiKey, answer, call, delete_string, append_secret, usable_key,
  is_secret, key_of, new_key, updated_secrets, remaining_secrets, within_scope, add_secret,
  revoke_secret,
}
use authorino.ApiKeys.Store.{
  get_string_key-put_string, get_string_key-delete_string, IsStore, key_of-eq-none, key_of-eq-some,
  get-key_of,
}

-- What is left of a lookup when a secret is revoked.
abbrev pub unless_secret : Bytes → Bytes → Option Secret → Option Secret
unless_secret namespace name none = none
unless_secret namespace name (some s) = if is_secret namespace name s then none else some s

module _ (namespace name : Bytes) (m : StringMap Secret) where
  unless_secret-none :
      (key : Bytes)
      → key_of namespace name m ≡ none
      → unless_secret namespace name (get_string_key key m) ≡ get_string_key key m
  unless_secret-none key e = elim (Option-cases (get_string_key key m)) [
    | inl nothing ↦ rw nothing
    | inr (s, here) ↦ rw here (rw (key_of-eq-none namespace name key m s e here))
  ]

  unless_secret-some :
      (key old : Bytes)
      → IsStore m
      → key_of namespace name m ≡ some old
      → unless_secret namespace name (get_string_key key m)
        ≡ (if bytes_eq old key then none else get_string_key key m)
  unless_secret-some key old w e = elim (Bool-cases (bytes_eq old key)) [
    | inl same ↦
        let (s, here, i, n) = get-key_of namespace name old m w e in
        let k : old ≡ key = (bytes_eq_iff old key).0 same in rw (same, ← k, here, i)
    | inr other ↦ elim (Option-cases (get_string_key key m)) [
      | inl nothing ↦ rw (nothing, other)
      | inr (s, here) ↦ elim (Bool-cases (is_secret namespace name s)) [
        | inl i ↦
            ground
              (arith, key_of-eq-some namespace name key old m s w e here i, bytes_eq_iff old key)
        | inr i ↦ rw (here, other, i)
      ]
    ]
  ]

  get-remaining_secrets :
      (key : Bytes)
      → IsStore m
      → get_string_key key (remaining_secrets namespace name m)
        ≡ unless_secret namespace name (get_string_key key m)
  unfolding remaining_secrets
  get-remaining_secrets key w = elim (Option-cases (key_of namespace name m)) [
    | inl absent ↦ ground (arith, absent, unless_secret-none key absent)
    | inr (old, here) ↦
        ground
          (arith, here, unless_secret-some key old w here, get_string_key-delete_string old key m)
  ]

-- The key is the one that the secret is stored under.
abbrev pub opens : Bytes → Option Bytes → Bool
opens key none = false
opens key (some value) = bytes_eq value key

-- The namespaced name of what is found.
abbrev pub full_name : Option Secret → Option (Bytes × Bytes)
full_name none = none
full_name (some s) = some (s.namespace, s.name)

get-append_secret :
    (new : Secret) (m : StringMap Secret) (key : Bytes)
    → get_string_key key (append_secret new m)
      ≡ (if opens key (usable_key new) then some new else get_string_key key m)
unfolding append_secret
get-append_secret new m key = elim (Option-cases (usable_key new)) [
  | inl unusable ↦ rw (unusable, append_secret)
  | inr (value, usable) ↦ ground (arith, usable, get_string_key-put_string value key new m)
]

-- A key that is not empty and is the new one of a secret is the one that it is stored under.
usable_key-new_key :
    (new : Secret) (old : Bytes)
    → is_empty old ≡ false
    → bytes_eq old (new_key new) ≡ true
    → usable_key new ≡ some old
unfolding usable_key new_key is_empty
usable_key-new_key new old full same =
    elim (Option-cases (get_string_key api_key_selector new.contents)) [
      | inl missing ↦ ground (arith, missing, bytes_eq_iff old [])
      | inr (value, here) ↦ ground (arith, here, bytes_eq_iff old value)
    ]

pub new_key-usable_key :
    (new : Secret) (value : Bytes) → usable_key new ≡ some value → new_key new ≡ value
unfolding usable_key new_key
new_key-usable_key new value e =
    elim (Option-cases (get_string_key api_key_selector new.contents)) [
      | inl missing ↦ ground (arith, missing)
      | inr (v, here) ↦ ground (arith, here)
    ]

module _ (new : Secret) (m : StringMap Secret) (key : Bytes) where
  abbrev expected : Option (Bytes × Bytes)
  expected =
      if opens key (usable_key new)
      then some (new.namespace, new.name)
      else full_name (unless_secret new.namespace new.name (get_string_key key m))

  finds_added :
      key_of new.namespace new.name m ≡ none
      → full_name (get_string_key key (append_secret new m)) ≡ expected
  finds_added absent =
      ground
        (arith, get-append_secret new m key, unless_secret-none new.namespace new.name m key absent)

  finds_unchanged :
      (old : Bytes)
      → IsStore m
      → key_of new.namespace new.name m ≡ some old
      → bytes_eq old (new_key new) ≡ true
      → full_name (get_string_key key m) ≡ expected
  unfolding is_secret
  finds_unchanged old w here same =
      let (s, found_here, i, full) = get-key_of new.namespace new.name old m w here in
      ground (
        arith,
        found_here,
        i,
        usable_key-new_key new old full same,
        unless_secret-some new.namespace new.name m key old w here,
        bytes_eq_iff old key,
        bytes_eq_iff s.namespace new.namespace,
        bytes_eq_iff s.name new.name,
      )

  finds_changed :
      (old : Bytes)
      → IsStore m
      → key_of new.namespace new.name m ≡ some old
      → bytes_eq old (new_key new) ≡ false
      → full_name (get_string_key key (delete_string old (append_secret new m))) ≡ expected
  finds_changed old w here other = elim (Option-cases (usable_key new)) [
    | inl unusable ↦ ground (
      arith,
      unusable,
      get_string_key-delete_string old key (append_secret new m),
      get-append_secret new m key,
      unless_secret-some new.namespace new.name m key old w here,
    )
    | inr (value, usable) ↦ ground (
      arith,
      usable,
      new_key-usable_key new value usable,
      get_string_key-delete_string old key (append_secret new m),
      get-append_secret new m key,
      unless_secret-some new.namespace new.name m key old w here,
      bytes_eq_iff old key,
      bytes_eq_iff value key,
      bytes_eq_iff old value,
    )
  ]

  finds-updated_secrets :
      IsStore m → full_name (get_string_key key (updated_secrets new m)) ≡ expected
  unfolding updated_secrets
  finds-updated_secrets w = elim (Option-cases (key_of new.namespace new.name m)) [
    | inl absent ↦ rw (absent, updated_secrets) (finds_added absent)
    | inr (old, here) ↦ elim (Bool-cases (bytes_eq old (new_key new))) [
      | inl same ↦ rw (here, updated_secrets) (rw same (finds_unchanged old w here same))
      | inr other ↦ rw (here, updated_secrets) (rw other (finds_changed old w here other))
    ]
  ]

module _ {L : Type 0} (a : ApiKey L) where
  -- In the scope of the config, after a secret is revoked a request is answered as before, unless its
  -- key found that secret: then no key is found. Each secret has one key before.
  pub call-revoke_secret :
      (namespace name key : Bytes)
      → IsStore a.secrets
      → within_scope a namespace ≡ true
      → call (revoke_secret namespace name a) (ok key)
        ≡ answer (unless_secret namespace name (get_string_key key a.secrets))
  unfolding call revoke_secret
  call-revoke_secret namespace name key w scope =
      rw scope (ap answer (get-remaining_secrets namespace name a.secrets key w))

  -- In the scope of the config, after a secret is added or changed it is found under its key and
  -- under no other, and under no key if it has none or an empty one. Every other key finds what it
  -- found before. What is found is told by its namespaced name, and each secret has one key before.
  pub get-add_secret :
      (new : Secret) (key : Bytes)
      → IsStore a.secrets
      → within_scope a new.namespace ≡ true
      → full_name (get_string_key key (add_secret new a).secrets) ≡ (
          if opens key (usable_key new)
          then some (new.namespace, new.name)
          else full_name (unless_secret new.namespace new.name (get_string_key key a.secrets)))
  unfolding add_secret
  get-add_secret new key w scope = rw scope (finds-updated_secrets new a.secrets key w)

  -- In the scope of the config, a secret that is found and changes without its key stays in the
  -- cache as it was before, with its old labels: that is what a request with the key is answered.
  pub call-add_secret_stale :
      (new s : Secret) (key : Bytes)
      → IsStore a.secrets
      → within_scope a new.namespace ≡ true
      → get_string_key key a.secrets ≡ some s
      → is_secret new.namespace new.name s ≡ true
      → new_key new ≡ key
      → call (add_secret new a) (ok key) ≡ ok s
  unfolding call add_secret updated_secrets
  call-add_secret_stale new s key w scope here same kept =
      elim (Option-cases (key_of new.namespace new.name a.secrets)) [
        | inl absent ↦
            absurd (cc (key_of-eq-none new.namespace new.name key a.secrets s absent here, same))
        | inr (old, known) ↦
            let e = key_of-eq-some new.namespace new.name key old a.secrets s w known here same in
            ground (arith, known, bytes_eq_iff old (new_key new), e, here)
      ]
