-- ===== src/ApiKeys.antt =====
-- pkg/evaluators/identity/api_key.go: the cache of trusted API keys.
-- The map of the source is an association list; its loop that looks for a secret takes the entries
-- in the order of the list. The mutex makes each method one step. The list of secrets of the
-- cluster and the selector of labels are parameters.
pub mod Store
pub mod Updates
pub mod Invariant
mod Tests
use authorino.Common.{
  Bytes, codes, bytes_eq, is_empty, Bool, true, false, ◌&&◌, ◌||◌, Option, none, some, List, [],
  ◌∷◌, Outcome, ok, err, if◌then◌else◌,
}
use authorino.Evaluators.{StringMap, put_string, get_string_key}

-- Of `k8s.Secret`: its namespaced name, its labels, and its data.
pub record Secret : Type 0 where
  pub namespace : Bytes
  pub name : Bytes
  pub labels : StringMap Bytes
  pub contents : StringMap Bytes

-- `APIKey`, without its credentials and its client.
pub record ApiKey (L : Type 0) : Type 0 where
  pub name : Bytes
  pub label_selectors : L
  pub namespace : Bytes
  pub secrets : StringMap Secret

abbrev pub api_key_selector : Bytes
api_key_selector = codes "api_key"

abbrev pub invalid_api_key_msg : Bytes
invalid_api_key_msg = codes "the API Key provided is invalid"

-- `delete(m, k)`
unfoldable pub delete_string : {V : Type 0} → Bytes → StringMap V → StringMap V
delete_string k [] = []
delete_string k ((j, v) ∷ m) =
    let rest = delete_string k m in if bytes_eq j k then rest else (j, v) ∷ rest

-- The key of a secret that `appendK8sSecretBasedIdentity` would store it under.
unfoldable pub usable_key : Secret → Option Bytes
usable_key s = elim (get_string_key api_key_selector s.contents) [
  | none ↦ none
  | some value ↦ if is_empty value then none else some value
]

-- `appendK8sSecretBasedIdentity`
unfoldable pub append_secret : Secret → StringMap Secret → StringMap Secret
unfolding usable_key put_string
append_secret s m = elim (usable_key s) [ none ↦ m | some value ↦ put_string value s m ]

unfoldable pub is_secret : Bytes → Bytes → Secret → Bool
is_secret namespace name s = bytes_eq s.namespace namespace && bytes_eq s.name name

-- The loops over the secrets: the key of the first with the namespaced name.
unfoldable pub key_of : Bytes → Bytes → StringMap Secret → Option Bytes
unfolding is_secret
key_of namespace name [] = none
key_of namespace name ((k, s) ∷ m) =
    if is_secret namespace name s then some k else key_of namespace name m

-- `string(new.Data[apiKeySelector])`
unfoldable pub new_key : Secret → Bytes
new_key s = elim (get_string_key api_key_selector s.contents) [ none ↦ [] | some value ↦ value ]

-- The secrets after `AddK8sSecretBasedIdentity` in the scope.
unfoldable pub updated_secrets : Secret → StringMap Secret → StringMap Secret
unfolding key_of new_key append_secret delete_string
updated_secrets new m = elim (key_of new.namespace new.name m) [
  | none ↦ append_secret new m
  | some old ↦ if bytes_eq old (new_key new) then m else delete_string old (append_secret new m)
]

-- The secrets after `RevokeK8sSecretBasedIdentity` in the scope.
unfoldable pub remaining_secrets : Bytes → Bytes → StringMap Secret → StringMap Secret
unfolding key_of delete_string
remaining_secrets namespace name m = elim (key_of namespace name m) [
  | none ↦ m
  | some key ↦ delete_string key m
]

abbrev pub answer : Option Secret → Outcome Secret
answer none = err invalid_api_key_msg
answer (some s) = ok s

module _ {L : Type 0} where
  unfoldable pub within_scope : ApiKey L → Bytes → Bool
  within_scope a namespace = is_empty a.namespace || bytes_eq a.namespace namespace

  -- The loop of `loadSecrets` over the answer to `List`.
  unfoldable pub load_secrets : List Secret → ApiKey L → ApiKey L
  unfolding append_secret
  load_secrets [] a = a
  load_secrets (s ∷ ss) a = load_secrets ss (record a { secrets = append_secret s a.secrets })

  -- `NewApiKeyIdentity`; an error of `List` is only logged.
  unfoldable pub new_api_key_identity : Bytes → L → Bytes → Outcome (List Secret) → ApiKey L
  unfolding load_secrets
  new_api_key_identity name selectors namespace listed =
      let a : ApiKey L = record {
        name = name;
        label_selectors = selectors;
        namespace = namespace;
        secrets = [];
      } in
      elim listed [ err e ↦ a | ok secrets ↦ load_secrets secrets a ]

  -- `Call`, on the key of the request or the error of its extraction.
  unfoldable pub call : ApiKey L → Outcome Bytes → Outcome Secret
  call a (err e) = err e
  call a (ok key) = answer (get_string_key key a.secrets)

  -- `AddK8sSecretBasedIdentity`
  unfoldable pub add_secret : Secret → ApiKey L → ApiKey L
  unfolding within_scope updated_secrets
  add_secret new a =
      if within_scope a new.namespace
      then record a { secrets = updated_secrets new a.secrets }
      else a

  -- `RevokeK8sSecretBasedIdentity`
  unfoldable pub revoke_secret : Bytes → Bytes → ApiKey L → ApiKey L
  unfolding within_scope remaining_secrets
  revoke_secret namespace name a =
      if within_scope a namespace
      then record a { secrets = remaining_secrets namespace name a.secrets }
      else a
