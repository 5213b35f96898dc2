-- ===== src/ApiKeys/Tests.antt =====
-- A cache with two API keys.

use authorino.Common.{
  Bytes, codes, bytes_eq, is_empty, true, some, [], ◌∷◌, ok, err, ◌≡◌, refl, if◌then◌else◌,
}
use authorino.Evaluators.{put_string, get_string_key}
use authorino.ApiKeys.{
  Secret, ApiKey, answer, call, usable_key, is_secret, key_of, new_key, within_scope, add_secret,
  revoke_secret, new_api_key_identity,
}
use authorino.ApiKeys.Store.{IsStore}
use authorino.ApiKeys.Updates.{
  opens, full_name, unless_secret, call-revoke_secret, get-add_secret, call-add_secret_stale,
}
use authorino.ApiKeys.Invariant.{add, revoke, changed_by, changed_by-IsStore}

abbrev secret : Bytes → Bytes → Secret
secret name key = record {
  namespace = codes "ns";
  name = name;
  labels = [];
  contents = (codes "api_key", key) ∷ [];
}

abbrev alice : Secret
alice = secret (codes "alice") (codes "k1")

abbrev bob : Secret
bob = secret (codes "bob") (codes "k2")

abbrev keys : ApiKey Bytes
keys = record {
  name = codes "friends";
  label_selectors = codes "group=friends";
  namespace = codes "ns";
  secrets = (codes "k1", alice) ∷ (codes "k2", bob) ∷ [];
}

keys-loaded :
    new_api_key_identity
      (codes "friends")
      (codes "group=friends")
      (codes "ns")
      (ok (alice ∷ bob ∷ []))
    ≡ keys
unfolding new_api_key_identity put_string get_string_key bytes_eq is_empty
keys-loaded = refl

keys-IsStore : IsStore keys.secrets
unfolding get_string_key key_of bytes_eq is_empty
keys-IsStore = (refl, refl, refl, (refl, refl, refl, tt))

keys_scope : within_scope keys (codes "ns") ≡ true
unfolding within_scope bytes_eq is_empty
keys_scope = refl

call-revoke_secret_example :
    call (revoke_secret (codes "ns") (codes "alice") keys) (ok (codes "k1"))
    ≡ answer (unless_secret (codes "ns") (codes "alice") (get_string_key (codes "k1") keys.secrets))
call-revoke_secret_example =
    call-revoke_secret keys (codes "ns") (codes "alice") (codes "k1") keys-IsStore keys_scope

-- Alice with another key.
abbrev alice_again : Secret
alice_again = secret (codes "alice") (codes "k3")

get-add_secret_example :
    full_name (get_string_key (codes "k1") (add_secret alice_again keys).secrets) ≡ (
      if opens (codes "k1") (usable_key alice_again)
      then some (codes "ns", codes "alice")
      else full_name
          (unless_secret (codes "ns") (codes "alice") (get_string_key (codes "k1") keys.secrets)))
get-add_secret_example = get-add_secret keys alice_again (codes "k1") keys-IsStore keys_scope

rotated :
    call (add_secret alice_again keys) (ok (codes "k1"))
    ≡ err (codes "the API Key provided is invalid")
unfolding call add_secret put_string get_string_key bytes_eq is_empty
rotated = refl

-- Alice with another label.
abbrev labelled : Secret
labelled = record alice { labels = (codes "group", codes "former") ∷ [] }

unchanged_key : call (add_secret labelled keys) (ok (codes "k1")) ≡ ok alice
unchanged_key =
    call-add_secret_stale keys labelled alice (codes "k1") keys-IsStore keys_scope first same key
  where
    first : get_string_key (codes "k1") keys.secrets ≡ some alice
    first = unfold get_string_key bytes_eq in refl

    same : is_secret (codes "ns") (codes "alice") alice ≡ true
    same = unfold is_secret bytes_eq in refl

    key : new_key labelled ≡ codes "k1"
    key = unfold new_key get_string_key bytes_eq in refl

changed_by-IsStore_example :
    IsStore (changed_by (add alice_again ∷ revoke (codes "ns") (codes "bob") ∷ []) keys).secrets
changed_by-IsStore_example =
    changed_by-IsStore (add alice_again ∷ revoke (codes "ns") (codes "bob") ∷ []) keys keys-IsStore
