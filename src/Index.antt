-- ===== src/Index.antt =====
-- pkg/index/index.go: `authConfigTree`, the index of AuthConfigs by host name.
-- The AuthConfig is a type `C` here: the index stores it and reads nothing of it. The map `keys`
-- is an association list. The mutex makes each method one step. An outcome other than `found`
-- stands for the panic of the tree's search, or for a model's search short of fuel: neither happens
-- on an index that the methods build.
pub mod Keys
pub mod WellFormed
pub mod Lookup
pub mod Delete
mod Tests
use mathlib.Core.Option
use authorino.Common.{
  Bytes, bytes_eq, Bool, true, false, Option, none, some, List, [], ◌∷◌, ◌++◌, map, if◌then◌else◌,
}
use authorino.RadixTree.{
  Entry, Node, entry_of, new_tree_node, Cursor, Search, found, panic, out_of_fuel, SetResult,
  set_done, already_exists, longest_common_label, revert_key,
}
use authorino.RadixTree
use authorino.RadixTree.Overwrite.{overwritten}

-- `map[string][]string`
abbrev pub KeyMap : Type 0
KeyMap = List (Bytes × List Bytes)

-- `c.keys[id]`; a missing id has no keys.
unfoldable pub keys_of : Bytes → KeyMap → List Bytes
keys_of id [] = []
keys_of id ((k, ks) ∷ m) = if bytes_eq k id then ks else keys_of id m

-- `c.keys[id] = append(c.keys[id], key)`
unfoldable pub append_key : Bytes → Bytes → KeyMap → KeyMap
append_key id key [] = (id, key ∷ []) ∷ []
append_key id key ((k, ks) ∷ m) =
    if bytes_eq k id then (k, ks ++ (key ∷ [])) ∷ m else (k, ks) ∷ append_key id key m

-- `authConfigTree`
pub record AuthConfigTree {ℓ} (C : Type ℓ) : Type ℓ where
  pub root : Node C
  pub keys : KeyMap

infixl 5 ◌>>=◌
abbrev pub ◌>>=◌ {ℓ κ} : {A : Type ℓ} {B : Type κ} → Search A → (A → Search B) → Search B
found a >>= f = f a
panic >>= f = panic
out_of_fuel >>= f = out_of_fuel

-- `newAuthConfigTree`
unfoldable pub new_auth_config_tree {ℓ} : {C : Type ℓ} → AuthConfigTree C
new_auth_config_tree = record { root = new_tree_node []; keys = [] }

module _ {ℓ} {C : Type ℓ} where
  unfoldable pub get : AuthConfigTree C → Bytes → Search (Option C)
  get c key = do
    entry ← RadixTree.get c.root (revert_key key)
    found (Option.map (λ (e : Entry C). e.auth_config) entry)

  -- The id and whether it was found.
  unfoldable pub find_id : AuthConfigTree C → Bytes → Search (Option Bytes)
  find_id c key = do
    entry ← RadixTree.get c.root (revert_key key)
    found (Option.map (λ (e : Entry C). e.id) entry)

  unfoldable pub set_keys :
      AuthConfigTree C → Bytes → Bytes → SetResult (Node C) → SetResult (AuthConfigTree C)
  unfolding append_key
  set_keys c id key (set_done n) = set_done (record { root = n; keys = append_key id key c.keys })
  set_keys c id key (already_exists k) = already_exists k

  -- On an error nothing is written.
  unfoldable pub set :
      AuthConfigTree C → Bytes → Bytes → C → Bool → Search (SetResult (AuthConfigTree C))
  unfolding set_keys
  set c id key config override = do
    let entry : Entry C = record { id = id; auth_config = config }
    result ← RadixTree.set c.root (revert_key key) entry override
    found (set_keys c id key result)

  -- Whether there is an entry and it is the one of `id`.
  abbrev pub owned : Bytes → Option (Entry C) → Bool
  owned id none = false
  owned id (some e) = bytes_eq e.id id

  -- `deleteKey`, behind the search. The tail of the key is not looked at.
  unfoldable pub delete_found : Node C → Bytes → Cursor C → Node C
  unfolding overwritten
  delete_found n id cur = if owned id (entry_of cur.node) then overwritten n cur none else n

  unfoldable pub delete_key : AuthConfigTree C → Bytes → Bytes → Search (AuthConfigTree C)
  unfolding delete_found
  delete_key c id key = do
    cur ← longest_common_label c.root (revert_key key)
    found (record c { root = delete_found c.root id cur })

  unfoldable pub delete_keys : Bytes → List Bytes → AuthConfigTree C → Search (AuthConfigTree C)
  delete_keys id [] c = found c
  delete_keys id (key ∷ ks) c = do c' ← delete_key c id key; delete_keys id ks c'

  -- `Delete`. The keys of the id stay in the map.
  unfoldable pub delete : AuthConfigTree C → Bytes → Search (AuthConfigTree C)
  unfolding delete_keys keys_of
  delete c id = delete_keys id (keys_of id c.keys) c

  unfoldable pub list : AuthConfigTree C → List C
  list c = map (λ (e : Entry C). e.auth_config) (RadixTree.list c.root)

  unfoldable pub empty : AuthConfigTree C → Bool
  empty c = elim c.keys [ [] ↦ true | _ ∷ _ ↦ false ]

  unfoldable pub find_keys : AuthConfigTree C → Bytes → List Bytes
  find_keys c id = keys_of id c.keys
