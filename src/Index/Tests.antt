-- ===== src/Index/Tests.antt =====
-- The index of pkg/index/index.go on small inputs.
use authorino.Common.{
  ℕ, Bytes, codes, bytes_eq, labels_eq, is_empty, split, join, true, false, not, ◌&&◌, arith, none,
  some, List, [], ◌∷◌, ◌++◌, ◌<|>◌, ◌≡◌, refl, if◌then◌else◌,
}
use authorino.RadixTree.{
  star, Entry, found, set_done, already_exists, lookup_child, put_child, new_tree_node,
  longest_common_label, climb, get_found, revert_key,
}
use authorino.RadixTree
use authorino.RadixTree.Paths.{entry_at, has_node, descend}
use authorino.RadixTree.Insert.{stored}
use authorino.RadixTree.Lookup.{wildcard_above}
use authorino.Index.{AuthConfigTree, new_auth_config_tree, get, set, delete, delete_key}
use authorino.Index.Keys.{path_of, IsHost}
use authorino.Index.WellFormed.{
  IsWellFormed, new-IsWellFormed, updated, updated-IsWellFormed, set-updated,
}
use authorino.Index.Lookup.{get_lem, set_lem}
use authorino.Index.Delete.{delete_key_lem, delete_lem, delete_key_prefix, unless_owned}
use mathlib.Core.Option

abbrev api : Bytes
api = codes "api.io"

abbrev any : Bytes
any = codes "*.io"

abbrev deep : Bytes
deep = codes "a.api.io"

abbrev owner : Bytes
owner = codes "ns/one"

api-IsHost : IsHost api
unfolding path_of split is_empty
api-IsHost = refl

any-IsHost : IsHost any
unfolding path_of split is_empty
any-IsHost = refl

-- An index with "api.io" at config 1 and "*.io" at config 2.
abbrev empty_index : AuthConfigTree ℕ
empty_index = new_auth_config_tree

abbrev one : AuthConfigTree ℕ
one = updated empty_index owner api 1

abbrev two : AuthConfigTree ℕ
two = updated one (codes "ns/two") any 2

one-IsWellFormed : IsWellFormed one
one-IsWellFormed = updated-IsWellFormed empty_index owner api 1 new-IsWellFormed api-IsHost

two-IsWellFormed : IsWellFormed two
two-IsWellFormed = updated-IsWellFormed one (codes "ns/two") any 2 one-IsWellFormed any-IsHost

-- A name that was set, one that only the wildcard matches, the one that the wildcard is right below,
-- and one that nothing matches.
get_runs :
    (get two api ≡ found (some 1))
    × (get two (codes "x.y.io") ≡ found (some 2))
    × (get two (codes "io") ≡ found (some 2))
    × (get two (codes "x.org") ≡ found none)
unfolding get updated RadixTree.get new_auth_config_tree path_of stored bytes_eq split revert_key
    join is_empty descend lookup_child new_tree_node RadixTree.write_at RadixTree.put_branch
get_runs = (refl, refl, refl, refl)

get_lem_example :
    let at = entry_at two.root in
    get two api
    ≡ found (
        Option.map
          (λ (e : Entry ℕ). e.auth_config)
          (at (path_of api)
            <|> (at (path_of api ++ star ∷ []) <|> wildcard_above at (path_of api))))
get_lem_example = get_lem two api two-IsWellFormed api-IsHost

set_lem_example :
    (c' : AuthConfigTree ℕ) × (set two owner api 5 false
      ≡ found (
          if has_node two.root (path_of api) && not false
          then already_exists (revert_key api)
          else set_done c'))
    × IsWellFormed c'
    × ((q : List Bytes)
        → entry_at c'.root q ≡ (
            if labels_eq (path_of api) q
            then some (record { id = owner; auth_config = 5 })
            else entry_at two.root q))
set_lem_example = set_lem two owner api 5 false two-IsWellFormed api-IsHost

set_runs : set two owner api 5 true ≡ found (set_done (updated two owner api 5))
set_runs = ground (arith, set-updated two owner api 5 true two-IsWellFormed api-IsHost)

api-linked : has_node two.root (path_of api) ≡ true
unfolding authorino.Index.keys_of updated authorino.Index.append_key new_auth_config_tree bytes_eq
api-linked = (two-IsWellFormed.linked owner).0

delete_key_lem_example :
    (c' : AuthConfigTree ℕ) × (delete_key two owner api ≡ found c')
    × IsWellFormed c'
    × (c'.keys ≡ two.keys)
    × ((q : List Bytes)
        → entry_at c'.root q ≡ (
            if labels_eq (path_of api) q
            then unless_owned owner (entry_at two.root q)
            else entry_at two.root q))
delete_key_lem_example = delete_key_lem two owner api two-IsWellFormed api-linked

delete_lem_example :
    (c' : AuthConfigTree ℕ) × (delete two owner ≡ found c')
    × IsWellFormed c'
    × (c'.keys ≡ two.keys)
    × ((q : List Bytes) → entry_at c'.root q ≡ unless_owned owner (entry_at two.root q))
delete_lem_example = delete_lem two owner two-IsWellFormed

delete_key_prefix_example :
    (c' : AuthConfigTree ℕ) × (delete_key two owner deep ≡ found c')
    × (entry_at c'.root (descend two.root (path_of deep)).path
        ≡ unless_owned owner (entry_at two.root (descend two.root (path_of deep)).path))
delete_key_prefix_example = delete_key_prefix two owner deep two-IsWellFormed

-- "a.api.io" was never set, and its deletion removes "api.io".
delete_key_prefix_runs : (descend two.root (path_of deep)).path ≡ codes "io" ∷ codes "api" ∷ []
unfolding descend path_of updated new_auth_config_tree stored bytes_eq split lookup_child is_empty
    new_tree_node join RadixTree.write_at RadixTree.put_branch
delete_key_prefix_runs = refl
