-- ===== src/Controllers/Linking.antt =====
-- controllers/auth_config_controller.go: `addToIndex`, with `hostTaken` and `supersedeHostSubset`,
-- and `SubtractSlice` and `SliceContains` of pkg/utils/utils.go.
use authorino.Common.{
  Bytes, bytes_eq, Bool, true, false, not, ◌&&◌, Option, none, some, List, [], ◌∷◌, ◌++◌,
  if◌then◌else◌,
}
use authorino.RadixTree.{Search, found, set_done, already_exists}
use authorino.Index.{AuthConfigTree, ◌>>=◌, find_id, find_keys, set, delete_keys}

-- `SliceContains`
unfoldable pub slice_contains : List Bytes → Bytes → Bool
slice_contains [] val = false
slice_contains (v ∷ s) val = if bytes_eq v val then true else slice_contains s val

-- `SubtractSlice`; the map of the source is asked only which strings it has.
unfoldable pub subtract_slice : List Bytes → List Bytes → List Bytes
unfolding slice_contains
subtract_slice [] sl2 = []
subtract_slice (v ∷ sl1) sl2 =
    let rest = subtract_slice sl1 sl2 in if slice_contains sl2 v then rest else v ∷ rest

-- The index while hosts are added, the hosts that were linked and those that are taken, and the
-- error of `Set`, which ends the loop.
pub record Linking (C : Type 0) : Type 0 where
  pub index : AuthConfigTree C
  pub linked_hosts : List Bytes
  pub loose_hosts : List Bytes
  pub failed : Option Bytes

module _ {C : Type 0} where
  -- `allow` is `AllowSupersedingHostSubsets`.
  unfoldable pub supersede_host_subset : Bool → AuthConfigTree C → Bytes → Bytes → Bool
  unfolding slice_contains find_keys
  supersede_host_subset allow c host superset_id =
      allow && not (slice_contains (find_keys c superset_id) host)

  -- The test of `hostTaken` on what `FindId` gives.
  unfoldable pub taken_by : Bool → AuthConfigTree C → Bytes → Bytes → Option Bytes → Bool
  unfolding supersede_host_subset
  taken_by allow c host id none = false
  taken_by allow c host id (some indexed) =
      not (bytes_eq indexed id) && not (supersede_host_subset allow c host indexed)

  unfoldable pub host_taken : Bool → AuthConfigTree C → Bytes → Bytes → Search Bool
  unfolding taken_by
  host_taken allow c host id = do indexed ← find_id c host; found (taken_by allow c host id indexed)

  -- The loop of `addToIndex`.
  unfoldable pub link_hosts : Bool → Bytes → C → List Bytes → Linking C → Search (Linking C)
  unfolding host_taken
  link_hosts allow id config [] l = found l
  link_hosts allow id config (host ∷ hosts) l = do
    taken ← host_taken allow l.index host id
    elim taken [
      | true ↦
          link_hosts allow id config hosts (record l { loose_hosts = l.loose_hosts ++ host ∷ [] })
      | false ↦ do
        result ← set l.index id host config true
        elim result [
          | set_done c ↦
              link_hosts allow id config hosts
                (record l { index = c; linked_hosts = l.linked_hosts ++ host ∷ [] })
          | already_exists key ↦ found (record l { failed = some key })
        ]
    ]

  -- `addToIndex`
  unfoldable pub add_to_index :
      Bool → Bytes → C → List Bytes → AuthConfigTree C → Search (Linking C)
  unfolding link_hosts
  add_to_index allow id config hosts c =
      link_hosts allow id config hosts
        (record { index = c; linked_hosts = []; loose_hosts = []; failed = none })

  -- The changes that `Reconcile` makes to the index for a resource that is there and watched.
  unfoldable pub reindex : Bool → Bytes → C → List Bytes → AuthConfigTree C → Search (Linking C)
  unfolding subtract_slice add_to_index
  reindex allow id config hosts c = do
    c' ← delete_keys id (subtract_slice (find_keys c id) hosts) c
    add_to_index allow id config hosts c'
