-- ===== src/Controllers/Reindexing.antt =====
-- The changes of `Reconcile` of controllers/auth_config_controller.go to a well-formed index.

use authorino.Common.{
  Bytes, Bool, Option, none, some, List, [], ◌∷◌, ◌≡◌, ◌∙◌, arith, Bool-cases, inl, inr,
  if◌then◌else◌,
}
use authorino.RadixTree.{Entry, Node, found}
use authorino.RadixTree.Paths.{entry_at}
use authorino.Index.{AuthConfigTree, find_keys, keys_of}
use authorino.Index.Keys.{holds_path}
use authorino.Index.WellFormed.{IsWellFormed, AllLinked}
use authorino.Index.Delete.{unless_owned, delete_keys_lem}
use authorino.Controllers.Linking.{Linking, slice_contains, subtract_slice, reindex}
use authorino.Controllers.Division.{AllHosts}
use authorino.Controllers.Hosts.{Interleaved, SameOthers, add_to_index-Links}

module _ {C : Type 0} where
  pub unless_owned-deleted :
      (id : Bytes) (test : Bool) (before after : Option (Entry C))
      → after ≡ (if test then unless_owned id before else before)
      → unless_owned id after ≡ unless_owned id before
  unless_owned-deleted id test before after h = ground arith

  AllLinked-subtract_slice :
      (n : Node C) (ks hosts : List Bytes) → AllLinked n ks → AllLinked n (subtract_slice ks hosts)
  unfolding subtract_slice
  AllLinked-subtract_slice n [] hosts h = tt
  AllLinked-subtract_slice n (k ∷ ks) hosts h = elim (Bool-cases (slice_contains hosts k)) [
    | inl kept ↦ rw kept (AllLinked-subtract_slice n ks hosts h.1)
    | inr dropped ↦ rw dropped (h.0, AllLinked-subtract_slice n ks hosts h.1)
  ]

  -- What `Reconcile` leaves of an index for a resource that is there.
  pub record Reindexed (id : Bytes) (config : C) (hosts : List Bytes) (c : AuthConfigTree C)
      (l : Linking C) : Type 0 where
    pub well_formed : IsWellFormed l.index
    pub failed : l.failed ≡ none
    pub interleaved : Interleaved hosts l.linked_hosts l.loose_hosts
    pub entries :
        (q : List Bytes)
        → entry_at l.index.root q ≡ (
            if holds_path q l.linked_hosts
            then some (record { id = id; auth_config = config })
            else if holds_path q (subtract_slice (keys_of id c.keys) hosts)
            then unless_owned id (entry_at c.root q)
            else entry_at c.root q)
    pub others : SameOthers id c l.index

  -- On a well-formed index, the changes of `Reconcile` for a resource with such hosts end without an
  -- error, in a well-formed index. Each host is, in their order, linked or loose. At the labels of a
  -- linked host there is the config for the id; at those of the id's keys that are no longer hosts
  -- there is no entry of the id; all other entries are as they were, and no entry of another id
  -- changes.
  pub reindex-Reindexed :
      (allow : Bool) (id : Bytes) (config : C) (hosts : List Bytes) (c : AuthConfigTree C)
      → IsWellFormed c
      → AllHosts hosts
      → (l : Linking C) × (reindex allow id config hosts c ≡ found l)
        × Reindexed id config hosts c l
  unfolding reindex find_keys
  reindex-Reindexed allow id config hosts c w h =
      let unused = subtract_slice (keys_of id c.keys) hosts in
      let (d, deleted, wd, same, left) =
        delete_keys_lem id unused c w
          (AllLinked-subtract_slice c.root (keys_of id c.keys) hosts (w.linked id)) in
      let (l, done, k) = add_to_index-Links allow id config hosts d wd h in
      (
        l,
        rw deleted done,
        record {
          well_formed = k.well_formed;
          failed = k.failed;
          interleaved = rw (k.linked_hosts, k.loose_hosts) k.interleaved;
          entries = λ q. rw k.linked_hosts (ground (arith, k.entries q, left q));
          others = λ q.
              k.others q
              ∙ unless_owned-deleted id (holds_path q unused) (entry_at c.root q)
                  (entry_at d.root q) (left q);
        },
      )
