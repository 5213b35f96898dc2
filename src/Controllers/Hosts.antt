-- ===== src/Controllers/Hosts.antt =====
-- `addToIndex` of controllers/auth_config_controller.go on a well-formed index.
use mathlib.Core.List.{append-nil, append_assoc}
use mathlib.Core.Option
use authorino.Common.{
  Bytes, bytes_eq, bytes_eq_refl, labels_eq, labels_eq_sound, Bool, true, false, none, some, List,
  [], ◌∷◌, ◌++◌, not, ap, ◌≡◌, refl, sym, ◌∙◌, arith, Bool-cases, Option-cases, inl, inr,
  if◌then◌else◌,
}
use authorino.RadixTree.{Entry, found, set_done}
use authorino.RadixTree.Paths.{entry_at}
use authorino.RadixTree.Lookup.{resolve}
use authorino.Index.{AuthConfigTree, find_keys, keys_of, set}
use authorino.Index.Keys.{path_of, IsHost, holds_path, path_of-injective}
use authorino.Index.WellFormed.{
  IsWellFormed, updated, set-updated, updated-IsWellFormed, entry_at-updated,
}
use authorino.Index.Lookup.{find_id_lem, resolve_exact}
use authorino.Index.Delete.{unless_owned}
use authorino.Controllers.Division.{
  AllHosts, owner_of, is_free, is_free-taken_by, Divided, all_divided, host_linked, host_loose,
}
use authorino.Controllers.Linking.{
  Linking, slice_contains, supersede_host_subset, taken_by, host_taken, link_hosts, add_to_index,
}

slice_contains-holds_path :
    (ks : List Bytes) (host : Bytes)
    → holds_path (path_of host) ks ≡ true
    → slice_contains ks host ≡ true
unfolding holds_path slice_contains
slice_contains-holds_path [] host h = cc
slice_contains-holds_path (key ∷ ks) host h =
    elim (Bool-cases (labels_eq (path_of key) (path_of host))) [
      | inl same ↦ rw (
        path_of-injective key host (labels_eq_sound (path_of key) (path_of host) same),
        bytes_eq_refl host,
      )
      | inr other ↦ ground (arith, slice_contains-holds_path ks host (rw other at h))
    ]

-- One list in order, as two.
pub data Interleaved : List Bytes → List Bytes → List Bytes → Type 0 where
  no_hosts : Interleaved [] [] []
  in_first :
      {xs ys zs : List Bytes} (x : Bytes) → Interleaved xs ys zs → Interleaved (x ∷ xs) (x ∷ ys) zs
  in_second :
      {xs ys zs : List Bytes} (x : Bytes) → Interleaved xs ys zs → Interleaved (x ∷ xs) ys (x ∷ zs)

module _ {C : Type 0} where
  -- An index has the same entries of the other ids.
  abbrev pub SameOthers : Bytes → AuthConfigTree C → AuthConfigTree C → Type 0
  SameOthers id c c' =
      (q : List Bytes) → unless_owned id (entry_at c'.root q) ≡ unless_owned id (entry_at c.root q)

  own-taken_by :
      (allow : Bool) (c : AuthConfigTree C) (id host j : Bytes)
      → taken_by allow c host id (some j) ≡ false
      → slice_contains (keys_of j c.keys) host ≡ true
      → bytes_eq j id ≡ true
  unfolding taken_by supersede_host_subset find_keys
  own-taken_by allow c id host j free listed = ground arith

  -- A host that an id may take has no entry of another id.
  free-unless_owned :
      (allow : Bool) (c : AuthConfigTree C) (id host : Bytes)
      → IsWellFormed c
      → taken_by allow c host id
          (Option.map (λ (e : Entry C). e.id) (resolve (entry_at c.root) (path_of host) none))
        ≡ false
      → unless_owned id (entry_at c.root (path_of host)) ≡ none
  free-unless_owned allow c id host w free = elim (Option-cases (entry_at c.root (path_of host))) [
    | inl nothing ↦ rw nothing
    | inr (e, here) ↦
        let found_here = resolve_exact (entry_at c.root) (path_of host) e none here in
        let listed =
          slice_contains-holds_path (keys_of e.id c.keys) host (w.listed (path_of host) e here) in
        rw here (rw (own-taken_by allow c id host e.id (rw found_here at free) listed))
  ]

  -- What `addToIndex` does to an index: of the hosts, those that are free are linked and the others
  -- are loose. The linked ones, and no others, get the config for the id, and no entry of another id
  -- changes.
  pub record Links (allow : Bool) (id : Bytes) (config : C) (hosts : List Bytes) (l l' : Linking C)
      : Type 0 where
    pub well_formed : IsWellFormed l'.index
    pub failed : l'.failed ≡ l.failed
    pub linked : List Bytes
    pub loose : List Bytes
    pub interleaved : Interleaved hosts linked loose
    pub divided : Divided allow id config l.index hosts linked loose l'.index
    pub linked_hosts : l'.linked_hosts ≡ l.linked_hosts ++ linked
    pub loose_hosts : l'.loose_hosts ≡ l.loose_hosts ++ loose
    pub entries :
        (q : List Bytes)
        → entry_at l'.index.root q ≡ (
            if holds_path q linked
            then some (record { id = id; auth_config = config })
            else entry_at l.index.root q)
    pub others : SameOthers id l.index l'.index

  Links-none :
      (allow : Bool) (id : Bytes) (config : C) (l : Linking C)
      → IsWellFormed l.index
      → Links allow id config [] l l
  unfolding holds_path
  Links-none allow id config l w = record {
    well_formed = w;
    failed = refl;
    linked = [];
    loose = [];
    interleaved = no_hosts;
    divided = all_divided l.index;
    linked_hosts = sym (append-nil l.linked_hosts);
    loose_hosts = sym (append-nil l.loose_hosts);
    entries = λ q. refl;
    others = λ q. refl;
  }

  Links-loose :
      (allow : Bool) (id : Bytes) (config : C) (host : Bytes) (hosts : List Bytes)
      (l l' : Linking C)
      → is_free allow l.index id host (owner_of l.index host) ≡ false
      → Links allow id config hosts (record l { loose_hosts = l.loose_hosts ++ host ∷ [] }) l'
      → Links allow id config (host ∷ hosts) l l'
  Links-loose allow id config host hosts l l' taken k = record {
    well_formed = k.well_formed;
    failed = k.failed;
    linked = k.linked;
    loose = host ∷ k.loose;
    interleaved = in_second host k.interleaved;
    divided = host_loose host taken k.divided;
    linked_hosts = k.linked_hosts;
    loose_hosts = k.loose_hosts ∙ append_assoc l.loose_hosts (host ∷ []) k.loose;
    entries = k.entries;
    others = k.others;
  }

  module _ (id host : Bytes) (config : C) (l : Linking C) (w : IsWellFormed l.index)
      (h : IsHost host) where
    abbrev one_more : Linking C
    one_more = record l {
      index = updated l.index id host config;
      linked_hosts = l.linked_hosts ++ host ∷ [];
    }

    others-updated :
        unless_owned id (entry_at l.index.root (path_of host)) ≡ none
        → SameOthers id l.index (updated l.index id host config)
    others-updated free q = elim (Bool-cases (labels_eq (path_of host) q)) [
      | inl same ↦
          rw (entry_at-updated l.index id host config w h q, same, bytes_eq_refl id)
            (rw (← labels_eq_sound (path_of host) q same) (sym free))
      | inr other ↦ rw (entry_at-updated l.index id host config w h q, other)
    ]

    Links-linked :
        (allow : Bool) (hosts : List Bytes) (l' : Linking C)
        → is_free allow l.index id host (owner_of l.index host) ≡ true
        → unless_owned id (entry_at l.index.root (path_of host)) ≡ none
        → Links allow id config hosts one_more l'
        → Links allow id config (host ∷ hosts) l l'
    unfolding holds_path
    Links-linked allow hosts l' may free k = record {
      well_formed = k.well_formed;
      failed = k.failed;
      linked = host ∷ k.linked;
      loose = k.loose;
      interleaved = in_first host k.interleaved;
      divided = host_linked host may k.divided;
      linked_hosts = k.linked_hosts ∙ append_assoc l.linked_hosts (host ∷ []) k.linked;
      loose_hosts = k.loose_hosts;
      entries = λ q. ground (arith, k.entries q, entry_at-updated l.index id host config w h q);
      others = λ q. k.others q ∙ others-updated free q;
    }

  set_override :
      (c : AuthConfigTree C) (id host : Bytes) (config : C)
      → IsWellFormed c
      → IsHost host
      → set c id host config true ≡ found (set_done (updated c id host config))
  set_override c id host config w h = ground (arith, set-updated c id host config true w h)

  link_hosts-Links :
      (allow : Bool) (id : Bytes) (config : C) (hosts : List Bytes) (l : Linking C)
      → IsWellFormed l.index
      → AllHosts hosts
      → (l' : Linking C) × (link_hosts allow id config hosts l ≡ found l')
        × Links allow id config hosts l l'
  unfolding link_hosts host_taken
  link_hosts-Links allow id config [] l w h = (l, refl, Links-none allow id config l w)
  link_hosts-Links allow id config (host ∷ hosts) l w h =
      let owner = owner_of l.index host in
      let same = is_free-taken_by allow l.index id host owner in
      elim (Bool-cases (taken_by allow l.index host id owner)) [
        | inl taken ↦
            let (l', done, links) =
              link_hosts-Links allow id config hosts
                (record l { loose_hosts = l.loose_hosts ++ host ∷ [] }) w h.1 in
            (
              l',
              rw (find_id_lem l.index host w h.0, taken) done,
              Links-loose allow id config host hosts l l' (same ∙ ap not taken) links,
            )
        | inr free ↦
            let (l', done, links) =
              link_hosts-Links allow id config hosts (one_more id host config l w h.0)
                (updated-IsWellFormed l.index id host config w h.0) h.1 in
            (
              l',
              rw (find_id_lem l.index host w h.0, free, set_override l.index id host config w h.0)
                  done,
              Links-linked id host config l w h.0 allow hosts l' (same ∙ ap not free)
                  (free-unless_owned allow l.index id host w free) links,
            )
      ]

  abbrev pub unlinked : AuthConfigTree C → Linking C
  unlinked c = record { index = c; linked_hosts = []; loose_hosts = []; failed = none }

  -- On a well-formed index, `addToIndex` of hosts that are neither empty nor begin with a dot ends
  -- without an error, in a well-formed index. Each of the hosts is, in their order, linked if it is
  -- free in the index with the hosts linked so far, and else loose. A host is free if no entry serves
  -- it, by exact match or wildcard, or an entry of the id does, or if subsets of hosts may be
  -- superseded and the host is not a key of the id whose entry serves it. At the labels of a linked
  -- host there is the config for the id, all other entries are as they were, and no entry of another
  -- id changes.
  pub add_to_index-Links :
      (allow : Bool) (id : Bytes) (config : C) (hosts : List Bytes) (c : AuthConfigTree C)
      → IsWellFormed c
      → AllHosts hosts
      → (l : Linking C) × (add_to_index allow id config hosts c ≡ found l)
        × Links allow id config hosts (unlinked c) l
  unfolding add_to_index
  add_to_index-Links allow id config hosts c w h =
      link_hosts-Links allow id config hosts (unlinked c) w h
