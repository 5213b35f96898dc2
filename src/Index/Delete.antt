-- ===== src/Index/Delete.antt =====
-- `DeleteKey` and `Delete` of pkg/index/index.go.

use authorino.Common.{
  Bytes, bytes_eq_sound, labels_eq, labels_eq_sound, labels_eq_refl, true, Option, none, some, List,
  [], ◌∷◌, ◌≡◌, refl, arith, if◌then◌else◌, Bool-cases, Option-cases, inl, inr, ◌∙◌,
}
use authorino.RadixTree.{Entry, Node, label_of, entry_of, found}
use authorino.RadixTree.Paths.{IsLabelled, descend, entry_at, has_node}
use authorino.RadixTree.Overwrite.{
  entry_at-overwritten, path-descend, entry_of-descend, entry_of-path-descend,
}
use authorino.RadixTree.Shape.{has_node-overwritten}
use authorino.RadixTree.Labels.{IsLabelled-overwritten}
use authorino.Index.{AuthConfigTree, owned, keys_of, delete_found, delete_key, delete_keys, delete}
use authorino.Index.Keys.{path_of, holds_path}
use authorino.Index.WellFormed.{IsWellFormed, AllLinked, search-descend, AllLinked-mono}

module _ {ℓ} {C : Type ℓ} where
  -- What is left of an entry when those of `id` are removed.
  abbrev pub unless_owned : Bytes → Option (Entry C) → Option (Entry C)
  unless_owned id o = if owned id o then none else o

  abbrev deleted : AuthConfigTree C → Bytes → List Bytes → AuthConfigTree C
  deleted c id ls = record c { root = delete_found c.root id (descend c.root ls) }

  delete_key-deleted :
      (c : AuthConfigTree C) (id key : Bytes)
      → IsWellFormed c
      → delete_key c id key ≡ found (deleted c id (path_of key))
  unfolding delete_key
  delete_key-deleted c id key w = rw (search-descend c key w)

  entry_at-delete_found :
      (n : Node C) (id : Bytes) (ls q : List Bytes)
      → has_node n ls ≡ true
      → entry_at (delete_found n id (descend n ls)) q
        ≡ (if labels_eq ls q then unless_owned id (entry_at n q) else entry_at n q)
  unfolding delete_found
  entry_at-delete_found n id ls q h = ground (
    arith,
    entry_at-overwritten n ls q none,
    path-descend n ls h,
    entry_of-descend n ls h,
    labels_eq_sound ls q,
  )

  -- Whatever the key, an entry stays or is removed.
  entry_at-delete_found-some :
      (n : Node C) (id : Bytes) (ls q : List Bytes) (e : Entry C)
      → entry_at (delete_found n id (descend n ls)) q ≡ some e
      → entry_at n q ≡ some e
  unfolding delete_found
  entry_at-delete_found-some n id ls q e h = ground (arith, entry_at-overwritten n ls q none)

  has_node-delete_found :
      (n : Node C) (id : Bytes) (ls q : List Bytes)
      → has_node (delete_found n id (descend n ls)) q ≡ has_node n q
  unfolding delete_found
  has_node-delete_found n id ls q = ground (arith, has_node-overwritten n ls q none)

  IsLabelled-delete_found :
      (n : Node C) (id : Bytes) (ls : List Bytes)
      → IsLabelled n
      → (label_of (delete_found n id (descend n ls)) ≡ label_of n)
        × IsLabelled (delete_found n id (descend n ls))
  unfolding delete_found
  IsLabelled-delete_found n id ls w = elim (Bool-cases (owned id (entry_of (descend n ls).node))) [
    | inl e ↦ rw e (IsLabelled-overwritten n ls none w)
    | inr e ↦ rw e (refl, w)
  ]

  deleted-IsWellFormed :
      (c : AuthConfigTree C) (id : Bytes) (ls : List Bytes)
      → IsWellFormed c
      → IsWellFormed (deleted c id ls)
  deleted-IsWellFormed c id ls w =
      let (a, b) = IsLabelled-delete_found c.root id ls w.labelled in
      record {
        labelled = b;
        rooted = a ∙ w.rooted;
        linked = λ j.
            AllLinked-mono c.root (deleted c id ls).root (keys_of j c.keys)
              (λ q h. has_node-delete_found c.root id ls q ∙ h) (w.linked j);
        listed = λ q e h. w.listed q e (entry_at-delete_found-some c.root id ls q e h);
      }

  -- On a well-formed index, `DeleteKey` of an id and a key of that id returns a well-formed index
  -- with the same keys. The key's entry is gone if it is the id's, and all others are as they were.
  pub delete_key_lem :
      (c : AuthConfigTree C) (id key : Bytes)
      → IsWellFormed c
      → has_node c.root (path_of key) ≡ true
      → (c' : AuthConfigTree C) × (delete_key c id key ≡ found c')
        × IsWellFormed c'
        × (c'.keys ≡ c.keys)
        × ((q : List Bytes)
            → entry_at c'.root q ≡ (
                if labels_eq (path_of key) q
                then unless_owned id (entry_at c.root q)
                else entry_at c.root q))
  delete_key_lem c id key w h = (
    deleted c id (path_of key),
    delete_key-deleted c id key w,
    deleted-IsWellFormed c id (path_of key) w,
    refl,
    λ q. entry_at-delete_found c.root id (path_of key) q h,
  )

  unless_owned_twice :
      (id : Bytes) (o : Option (Entry C)) → unless_owned id (unless_owned id o) ≡ unless_owned id o
  unless_owned_twice id none = refl
  unless_owned_twice id (some e) = ground arith

  pub delete_keys_lem :
      (id : Bytes) (ks : List Bytes) (c : AuthConfigTree C)
      → IsWellFormed c
      → AllLinked c.root ks
      → (c' : AuthConfigTree C) × (delete_keys id ks c ≡ found c')
        × IsWellFormed c'
        × (c'.keys ≡ c.keys)
        × ((q : List Bytes)
            → entry_at c'.root q ≡ (
                if holds_path q ks then unless_owned id (entry_at c.root q) else entry_at c.root q))
  unfolding delete_keys holds_path
  delete_keys_lem id [] c w h = (c, refl, w, refl, λ q. refl)
  delete_keys_lem id (key ∷ ks) c w h =
      let d = deleted c id (path_of key) in
      let linked =
        AllLinked-mono c.root d.root ks (λ q k. has_node-delete_found c.root id (path_of key) q ∙ k)
          h.1 in
      let (c', done, w', same, at) =
        delete_keys_lem id ks d (deleted-IsWellFormed c id (path_of key) w) linked in
      (
        c',
        rw (delete_key-deleted c id key w) done,
        w',
        same,
        λ q. ground (
          arith,
          at q,
          entry_at-delete_found c.root id (path_of key) q h.0,
          unless_owned_twice id (entry_at c.root q),
        ),
      )

  -- On a well-formed index, `Delete` of an id returns a well-formed index that has exactly the
  -- entries of the other ids, where they were. It keeps the map of keys as it was.
  pub delete_lem :
      (c : AuthConfigTree C) (id : Bytes)
      → IsWellFormed c
      → (c' : AuthConfigTree C) × (delete c id ≡ found c')
        × IsWellFormed c'
        × (c'.keys ≡ c.keys)
        × ((q : List Bytes) → entry_at c'.root q ≡ unless_owned id (entry_at c.root q))
  unfolding delete
  delete_lem c id w =
      let (c', done, w', same, at) = delete_keys_lem id (keys_of id c.keys) c w (w.linked id) in
      (c', done, w', same, λ q. at q ∙ all q)
    where
      all :
          (q : List Bytes)
          → (if holds_path q (keys_of id c.keys)
              then unless_owned id (entry_at c.root q)
              else entry_at c.root q)
            ≡ unless_owned id (entry_at c.root q)
      all q = elim (Option-cases (entry_at c.root q)) [
        | inl e ↦ ground (arith, e)
        | inr (e, there) ↦ ground (arith, there, w.listed q e there, bytes_eq_sound e.id id)
      ]

  -- On a well-formed index `DeleteKey` of any key, also one that was never set, removes the id's
  -- entry at the labels where the search for the key ended, a part of the key's labels or all.
  pub delete_key_prefix :
      (c : AuthConfigTree C) (id key : Bytes)
      → IsWellFormed c
      → (c' : AuthConfigTree C) × (delete_key c id key ≡ found c')
        × (entry_at c'.root (descend c.root (path_of key)).path
            ≡ unless_owned id (entry_at c.root (descend c.root (path_of key)).path))
  unfolding delete_found
  delete_key_prefix c id key w =
      (deleted c id (path_of key), delete_key-deleted c id key w, at_path)
    where
      p : List Bytes
      p = (descend c.root (path_of key)).path

      at_path :
          entry_at (delete_found c.root id (descend c.root (path_of key))) p
          ≡ unless_owned id (entry_at c.root p)
      at_path = ground (
        arith,
        entry_at-overwritten c.root (path_of key) p none,
        labels_eq_refl p,
        entry_of-path-descend c.root (path_of key),
      )
