-- ===== src/Index/WellFormed.antt =====
-- The invariant of the index of pkg/index/index.go, and that `Set` keeps it.
use authorino.Common.{
  Bytes, bytes_eq, bytes_eq_refl, labels_eq, Bool, true, not, ◌&&◌, ◌||◌, some, List, [], ◌∷◌, ◌++◌,
  ◌≡◌, refl, ◌∙◌, arith, if◌then◌else◌, Bool-cases, inl, inr,
}
use authorino.RadixTree.{
  dot, Entry, Node, label_of, new_tree_node, Search, found, SetResult, set_done, already_exists,
  longest_common_label, revert_key, set_found, lookup_child,
}
use authorino.RadixTree
use authorino.RadixTree.Paths.{
  IsLabelled, descend, longest_common_label-descend, entry_at, has_node,
}
use authorino.RadixTree.Insert.{stored, entry_at-stored}
use authorino.RadixTree.Shape.{starts, starts_refl, is_empty-tail-descend, has_node-stored}
use authorino.RadixTree.Labels.{IsLabelled-stored}
use authorino.Index.{AuthConfigTree, keys_of, append_key, set, new_auth_config_tree}
use authorino.Index.Keys.{
  path_of, IsHost, revert_key-join, path_of-AllNoByte, keys_of-append_key, holds_path,
  holds_path-append,
}

module _ {ℓ} {C : Type ℓ} where
  -- Every key has a node.
  abbrev pub AllLinked : Node C → List Bytes → Type 0
  AllLinked n [] = Unit
  AllLinked n (key ∷ ks) = (has_node n (path_of key) ≡ true) × AllLinked n ks

  -- The tree hangs under the root's label, each key of an id has its node, and each entry lies at
  -- a key of its id.
  pub record IsWellFormed (c : AuthConfigTree C) : Type ℓ where
    pub labelled : IsLabelled c.root
    pub rooted : label_of c.root ≡ []
    pub linked : (id : Bytes) → AllLinked c.root (keys_of id c.keys)
    pub listed :
        (q : List Bytes) (e : Entry C)
        → entry_at c.root q ≡ some e
        → holds_path q (keys_of e.id c.keys) ≡ true

  pub search-descend :
      (c : AuthConfigTree C) (key : Bytes)
      → IsWellFormed c
      → longest_common_label c.root (revert_key key) ≡ found (descend c.root (path_of key))
  search-descend c key w = rw (revert_key-join key) (
      longest_common_label-descend c.root [] (path_of key) w.labelled w.rooted
        (tt, path_of-AllNoByte key))

  -- The tree after a successful `Set`.
  unfoldable pub updated : AuthConfigTree C → Bytes → Bytes → C → AuthConfigTree C
  updated c id key config = record {
    root = stored c.root (descend c.root (path_of key)) (record { id = id; auth_config = config });
    keys = append_key id key c.keys;
  }

  -- `Set` fails exactly when it may not override and the key has a node already.
  pub set-updated :
      (c : AuthConfigTree C) (id key : Bytes) (config : C) (override : Bool)
      → IsWellFormed c
      → IsHost key
      → set c id key config override
        ≡ found (
            if has_node c.root (path_of key) && not override
            then already_exists (revert_key key)
            else set_done (updated c id key config))
  unfolding set RadixTree.set updated set_found stored
  set-updated c id key config override w h =
      rw (search-descend c key w, RadixTree.set)
        (ground (arith, is_empty-tail-descend c.root (path_of key) h))

  pub AllLinked-mono :
      (n m : Node C) (ks : List Bytes)
      → ((q : List Bytes) → has_node n q ≡ true → has_node m q ≡ true)
      → AllLinked n ks
      → AllLinked m ks
  AllLinked-mono n m [] keep h = tt
  AllLinked-mono n m (key ∷ ks) keep h = (keep (path_of key) h.0, AllLinked-mono n m ks keep h.1)

  AllLinked-append :
      (n : Node C) (ks : List Bytes) (key : Bytes)
      → AllLinked n ks
      → has_node n (path_of key) ≡ true
      → AllLinked n (ks ++ (key ∷ []))
  AllLinked-append n [] key h e = (e, tt)
  AllLinked-append n (k ∷ ks) key h e = (h.0, AllLinked-append n ks key h.1 e)

  module _ (c : AuthConfigTree C) (id key : Bytes) (config : C) (w : IsWellFormed c)
      (host : IsHost key) where
    abbrev added : Entry C
    added = record { id = id; auth_config = config }

    has_node-updated :
        (q : List Bytes)
        → has_node (updated c id key config).root q ≡ has_node c.root q || starts q (path_of key)
    unfolding updated
    has_node-updated q = has_node-stored c.root (path_of key) q added (path_of-AllNoByte key) host

    -- After `Set` the key's entry is the new one, and every other entry is as it was.
    pub entry_at-updated :
        (q : List Bytes)
        → entry_at (updated c id key config).root q
          ≡ (if labels_eq (path_of key) q then some added else entry_at c.root q)
    unfolding updated
    entry_at-updated q = entry_at-stored c.root (path_of key) q added (path_of-AllNoByte key) host

    pub keys_of-updated :
        (j : Bytes)
        → keys_of j (updated c id key config).keys
          ≡ (if bytes_eq id j then keys_of j c.keys ++ (key ∷ []) else keys_of j c.keys)
    unfolding updated
    keys_of-updated j = keys_of-append_key id j key c.keys

    updated-linked_old : (j : Bytes) → AllLinked (updated c id key config).root (keys_of j c.keys)
    updated-linked_old j =
        AllLinked-mono c.root (updated c id key config).root (keys_of j c.keys)
          (λ q h. ground (arith, has_node-updated q)) (w.linked j)

    updated-linked :
        (j : Bytes)
        → AllLinked (updated c id key config).root (keys_of j (updated c id key config).keys)
    updated-linked j = elim (Bool-cases (bytes_eq id j)) [
      | inl e ↦
          rw (keys_of-updated j, e)
            (AllLinked-append (updated c id key config).root (keys_of j c.keys) key
              (updated-linked_old j)
              (ground (arith, has_node-updated (path_of key), starts_refl (path_of key))))
      | inr e ↦ rw (keys_of-updated j, e) (updated-linked_old j)
    ]

    updated-listed :
        (q : List Bytes) (e : Entry C)
        → entry_at (updated c id key config).root q ≡ some e
        → holds_path q (keys_of e.id (updated c id key config).keys) ≡ true
    updated-listed q e h = elim (Bool-cases (labels_eq (path_of key) q)) [
      | inl here ↦ ground (
        arith,
        here,
        entry_at-updated q,
        keys_of-updated e.id,
        bytes_eq_refl id,
        holds_path-append q (keys_of id c.keys) key,
        holds_path-append q (keys_of e.id c.keys) key,
      )
      | inr other ↦ ground (
        arith,
        other,
        entry_at-updated q,
        keys_of-updated e.id,
        w.listed q e,
        holds_path-append q (keys_of e.id c.keys) key,
      )
    ]

    updated-IsLabelled :
        (label_of (updated c id key config).root ≡ label_of c.root)
        × IsLabelled (updated c id key config).root
    unfolding updated
    updated-IsLabelled =
        IsLabelled-stored c.root (path_of key) added (path_of-AllNoByte key) host w.labelled

    -- `Set` keeps the invariant.
    pub updated-IsWellFormed : IsWellFormed (updated c id key config)
    updated-IsWellFormed = record {
      labelled = updated-IsLabelled.1;
      rooted = updated-IsLabelled.0 ∙ w.rooted;
      linked = updated-linked;
      listed = updated-listed;
    }

  pub new-IsWellFormed : IsWellFormed (new_auth_config_tree {C = C})
  unfolding new_auth_config_tree new_tree_node keys_of entry_at lookup_child
  new-IsWellFormed = record { labelled = tt; rooted = refl; linked = λ id. tt; listed = go }
    where
      go :
          (q : List Bytes) (e : Entry C)
          → entry_at (new_tree_node []) q ≡ some e
          → holds_path q (keys_of e.id []) ≡ true
      go [] e h = cc
      go (x ∷ q) e h = cc
