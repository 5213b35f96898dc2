-- ===== src/RadixTree/Overwrite.antt =====
-- A write to the entry of the node that `longestCommonLabel` found, as `set` with `override` and
-- `deleteKey` of pkg/index/index.go make it.
use authorino.Common.{
  Bytes, labels_eq, true, Option, some, List, [], ◌∷◌, ◌++◌, ◌≡◌, refl, arith, Option-cases, inl,
  inr, if◌then◌else◌,
}
use authorino.RadixTree.{
  Entry, Node, Children, entry_of, children_of, tree_node, with_entry, lookup_child, put_child,
  Cursor, write_at,
}
use authorino.RadixTree.Paths.{descend, entry_at, has_node}
use authorino.RadixTree.Insert.{entry_at-write_below}

module _ {ℓ} {C : Type ℓ} where
  -- The write of the entry `o` to the found node.
  unfoldable pub overwritten : Node C → Cursor C → Option (Entry C) → Node C
  overwritten n c o = write_at c.path (with_entry c.node o) n

  pub overwritten-below :
      (k l : Bytes) (old o : Option (Entry C)) (cs : Children C) (m : Node C) (c : Cursor C)
      (above : List (Node C))
      → lookup_child l cs ≡ some m
      → overwritten (tree_node k old cs) (record c { ancestors = above; path = l ∷ c.path }) o
        ≡ tree_node k old (put_child l (overwritten m c o) cs)
  unfolding overwritten write_at
  overwritten-below k l old o cs m c above there = ground arith

  -- Only the entry at the found node's labels changes.
  pub entry_at-overwritten :
      (n : Node C) (ls q : List Bytes) (o : Option (Entry C))
      → entry_at (overwritten n (descend n ls) o) q
        ≡ (if labels_eq (descend n ls).path q then o else entry_at n q)
  unfolding descend overwritten write_at entry_at labels_eq
  entry_at-overwritten (tree_node k old cs) [] [] o = refl
  entry_at-overwritten (tree_node k old cs) [] (x ∷ q) o = refl
  entry_at-overwritten (tree_node k old cs) (l ∷ ls) q o = elim (Option-cases (lookup_child l cs)) [
    | inl missing ↦ rw (missing, descend) (root q)
    | inr (m, there) ↦
        let c = descend m ls in
        rw (there, descend)
          (rw (overwritten-below k l old o cs m c (c.ancestors ++ (tree_node k old cs ∷ [])) there)
            (entry_at-write_below k l old cs m (overwritten m c o) c.path q o there
              (λ r. entry_at-overwritten m ls r o)))
  ]
    where
      root :
          (r : List Bytes)
          → entry_at (tree_node k o cs) r
            ≡ (if labels_eq [] r then o else entry_at (tree_node k old cs) r)
      root [] = refl
      root (x ∷ r) = refl

  -- The labels of the found node are those searched for exactly when there is a node.
  pub path-descend :
      (n : Node C) (ls : List Bytes) → has_node n ls ≡ true → (descend n ls).path ≡ ls
  unfolding descend has_node
  path-descend n [] h = refl
  path-descend n (l ∷ ls) h = elim (Option-cases (lookup_child l (children_of n))) [
    | inl missing ↦ ground (arith, missing)
    | inr (m, there) ↦ rw (there, descend) (rw (path-descend m ls (rw (there, has_node) at h)))
  ]

  pub tail-descend :
      (n : Node C) (ls : List Bytes) → has_node n ls ≡ true → (descend n ls).tail ≡ []
  unfolding descend has_node
  tail-descend n [] h = refl
  tail-descend n (l ∷ ls) h = elim (Option-cases (lookup_child l (children_of n))) [
    | inl missing ↦ ground (arith, missing)
    | inr (m, there) ↦ rw (there, descend) (tail-descend m ls (rw (there, has_node) at h))
  ]

  pub entry_of-descend :
      (n : Node C) (ls : List Bytes)
      → has_node n ls ≡ true
      → entry_of (descend n ls).node ≡ entry_at n ls
  unfolding descend has_node entry_at
  entry_of-descend n [] h = refl
  entry_of-descend n (l ∷ ls) h = elim (Option-cases (lookup_child l (children_of n))) [
    | inl missing ↦ ground (arith, missing)
    | inr (m, there) ↦
        rw (there, descend, entry_at) (entry_of-descend m ls (rw (there, has_node) at h))
  ]

  -- The found node is the one at the labels that were followed.
  pub entry_of-path-descend :
      (n : Node C) (ls : List Bytes) → entry_of (descend n ls).node ≡ entry_at n (descend n ls).path
  unfolding descend entry_at
  entry_of-path-descend n [] = refl
  entry_of-path-descend n (l ∷ ls) = elim (Option-cases (lookup_child l (children_of n))) [
    | inl missing ↦ rw (missing, descend)
    | inr (m, there) ↦ rw (there, descend) (rw (there, entry_at) (entry_of-path-descend m ls))
  ]
