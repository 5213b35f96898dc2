-- ===== src/RadixTree/Insert.antt =====
-- `treeNode.set` of pkg/index/index.go against its description: the entry at the key's labels is
-- replaced, and every other entry stays.
use authorino.Common.{
  Bytes, bytes_eq, bytes_eq_iff, bytes_eq_sound, labels_eq, is_empty, split, split-join, AllNoByte,
  true, false, Option, none, some, List, [], ◌∷◌, ◌++◌, ◌≡◌, refl, arith, Bool-cases, Option-cases,
  inl, inr, sym, ◌∙◌, if◌then◌else◌,
}
use authorino.RadixTree.{
  dot, Entry, Node, Children, no_child, child, tree_node, with_entry, lookup_child, put_child,
  Cursor, new_branch, put_branch, write_at,
}
use authorino.RadixTree.Paths.{
  descend, entry_at, entry_at-nil, entry_at-missing, entry_at-child, EndsNonEmpty, join-ne-empty,
  EndsNonEmpty-tail,
}

module _ {ℓ} {C : Type ℓ} where
  pub lookup_child-put_child :
      (l k : Bytes) (m : Node C) (cs : Children C)
      → lookup_child k (put_child l m cs) ≡ (if bytes_eq l k then some m else lookup_child k cs)
  unfolding lookup_child put_child
  lookup_child-put_child l k m no_child = refl
  lookup_child-put_child l k m (child i n cs) =
      ground (
        arith,
        lookup_child-put_child l k m cs,
        bytes_eq_iff i l,
        bytes_eq_iff i k,
        bytes_eq_iff l k,
      )

  -- The entry at `q` in the tree with child `m` put at `l`.
  pub entry_at-put_child :
      (k l x : Bytes) (old : Option (Entry C)) (m : Node C) (cs : Children C) (q : List Bytes)
      → entry_at (tree_node k old (put_child l m cs)) (x ∷ q)
        ≡ (if bytes_eq l x then entry_at m q else entry_at (tree_node k old cs) (x ∷ q))
  unfolding entry_at
  entry_at-put_child k l x old m cs q = elim (Bool-cases (bytes_eq l x)) [
    | inl e ↦ rw (lookup_child-put_child l x m cs, entry_at) (rw (e, entry_at))
    | inr e ↦ rw (lookup_child-put_child l x m cs, entry_at) (rw (e, entry_at))
  ]

  entry_at-new_branch :
      (l : Bytes) (ls q : List Bytes) (e : Entry C)
      → entry_at (new_branch l ls e) q ≡ (if labels_eq ls q then some e else none)
  unfolding entry_at new_branch labels_eq lookup_child
  entry_at-new_branch l [] [] e = refl
  entry_at-new_branch l [] (x ∷ q) e = refl
  entry_at-new_branch l (next ∷ ls) [] e = refl
  entry_at-new_branch l (next ∷ ls) (x ∷ q) e = ground (arith, entry_at-new_branch next ls q e)

  entry_at-put_branch :
      (k l : Bytes) (old : Option (Entry C)) (cs : Children C) (ls q : List Bytes) (e : Entry C)
      → lookup_child l cs ≡ none
      → entry_at (put_branch (tree_node k old cs) (l ∷ ls) e) q
        ≡ (if labels_eq (l ∷ ls) q then some e else entry_at (tree_node k old cs) q)
  unfolding put_branch labels_eq
  entry_at-put_branch k l old cs ls [] e missing =
      entry_at-nil (put_branch (tree_node k old cs) (l ∷ ls) e)
      ∙ sym (entry_at-nil (tree_node k old cs))
  entry_at-put_branch k l old cs ls (x ∷ q) e missing = ground (
    arith,
    entry_at-put_child k l x old (new_branch l ls e) cs q,
    entry_at-new_branch l ls q e,
    bytes_eq_sound l x,
    entry_at-missing (tree_node k old cs) l q missing,
  )

  -- One level of a write below the child `m`, by what the write does to `m`.
  pub entry_at-write_below :
      (k l : Bytes) (old : Option (Entry C)) (cs : Children C) (m w : Node C) (ls q : List Bytes)
      (e : Option (Entry C))
      → lookup_child l cs ≡ some m
      → ((r : List Bytes) → entry_at w r ≡ (if labels_eq ls r then e else entry_at m r))
      → entry_at (tree_node k old (put_child l w cs)) q
        ≡ (if labels_eq (l ∷ ls) q then e else entry_at (tree_node k old cs) q)
  unfolding labels_eq
  entry_at-write_below k l old cs m w ls [] e there below =
      entry_at-nil (tree_node k old (put_child l w cs)) ∙ sym (entry_at-nil (tree_node k old cs))
  entry_at-write_below k l old cs m w ls (x ∷ q) e there below = ground (
    arith,
    entry_at-put_child k l x old w cs q,
    below q,
    bytes_eq_sound l x,
    entry_at-child (tree_node k old cs) m l q there,
  )

  -- The tree after the write of `set`: an entry in the found node, or a branch below it.
  unfoldable pub stored : Node C → Cursor C → Entry C → Node C
  stored n c e = elim (is_empty c.tail) [
    | true ↦ write_at c.path (with_entry c.node (some e)) n
    | false ↦ write_at c.path (put_branch c.node (split dot c.tail) e) n
  ]

  -- A write below a child goes through the child.
  pub stored-below :
      (k l : Bytes) (old : Option (Entry C)) (cs : Children C) (m : Node C) (c : Cursor C)
      (above : List (Node C)) (e : Entry C)
      → lookup_child l cs ≡ some m
      → stored (tree_node k old cs) (record c { ancestors = above; path = l ∷ c.path }) e
        ≡ tree_node k old (put_child l (stored m c e) cs)
  unfolding stored write_at
  stored-below k l old cs m c above e there = ground arith

  pub entry_at-stored :
      (n : Node C) (ls q : List Bytes) (e : Entry C)
      → AllNoByte dot ls
      → EndsNonEmpty ls
      → entry_at (stored n (descend n ls) e) q ≡ (if labels_eq ls q then some e else entry_at n q)
  unfolding descend stored entry_at labels_eq write_at put_branch
  entry_at-stored (tree_node k old cs) [] [] e h g = unfold is_empty in refl
  entry_at-stored (tree_node k old cs) [] (x ∷ q) e h g = unfold is_empty in refl
  entry_at-stored (tree_node k old cs) (l ∷ ls) q e h g = elim (Option-cases (lookup_child l cs)) [
    | inl missing ↦
        rw (missing, descend)
          (rw (join-ne-empty l ls g, stored)
            (rw (split-join dot l ls h, write_at) (entry_at-put_branch k l old cs ls q e missing)))
    | inr (m, there) ↦
        let c = descend m ls in
        rw (there, descend)
          (rw (stored-below k l old cs m c (c.ancestors ++ (tree_node k old cs ∷ [])) e there) (
            entry_at-write_below k l old cs m (stored m c e) ls q (some e) there
              (λ r. entry_at-stored m ls r e h.1 (EndsNonEmpty-tail l ls g))))
  ]
