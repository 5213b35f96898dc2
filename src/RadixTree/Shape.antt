-- ===== src/RadixTree/Shape.antt =====
-- The writes to the tree of pkg/index/index.go keep its shape: labels stay under their keys, no
-- node is lost, and `set` makes the nodes on the way to its key.
use authorino.Common.{
  Bytes, bytes_eq, bytes_eq_sound, bytes_eq_refl, is_empty, split-join, AllNoByte, Bool, true,
  false, ◌&&◌, ◌||◌, Option, List, [], ◌∷◌, ◌++◌, ◌≡◌, refl, arith, Option-cases, Bool-cases, inl,
  inr, if◌then◌else◌,
}
use authorino.RadixTree.{
  dot, Entry, Node, Children, children_of, tree_node, lookup_child, put_child, new_branch,
  put_branch, write_at,
}
use authorino.RadixTree.Paths.{
  descend, has_node, has_node-missing, has_node-child, EndsNonEmpty, EndsNonEmpty-tail,
  join-ne-empty,
}
use authorino.RadixTree.Insert.{lookup_child-put_child, stored, stored-below}
use authorino.RadixTree.Overwrite.{overwritten, overwritten-below}

-- `q` is a prefix of `ls`.
pub starts : List Bytes → List Bytes → Bool
starts [] ls = true
starts (x ∷ q) [] = false
starts (x ∷ q) (l ∷ ls) = bytes_eq l x && starts q ls

pub starts_refl : (ls : List Bytes) → starts ls ls ≡ true
unfolding starts
starts_refl [] = refl
starts_refl (l ∷ ls) = ground (arith, bytes_eq_refl l, starts_refl ls)

module _ {ℓ} {C : Type ℓ} where
  has_node-put_child :
      (k l x : Bytes) (old : Option (Entry C)) (m : Node C) (cs : Children C) (q : List Bytes)
      → has_node (tree_node k old (put_child l m cs)) (x ∷ q)
        ≡ (if bytes_eq l x then has_node m q else has_node (tree_node k old cs) (x ∷ q))
  unfolding has_node
  has_node-put_child k l x old m cs q = elim (Bool-cases (bytes_eq l x)) [
    | inl e ↦ rw (lookup_child-put_child l x m cs, has_node) (rw (e, has_node))
    | inr e ↦ rw (lookup_child-put_child l x m cs, has_node) (rw (e, has_node))
  ]

  pub is_empty-tail-descend :
      (n : Node C) (ls : List Bytes)
      → EndsNonEmpty ls
      → is_empty (descend n ls).tail ≡ has_node n ls
  unfolding descend has_node
  is_empty-tail-descend n [] g = unfold is_empty in refl
  is_empty-tail-descend n (l ∷ ls) g = elim (Option-cases (lookup_child l (children_of n))) [
    | inl missing ↦ rw (missing, descend, has_node) (join-ne-empty l ls g)
    | inr (m, there) ↦
        rw (there, descend, has_node) (is_empty-tail-descend m ls (EndsNonEmpty-tail l ls g))
  ]

  pub has_node-overwritten :
      (n : Node C) (ls q : List Bytes) (o : Option (Entry C))
      → has_node (overwritten n (descend n ls) o) q ≡ has_node n q
  unfolding descend overwritten write_at has_node
  has_node-overwritten (tree_node k old cs) ls [] o = refl
  has_node-overwritten (tree_node k old cs) [] (x ∷ q) o = refl
  has_node-overwritten (tree_node k old cs) (l ∷ ls) (x ∷ q) o =
      elim (Option-cases (lookup_child l cs)) [
        | inl missing ↦ rw (missing, descend)
        | inr (m, there) ↦
            let c = descend m ls in
            rw (there, descend)
              (rw
                (overwritten-below k l old o cs m c (c.ancestors ++ (tree_node k old cs ∷ []))
                  there)
                (ground (
                  arith,
                  has_node-put_child k l x old (overwritten m c o) cs q,
                  has_node-overwritten m ls q o,
                  bytes_eq_sound l x,
                  has_node-child (tree_node k old cs) m l q there,
                )))
      ]

  has_node-new_branch :
      (l : Bytes) (ls q : List Bytes) (e : Entry C) → has_node (new_branch l ls e) q ≡ starts q ls
  unfolding has_node new_branch starts lookup_child
  has_node-new_branch l [] [] e = refl
  has_node-new_branch l [] (x ∷ q) e = refl
  has_node-new_branch l (next ∷ ls) [] e = refl
  has_node-new_branch l (next ∷ ls) (x ∷ q) e = ground (arith, has_node-new_branch next ls q e)

  pub has_node-stored :
      (n : Node C) (ls q : List Bytes) (e : Entry C)
      → AllNoByte dot ls
      → EndsNonEmpty ls
      → has_node (stored n (descend n ls) e) q ≡ has_node n q || starts q ls
  unfolding descend stored write_at put_branch starts has_node
  has_node-stored (tree_node k old cs) [] [] e h g = refl
  has_node-stored (tree_node k old cs) [] (x ∷ q) e h g = unfold is_empty in ground arith
  has_node-stored (tree_node k old cs) (l ∷ ls) [] e h g = ground arith
  has_node-stored (tree_node k old cs) (l ∷ ls) (x ∷ q) e h g =
      elim (Option-cases (lookup_child l cs)) [
        | inl missing ↦
            rw (missing, descend)
              (rw (join-ne-empty l ls g, stored)
                (rw (split-join dot l ls h, write_at)
                  (ground (
                    arith,
                    has_node-put_child k l x old (new_branch l ls e) cs q,
                    has_node-new_branch l ls q e,
                    bytes_eq_sound l x,
                    has_node-missing (tree_node k old cs) l q missing,
                  ))))
        | inr (m, there) ↦
            let c = descend m ls in
            rw (there, descend)
              (rw (stored-below k l old cs m c (c.ancestors ++ (tree_node k old cs ∷ [])) e there) (
                ground (
                  arith,
                  has_node-put_child k l x old (stored m c e) cs q,
                  has_node-stored m ls q e h.1 (EndsNonEmpty-tail l ls g),
                  bytes_eq_sound l x,
                  has_node-child (tree_node k old cs) m l q there,
                )))
      ]
