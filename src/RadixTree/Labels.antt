-- ===== src/RadixTree/Labels.antt =====
-- The writes to the tree of pkg/index/index.go keep each child under its own label, one child to
-- a label, and the label of the root.
use authorino.Common.{
  Bytes, bytes_eq, bytes_eq_iff, bytes_eq_sound, is_empty, split-join, AllNoByte, Option, List, [],
  ◌∷◌, ◌++◌, ◌≡◌, refl, sym, ◌∙◌, arith, Option-cases, Bool-cases, inl, inr,
}
use authorino.RadixTree.{
  dot, Entry, Node, Children, no_child, child, label_of, tree_node, lookup_child, put_child,
  new_branch, put_branch, write_at,
}
use authorino.RadixTree.Paths.{
  IsLabelled, AreLabelled, lookup_child-IsLabelled, descend, EndsNonEmpty, EndsNonEmpty-tail,
  join-ne-empty,
}
use authorino.RadixTree.Insert.{lookup_child-put_child, stored, stored-below}
use authorino.RadixTree.Overwrite.{overwritten, overwritten-below}

module _ {ℓ} {C : Type ℓ} where
  AreLabelled-put_child :
      (l : Bytes) (m : Node C) (cs : Children C)
      → label_of m ≡ l
      → IsLabelled m
      → AreLabelled cs
      → AreLabelled (put_child l m cs)
  unfolding put_child lookup_child
  AreLabelled-put_child l m no_child e w h = (e, w, refl, tt)
  AreLabelled-put_child l m (child k n cs) e w h = elim (Bool-cases (bytes_eq k l)) [
    | inl p ↦ rw p (e ∙ sym (bytes_eq_sound k l p), w, h.2, h.3)
    | inr p ↦ rw p (
      h.0,
      h.1,
      lookup_child-put_child l k m cs ∙ ground (arith, bytes_eq_iff k l, bytes_eq_iff l k, h.2),
      AreLabelled-put_child l m cs e w h.3,
    )
  ]

  IsLabelled-new_branch :
      (l : Bytes) (ls : List Bytes) (e : Entry C)
      → (label_of (new_branch l ls e) ≡ l) × IsLabelled (new_branch l ls e)
  unfolding new_branch lookup_child
  IsLabelled-new_branch l [] e = (refl, tt)
  IsLabelled-new_branch l (next ∷ ls) e =
      let (a, b) = IsLabelled-new_branch next ls e in (refl, (a, b, refl, tt))

  pub IsLabelled-overwritten :
      (n : Node C) (ls : List Bytes) (o : Option (Entry C))
      → IsLabelled n
      → (label_of (overwritten n (descend n ls) o) ≡ label_of n)
        × IsLabelled (overwritten n (descend n ls) o)
  unfolding descend overwritten write_at
  IsLabelled-overwritten (tree_node k old cs) [] o w = (refl, w)
  IsLabelled-overwritten (tree_node k old cs) (l ∷ ls) o w =
      elim (Option-cases (lookup_child l cs)) [
        | inl missing ↦ rw (missing, descend) (refl, w)
        | inr (m, there) ↦
            let c = descend m ls in
            let (lm, wm) = lookup_child-IsLabelled l cs m w there in
            let (a, b) = IsLabelled-overwritten m ls o wm in
            rw (there, descend)
              (rw
                (overwritten-below k l old o cs m c (c.ancestors ++ (tree_node k old cs ∷ []))
                  there)
                (refl, AreLabelled-put_child l (overwritten m c o) cs (a ∙ lm) b w))
      ]

  pub IsLabelled-stored :
      (n : Node C) (ls : List Bytes) (e : Entry C)
      → AllNoByte dot ls
      → EndsNonEmpty ls
      → IsLabelled n
      → (label_of (stored n (descend n ls) e) ≡ label_of n) × IsLabelled (stored n (descend n ls) e)
  unfolding descend stored write_at put_branch
  IsLabelled-stored (tree_node k old cs) [] e h g w = unfold is_empty in (refl, w)
  IsLabelled-stored (tree_node k old cs) (l ∷ ls) e h g w =
      elim (Option-cases (lookup_child l cs)) [
        | inl missing ↦
            let (a, b) = IsLabelled-new_branch l ls e in
            rw (missing, descend)
              (rw (join-ne-empty l ls g, stored)
                (rw (split-join dot l ls h, write_at)
                  (refl, AreLabelled-put_child l (new_branch l ls e) cs a b w)))
        | inr (m, there) ↦
            let c = descend m ls in
            let (lm, wm) = lookup_child-IsLabelled l cs m w there in
            let (a, b) = IsLabelled-stored m ls e h.1 (EndsNonEmpty-tail l ls g) wm in
            rw (there, descend)
              (rw (stored-below k l old cs m c (c.ancestors ++ (tree_node k old cs ∷ [])) e there)
                (refl, AreLabelled-put_child l (stored m c e) cs (a ∙ lm) b w))
      ]
