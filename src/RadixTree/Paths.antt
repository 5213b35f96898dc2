-- ===== src/RadixTree/Paths.antt =====
-- The radix tree of pkg/index/index.go as a map from lists of labels: what a tree holds at a path,
-- how the search walks down the labels, and that the search by strings is that walk.
use mathlib.Core.Path.{subst}
use mathlib.Core.Option.{some-injective}
use authorino.Common.{
  ℕ, suc, length, Bytes, bytes_eq, bytes_eq_sound, bytes_eq_refl, is_empty, join, split-join,
  AllNoByte, Bool, true, false, Option, none, some, List, [], ◌∷◌, ◌++◌, ◌≡◌, refl, Bool-cases,
  Option-cases, inl, inr, ◌∙◌,
}
use authorino.RadixTree.{
  dot, Entry, Node, Children, tree_node, no_child, child, label_of, entry_of, children_of,
  lookup_child, Cursor, found, lcl, lcl_labels, longest_common_label,
}

-- Every child hangs under its own label, and no two children of a node share one.
abbrev mutual
  pub IsLabelled {ℓ} : {C : Type ℓ} → Node C → Type ℓ
  IsLabelled (tree_node l e cs) = AreLabelled cs

  pub AreLabelled {ℓ} : {C : Type ℓ} → Children C → Type ℓ
  AreLabelled no_child = Unit
  AreLabelled (child k n cs) =
      (label_of n ≡ k) × IsLabelled n × (lookup_child k cs ≡ none) × AreLabelled cs

module _ {ℓ} {C : Type ℓ} where
  -- Whether the tree has a node at the labels.
  unfoldable pub has_node : Node C → List Bytes → Bool
  has_node n [] = true
  has_node n (l ∷ ls) = elim (lookup_child l (children_of n)) [
    | none ↦ false
    | some m ↦ has_node m ls
  ]

  -- The walk of `longestCommonLabel` by labels.
  unfoldable pub descend : Node C → List Bytes → Cursor C
  descend n [] = record { node = n; ancestors = []; path = []; tail = [] }
  descend n (l ∷ ls) = elim (lookup_child l (children_of n)) [
    | none ↦ record { node = n; ancestors = []; path = []; tail = join dot (l ∷ ls) }
    | some m ↦
        let c = descend m ls in record c { ancestors = c.ancestors ++ (n ∷ []); path = l ∷ c.path }
  ]

  pub lookup_child-IsLabelled :
      (l : Bytes) (cs : Children C) (m : Node C)
      → AreLabelled cs
      → lookup_child l cs ≡ some m
      → (label_of m ≡ l) × IsLabelled m
  unfolding lookup_child
  lookup_child-IsLabelled l no_child m h e = cc
  lookup_child-IsLabelled l (child k n cs) m h e = elim (Bool-cases (bytes_eq k l)) [
    | inl p ↦
        let same : n ≡ m = some-injective n m (rw p at e) in
        subst (λ x. (label_of x ≡ l) × IsLabelled x) same (h.0 ∙ bytes_eq_sound k l p, h.1)
    | inr p ↦ lookup_child-IsLabelled l cs m h.3 (rw p at e)
  ]

  AreLabelled-children : (n : Node C) → IsLabelled n → AreLabelled (children_of n)
  AreLabelled-children (tree_node l e cs) w = w

  -- On keys of a tree's root label the search finds a node: it does not panic, its fuel is enough.
  pub lcl-descend :
      (n : Node C) (l : Bytes) (ls : List Bytes)
      → IsLabelled n
      → label_of n ≡ l
      → AllNoByte dot (l ∷ ls)
      → lcl (suc (length ls)) n (join dot (l ∷ ls)) ≡ found (descend n ls)
  unfolding lcl descend
  lcl-descend n l [] w e h = rw (split-join dot l [] h) (rw (e, bytes_eq_refl))
  lcl-descend n l (x ∷ ls) w e h = rw (split-join dot l (x ∷ ls) h) (
      rw (e, bytes_eq_refl)
        (elim (Option-cases (lookup_child x (children_of n))) [
          | inl missing ↦ rw (missing, lcl_labels, descend)
          | inr (m, there) ↦
              let (lm, wm) =
                lookup_child-IsLabelled x (children_of n) m (AreLabelled-children n w) there in
              rw (there, lcl_labels, descend) (rw (lcl-descend m x ls wm lm h.1))
        ]))

  pub longest_common_label-descend :
      (n : Node C) (l : Bytes) (ls : List Bytes)
      → IsLabelled n
      → label_of n ≡ l
      → AllNoByte dot (l ∷ ls)
      → longest_common_label n (join dot (l ∷ ls)) ≡ found (descend n ls)
  unfolding longest_common_label
  longest_common_label-descend n l ls w e h = rw (split-join dot l ls h) (lcl-descend n l ls w e h)

  -- The entry at the labels.
  unfoldable pub entry_at : Node C → List Bytes → Option (Entry C)
  entry_at n [] = entry_of n
  entry_at n (l ∷ ls) = elim (lookup_child l (children_of n)) [
    | none ↦ none
    | some m ↦ entry_at m ls
  ]

  pub entry_at-nil : (n : Node C) → entry_at n [] ≡ entry_of n
  unfolding entry_at
  entry_at-nil n = refl

  pub entry_at-missing :
      (n : Node C) (l : Bytes) (q : List Bytes)
      → lookup_child l (children_of n) ≡ none
      → entry_at n (l ∷ q) ≡ none
  unfolding entry_at
  entry_at-missing n l q e = rw (e, entry_at)

  pub entry_at-child :
      (n m : Node C) (l : Bytes) (q : List Bytes)
      → lookup_child l (children_of n) ≡ some m
      → entry_at n (l ∷ q) ≡ entry_at m q
  unfolding entry_at
  entry_at-child n m l q e = rw (e, entry_at)

  pub has_node-missing :
      (n : Node C) (l : Bytes) (q : List Bytes)
      → lookup_child l (children_of n) ≡ none
      → has_node n (l ∷ q) ≡ false
  unfolding has_node
  has_node-missing n l q e = rw (e, has_node)

  pub has_node-child :
      (n m : Node C) (l : Bytes) (q : List Bytes)
      → lookup_child l (children_of n) ≡ some m
      → has_node n (l ∷ q) ≡ has_node m q
  unfolding has_node
  has_node-child n m l q e = rw (e, has_node)

-- The last label is not empty: the host name is neither empty nor begins with a dot.
abbrev pub EndsNonEmpty : List Bytes → Type 0
EndsNonEmpty [] = Unit
EndsNonEmpty (l ∷ []) = is_empty l ≡ false
EndsNonEmpty (l ∷ next ∷ ls) = EndsNonEmpty (next ∷ ls)

append-ne-empty : (p : Bytes) (c : ℕ) (s : Bytes) → is_empty (p ++ (c ∷ s)) ≡ false
unfolding is_empty
append-ne-empty [] c s = refl
append-ne-empty (x ∷ p) c s = refl

pub join-ne-empty :
    (l : Bytes) (ls : List Bytes) → EndsNonEmpty (l ∷ ls) → is_empty (join dot (l ∷ ls)) ≡ false
unfolding join
join-ne-empty l [] h = h
join-ne-empty l (next ∷ ls) h = append-ne-empty l dot (join dot (next ∷ ls))

pub EndsNonEmpty-tail : (l : Bytes) (ls : List Bytes) → EndsNonEmpty (l ∷ ls) → EndsNonEmpty ls
EndsNonEmpty-tail l [] h = tt
EndsNonEmpty-tail l (next ∷ ls) h = h
