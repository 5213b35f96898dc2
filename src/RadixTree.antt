-- ===== src/RadixTree.antt =====
-- pkg/index/index.go: the nodes of the tree and their operations `get`, `set`,
-- `longestCommonLabel` and `list`.
-- A node's `parent` pointers are read only from the node that `longestCommonLabel` found. So a
-- found node comes with its ancestors, nearest first, and with the labels that lead to it; a write
-- through the pointer to the found node is a write at those labels.
pub mod Paths
pub mod Lookup
pub mod Insert
pub mod Overwrite
pub mod Shape
pub mod Labels
use mathlib.Core.List.{reverse}
use authorino.Common.{
  ℕ, zero, suc, length, Bytes, codes, bytes_eq, is_empty, split, join, Bool, true, false, Option,
  none, some, List, [], ◌∷◌, ◌++◌, if◌then◌else◌,
}

abbrev pub dot : ℕ
dot = b'.'

abbrev pub star : Bytes
star = codes "*"

-- `indexEntry`; the index only stores the AuthConfig, of type `C` here.
pub record Entry {ℓ} (C : Type ℓ) : Type ℓ where
  pub id : Bytes
  pub auth_config : C

-- `treeNode`: its label, its entry, and the map of its children.
mutual
  pub data Node {ℓ} (C : Type ℓ) : Type ℓ where
    tree_node : Bytes → Option (Entry C) → Children C → Node C

  pub data Children {ℓ} (C : Type ℓ) : Type ℓ where
    no_child : Children C
    child : Bytes → Node C → Children C → Children C

module _ {ℓ} {C : Type ℓ} where
  abbrev pub label_of : Node C → Bytes
  label_of (tree_node l e cs) = l

  abbrev pub entry_of : Node C → Option (Entry C)
  entry_of (tree_node l e cs) = e

  abbrev pub children_of : Node C → Children C
  children_of (tree_node l e cs) = cs

  abbrev pub with_entry : Node C → Option (Entry C) → Node C
  with_entry (tree_node l _ cs) e = tree_node l e cs

  -- `n.children[label]`
  unfoldable pub lookup_child : Bytes → Children C → Option (Node C)
  lookup_child l no_child = none
  lookup_child l (child k n cs) = if bytes_eq k l then some n else lookup_child l cs

  -- `n.children[label] = m`
  unfoldable pub put_child : Bytes → Node C → Children C → Children C
  put_child l m no_child = child l m no_child
  put_child l m (child k n cs) = if bytes_eq k l then child k m cs else child k n (put_child l m cs)

-- `newTreeNode`
unfoldable pub new_tree_node {ℓ} : {C : Type ℓ} → Bytes → Node C
new_tree_node l = tree_node l none no_child

-- The node that `longestCommonLabel` returns, as a pointer: the node itself, its ancestors, the
-- labels from the node where the search began, and the tail of the key.
pub record Cursor {ℓ} (C : Type ℓ) : Type ℓ where
  pub node : Node C
  pub ancestors : List (Node C)
  pub path : List Bytes
  pub tail : Bytes

-- The outcome of `set`: the tree after it, or the error "authconfig already exists in the index".
pub data SetResult {ℓ} (A : Type ℓ) : Type ℓ where
  set_done : A → SetResult A
  already_exists : Bytes → SetResult A

-- A search ends at a node, in the panic of the source, or with its fuel.
pub data Search {ℓ} (A : Type ℓ) : Type ℓ where
  found : A → Search A
  panic : Search A
  out_of_fuel : Search A

module _ {ℓ} {C : Type ℓ} where
  abbrev pub found_below : Node C → Bytes → Search (Cursor C) → Search (Cursor C)
  found_below n l (found c) =
      found (record c { ancestors = c.ancestors ++ (n ∷ []); path = l ∷ c.path })
  found_below n l panic = panic
  found_below n l out_of_fuel = out_of_fuel

  abbrev pub at_node : Node C → Bytes → Search (Cursor C)
  at_node n tail = found (record { node = n; ancestors = []; path = []; tail = tail })

  -- The body behind the test of `labels[0]`, by the labels that follow it; `again` is the
  -- recursive call on a child and a tail.
  lcl_labels : (Node C → Bytes → Search (Cursor C)) → Node C → List Bytes → Search (Cursor C)
  lcl_labels again n [] = at_node n []
  lcl_labels again n (l ∷ ls) =
      let tail = join dot (l ∷ ls) in
      elim (lookup_child l (children_of n)) [
        | some m ↦ found_below n l (again m tail)
        | none ↦ at_node n tail
      ]

  lcl_split : (Node C → Bytes → Search (Cursor C)) → Node C → List Bytes → Search (Cursor C)
  unfolding lcl_labels
  lcl_split again n [] = panic
  lcl_split again n (l ∷ ls) =
      let rest = lcl_labels again n ls in if bytes_eq (label_of n) l then rest else panic

  unfoldable pub lcl : ℕ → Node C → Bytes → Search (Cursor C)
  unfolding lcl_split
  lcl zero n key = out_of_fuel
  lcl (suc fuel) n key = lcl_split (lcl fuel) n (split dot key)

  -- `longestCommonLabel`. Each call drops a label, so the number of labels is enough.
  unfoldable pub longest_common_label : Node C → Bytes → Search (Cursor C)
  unfolding lcl
  longest_common_label n key = lcl (length (split dot key)) n key

  -- `curr.children["*"]`, if it has an entry.
  abbrev pub wildcard : Node C → Option (Entry C)
  wildcard n = elim (lookup_child star (children_of n)) [ none ↦ none | some m ↦ entry_of m ]

  -- The loop of `get`, upwards to the root.
  unfoldable pub climb : Node C → List (Node C) → Option (Entry C)
  climb curr [] = wildcard curr
  climb curr (parent ∷ above) =
      let up = climb parent above in elim (wildcard curr) [ some e ↦ some e | none ↦ up ]

  unfoldable pub get_found : Cursor C → Option (Entry C)
  unfolding climb
  get_found c =
      let up = climb c.node c.ancestors in
      elim (is_empty c.tail) [
        | true ↦ elim (entry_of c.node) [ some e ↦ some e | none ↦ up ]
        | false ↦ up
      ]

  -- `treeNode.get`: a perfect match, or the nearest wildcard on the way up.
  unfoldable pub get : Node C → Bytes → Search (Option (Entry C))
  unfolding get_found longest_common_label
  get n key = elim (longest_common_label n key) [
    | found c ↦ found (get_found c)
    | panic ↦ panic
    | out_of_fuel ↦ out_of_fuel
  ]

  -- The branch of new nodes below `labels[0]`, with the entry in the last one.
  unfoldable pub new_branch : Bytes → List Bytes → Entry C → Node C
  new_branch l [] e = tree_node l (some e) no_child
  new_branch l (next ∷ ls) e = tree_node l none (child next (new_branch next ls e) no_child)

  unfoldable pub put_branch : Node C → List Bytes → Entry C → Node C
  unfolding put_child new_branch
  put_branch (tree_node k old cs) [] e = tree_node k old cs
  put_branch (tree_node k old cs) (l ∷ ls) e = tree_node k old (put_child l (new_branch l ls e) cs)

  -- The write `m` through a pointer to the node at the labels.
  unfoldable pub write_at : List Bytes → Node C → Node C → Node C
  unfolding put_child lookup_child
  write_at [] m n = m
  write_at (l ∷ ls) m (tree_node k e cs) = elim (lookup_child l cs) [
    | none ↦ tree_node k e cs
    | some c ↦ tree_node k e (put_child l (write_at ls m c) cs)
  ]

  -- `treeNode.set`, behind the search of its target.
  unfoldable pub set_found : Node C → Bytes → Entry C → Bool → Cursor C → SetResult (Node C)
  unfolding write_at put_branch
  set_found n key e override c = elim (is_empty c.tail) [
    | true ↦
        if override
        then set_done (write_at c.path (with_entry c.node (some e)) n)
        else already_exists key
    | false ↦ set_done (write_at c.path (put_branch c.node (split dot c.tail) e) n)
  ]

  -- `treeNode.set`: a new branch below the longest common node, or a new entry in that node.
  unfoldable pub set : Node C → Bytes → Entry C → Bool → Search (SetResult (Node C))
  unfolding set_found longest_common_label
  set n key e override = elim (longest_common_label n key) [
    | found c ↦ found (set_found n key e override c)
    | panic ↦ panic
    | out_of_fuel ↦ out_of_fuel
  ]

  abbrev pub entries_of : Option (Entry C) → List (Entry C)
  entries_of none = []
  entries_of (some e) = e ∷ []

unfoldable mutual
  -- `treeNode.list`, in the order of the children.
  pub list {ℓ} : {C : Type ℓ} → Node C → List (Entry C)
  list (tree_node l e cs) = entries_of e ++ list_children cs

  pub list_children {ℓ} : {C : Type ℓ} → Children C → List (Entry C)
  list_children no_child = []
  list_children (child k n cs) = list n ++ list_children cs

-- `revertKey`: the labels of a host name from the last to the first, behind the root's label.
unfoldable pub revert_key : Bytes → Bytes
revert_key key = join dot (reverse (split dot key ++ ([] ∷ [])))
