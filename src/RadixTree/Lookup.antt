-- ===== src/RadixTree/Lookup.antt =====
-- `treeNode.get` of pkg/index/index.go against its description: the entry of the host name itself,
-- or else of the wildcard right below it, or else of the nearest wildcard above it.
use mathlib.Core.Path.{fun_ext}
use authorino.Common.{
  Bytes, is_empty, join, AllNoByte, true, false, Option, none, List, [], ◌∷◌, ◌++◌, ◌≡◌, refl,
  arith, Option-cases, inl, inr, sym, ap, ◌∙◌, ◌<|>◌, <|>_assoc, <|>_none,
}
use authorino.RadixTree.{
  dot, star, Entry, Node, entry_of, children_of, label_of, lookup_child, Cursor, found, climb,
  wildcard, get_found, get,
}
use authorino.RadixTree.Paths.{
  IsLabelled, descend, longest_common_label-descend, entry_at, entry_at-nil, entry_at-missing,
  entry_at-child, EndsNonEmpty, join-ne-empty, EndsNonEmpty-tail,
}

-- What a lookup means over any map from labels to entries: the entry at the labels, or else the
-- entry of a wildcard right below the longest of their prefixes that has one. The labels are such a
-- prefix themselves: a wildcard right below the host name comes before those above it.
unfoldable pub resolve {ℓ} :
    {A : Type ℓ} → (List Bytes → Option A) → List Bytes → Option A → Option A
resolve m [] fallback = m [] <|> (m (star ∷ []) <|> fallback)
resolve m (l ∷ ls) fallback = resolve (λ q. m (l ∷ q)) ls (m (star ∷ []) <|> fallback)

-- The entry of the nearest wildcard above the labels, which are below it: `*` in place of the last
-- of them, or else of the last two, and so on.
unfoldable pub wildcard_above {ℓ} : {A : Type ℓ} → (List Bytes → Option A) → List Bytes → Option A
wildcard_above m [] = none
wildcard_above m (l ∷ ls) = wildcard_above (λ q. m (l ∷ q)) ls <|> m (star ∷ [])

module _ {ℓ} {A : Type ℓ} where
  resolve-fallback :
      (m : List Bytes → Option A) (ls : List Bytes) (fallback : Option A)
      → resolve m ls fallback
        ≡ (m ls <|> (m (ls ++ star ∷ []) <|> (wildcard_above m ls <|> fallback)))
  unfolding resolve wildcard_above
  resolve-fallback m [] fallback = refl
  resolve-fallback m (l ∷ ls) fallback =
      resolve-fallback (λ q. m (l ∷ q)) ls (m (star ∷ []) <|> fallback)
      ∙ ap (λ x. m (l ∷ ls) <|> (m (l ∷ (ls ++ star ∷ [])) <|> x))
          (sym (<|>_assoc (wildcard_above (λ q. m (l ∷ q)) ls) (m (star ∷ [])) fallback))

  -- The three places where a lookup finds an entry, in their order.
  pub resolve-parts :
      (m : List Bytes → Option A) (ls : List Bytes)
      → resolve m ls none ≡ (m ls <|> (m (ls ++ star ∷ []) <|> wildcard_above m ls))
  resolve-parts m ls =
      resolve-fallback m ls none
      ∙ ap (λ x. m ls <|> (m (ls ++ star ∷ []) <|> x)) (<|>_none (wildcard_above m ls))

module _ {ℓ} {C : Type ℓ} where
  resolve-none :
      (ls : List Bytes) (fallback : Option (Entry C)) → resolve (λ q. none) ls fallback ≡ fallback
  unfolding resolve
  resolve-none [] fallback = refl
  resolve-none (l ∷ ls) fallback = resolve-none ls fallback

  exact : Cursor C → Option (Entry C)
  exact c = elim (is_empty c.tail) [ true ↦ entry_of c.node | false ↦ none ]

  get_found-exact : (c : Cursor C) → get_found c ≡ (exact c <|> climb c.node c.ancestors)
  unfolding get_found exact
  get_found-exact c = ground arith

  climb-append :
      (n m : Node C) (above : List (Node C))
      → climb n (above ++ (m ∷ [])) ≡ (climb n above <|> wildcard m)
  unfolding climb
  climb-append n m [] = ground arith
  climb-append n m (p ∷ above) = ground (arith, climb-append p m above)

  wildcard-entry_at : (n : Node C) → entry_at n (star ∷ []) ≡ wildcard n
  unfolding entry_at
  wildcard-entry_at n = ground arith

  descend-resolve :
      (n : Node C) (ls : List Bytes) (fallback : Option (Entry C))
      → EndsNonEmpty ls
      → let c = descend n ls in
        (exact c <|> (climb c.node c.ancestors <|> fallback)) ≡ resolve (entry_at n) ls fallback
  unfolding descend resolve exact climb is_empty
  descend-resolve n [] fallback h = rw (entry_at-nil, wildcard-entry_at n)
  descend-resolve n (l ∷ ls) fallback h = elim (Option-cases (lookup_child l (children_of n))) [
    | inl missing ↦
        rw (missing, descend)
          (rw (join-ne-empty l ls h, exact)
            (rw (fun_ext (λ (q : List Bytes). entry_at-missing n l q missing))
              (rw resolve-none (rw (wildcard-entry_at n)))))
    | inr (m, there) ↦
        rw (there, descend)
          (rw (climb-append, <|>_assoc, wildcard-entry_at n)
            (rw (fun_ext (λ (q : List Bytes). entry_at-child n m l q there))
              (descend-resolve m ls (wildcard n <|> fallback) (EndsNonEmpty-tail l ls h))))
  ]

  -- The search of `get`, behind the search of the node.
  pub get_found-descend :
      (n : Node C) (ls : List Bytes)
      → EndsNonEmpty ls
      → get_found (descend n ls) ≡ resolve (entry_at n) ls none
  get_found-descend n ls h =
      let c = descend n ls in
      get_found-exact c
      ∙ ap (λ (t : Option (Entry C)). exact c <|> t) (sym (<|>_none (climb c.node c.ancestors)))
      ∙ descend-resolve n ls none h

  -- `get` of a joined key.
  pub get-resolve :
      (n : Node C) (l : Bytes) (ls : List Bytes)
      → IsLabelled n
      → label_of n ≡ l
      → AllNoByte dot (l ∷ ls)
      → EndsNonEmpty ls
      → get n (join dot (l ∷ ls)) ≡ found (resolve (entry_at n) ls none)
  unfolding get
  get-resolve n l ls w e h k =
      rw (longest_common_label-descend n l ls w e h, get) (rw (get_found-descend n ls k))
