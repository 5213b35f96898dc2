-- ===== src/Index/Lookup.antt =====
-- `Get`, `FindId` and `Set` of pkg/index/index.go against their description over the map from
-- host names to entries.
use mathlib.Core.Option
use authorino.Common.{
  Bytes, labels_eq, labels_eq_refl, Bool, not, ◌&&◌, ◌<|>◌, ◌++◌, Option, none, some, List, [], ◌∷◌,
  ◌≡◌, arith, if◌then◌else◌, ap, ◌∙◌,
}
use authorino.RadixTree.{
  star, Entry, Node, Search, found, SetResult, set_done, already_exists, revert_key,
}
use authorino.RadixTree
use authorino.RadixTree.Paths.{entry_at, has_node}
use authorino.RadixTree.Lookup.{resolve, get-resolve, wildcard_above, resolve-parts}
use authorino.Index.{AuthConfigTree, get, find_id, set}
use authorino.Index.Keys.{path_of, IsHost, revert_key-join, path_of-AllNoByte}
use authorino.Index.WellFormed.{
  IsWellFormed, updated, set-updated, updated-IsWellFormed, entry_at-updated,
}

module _ {ℓ} {C : Type ℓ} where
  tree_get-resolve :
      (c : AuthConfigTree C) (key : Bytes)
      → IsWellFormed c
      → IsHost key
      → RadixTree.get c.root (revert_key key) ≡ found (resolve (entry_at c.root) (path_of key) none)
  tree_get-resolve c key w h =
      rw (revert_key-join key)
        (get-resolve c.root [] (path_of key) w.labelled w.rooted (tt, path_of-AllNoByte key) h)

  pub get-resolved :
      (c : AuthConfigTree C) (key : Bytes)
      → IsWellFormed c
      → IsHost key
      → get c key
        ≡ found (
            Option.map
              (λ (e : Entry C). e.auth_config)
              (resolve (entry_at c.root) (path_of key) none))
  unfolding get
  get-resolved c key w h = rw (tree_get-resolve c key w h)

  -- On a well-formed index, `Get` of a host name that is neither empty nor begins with a dot does
  -- not panic, and returns the config of the entry at the host's labels; or else of the wildcard
  -- right below the host, `*.x.io` for `x.io`; or else of the nearest wildcard above it; or else
  -- nothing.
  pub get_lem :
      (c : AuthConfigTree C) (key : Bytes)
      → IsWellFormed c
      → IsHost key
      → let at = entry_at c.root in
        let host = path_of key in
        get c key
        ≡ found (
            Option.map
              (λ (e : Entry C). e.auth_config)
              (at host <|> (at (host ++ star ∷ []) <|> wildcard_above at host)))
  get_lem c key w h =
      get-resolved c key w h
      ∙ ap (λ (o : Option (Entry C)). found (Option.map (λ (e : Entry C). e.auth_config) o))
          (resolve-parts (entry_at c.root) (path_of key))

  pub find_id_lem :
      (c : AuthConfigTree C) (key : Bytes)
      → IsWellFormed c
      → IsHost key
      → find_id c key
        ≡ found (Option.map (λ (e : Entry C). e.id) (resolve (entry_at c.root) (path_of key) none))
  unfolding find_id
  find_id_lem c key w h = rw (tree_get-resolve c key w h)

  pub resolve_exact :
      (m : List Bytes → Option (Entry C)) (ls : List Bytes) (e : Entry C) (o : Option (Entry C))
      → m ls ≡ some e
      → resolve m ls o ≡ some e
  unfolding resolve
  resolve_exact m [] e o h = rw h
  resolve_exact m (l ∷ ls) e o h = resolve_exact (λ q. m (l ∷ q)) ls e _ h

  -- On a well-formed index and such a host name, `Set` fails exactly when it may not override and
  -- the tree has a node at the host's labels already. Else it returns a well-formed index in which
  -- the host's entry is the new one and every other entry is as it was.
  pub set_lem :
      (c : AuthConfigTree C) (id key : Bytes) (config : C) (override : Bool)
      → IsWellFormed c
      → IsHost key
      → (c' : AuthConfigTree C) × (set c id key config override
          ≡ found (
              if has_node c.root (path_of key) && not override
              then already_exists (revert_key key)
              else set_done c'))
        × IsWellFormed c'
        × ((q : List Bytes)
            → entry_at c'.root q ≡ (
                if labels_eq (path_of key) q
                then some (record { id = id; auth_config = config })
                else entry_at c.root q))
  set_lem c id key config override w h = (
    updated c id key config,
    set-updated c id key config override w h,
    updated-IsWellFormed c id key config w h,
    entry_at-updated c id key config w h,
  )

  set_done-updated :
      (c c' : AuthConfigTree C) (id key : Bytes) (config : C) (override : Bool)
      → IsWellFormed c
      → IsHost key
      → set c id key config override ≡ found (set_done c')
      → c' ≡ updated c id key config
  set_done-updated c c' id key config override w h done =
      ground (arith, set-updated c id key config override w h)

  -- After a successful `Set` of a host name, `Get` of that name returns the config that was set,
  -- whatever wildcards the index has.
  get-set_self :
      (c c' : AuthConfigTree C) (id key : Bytes) (config : C) (override : Bool)
      → IsWellFormed c
      → IsHost key
      → set c id key config override ≡ found (set_done c')
      → get c' key ≡ found (some config)
  get-set_self c c' id key config override w h done =
      rw (set_done-updated c c' id key config override w h done) (
        get-resolved u key (updated-IsWellFormed c id key config w h) h
        ∙ ap (λ (t : Option (Entry C)). found (Option.map (λ (e : Entry C). e.auth_config) t))
            there)
    where
      u : AuthConfigTree C
      u = updated c id key config

      there :
          resolve (entry_at u.root) (path_of key) none
          ≡ some (record { id = id; auth_config = config })
      there =
          resolve_exact (entry_at u.root) (path_of key) (record { id = id; auth_config = config })
            none
            (ground (
              arith,
              entry_at-updated c id key config w h (path_of key),
              labels_eq_refl (path_of key),
            ))
