-- ===== src/Controllers/Division.antt =====
-- Which hosts `addToIndex` of controllers/auth_config_controller.go links.
use mathlib.Core.Option
use authorino.Common.{
  Bytes, bytes_eq, Bool, true, false, none, some, List, [], ◌∷◌, ◌++◌, not, ◌&&◌, ◌||◌, Option, ◌≡◌,
  ◌<|>◌, is_some, labels_eq, labels_eq_refl, Option-cases, refl, arith, Bool-cases, inl, inr,
}
use authorino.RadixTree.{star, Entry}
use authorino.RadixTree.Paths.{entry_at}
use authorino.RadixTree.Lookup.{resolve}
use authorino.Index.{AuthConfigTree, find_keys, keys_of}
use authorino.Index.Keys.{path_of, IsHost}
use authorino.Index.WellFormed.{
  IsWellFormed, updated, updated-IsWellFormed, keys_of-updated, entry_at-updated,
}
use authorino.Index.Lookup.{resolve_exact}
use authorino.Controllers.Linking.{slice_contains, supersede_host_subset, taken_by}

abbrev pub AllHosts : List Bytes → Type 0
AllHosts [] = Unit
AllHosts (host ∷ hosts) = IsHost host × AllHosts hosts

AllHosts-append :
    (ks : List Bytes) (host : Bytes) → AllHosts ks → IsHost host → AllHosts (ks ++ host ∷ [])
AllHosts-append [] host ks h = (h, tt)
AllHosts-append (k ∷ ks) host w h = (w.0, AllHosts-append ks host w.1 h)

module _ {C : Type 0} where
  -- The id whose config serves a host name, by exact match or wildcard.
  abbrev pub owner_of : AuthConfigTree C → Bytes → Option Bytes
  owner_of c host =
      Option.map (λ (e : Entry C). e.id) (resolve (entry_at c.root) (path_of host) none)

  -- Whether an id may serve a host with this owner: nobody serves it, the id does, or subsets of
  -- hosts may be superseded and the host is not itself a key of its owner.
  unfoldable pub is_free : Bool → AuthConfigTree C → Bytes → Bytes → Option Bytes → Bool
  unfolding slice_contains
  is_free allow c id host none = true
  is_free allow c id host (some j) =
      bytes_eq j id || (allow && not (slice_contains (keys_of j c.keys) host))

  -- The hosts in their order, each of them linked if it is free in the index at that point, and else
  -- loose, with the index at their end.
  pub data Divided (allow : Bool) (id : Bytes) (config : C)
      : AuthConfigTree C → List Bytes → List Bytes → List Bytes → AuthConfigTree C → Type 0 where
    all_divided : (c : AuthConfigTree C) → Divided allow id config c [] [] [] c
    host_linked :
        {c d : AuthConfigTree C} {hosts linked loose : List Bytes} (host : Bytes)
        → is_free allow c id host (owner_of c host) ≡ true
        → Divided allow id config (updated c id host config) hosts linked loose d
        → Divided allow id config c (host ∷ hosts) (host ∷ linked) loose d
    host_loose :
        {c d : AuthConfigTree C} {hosts linked loose : List Bytes} (host : Bytes)
        → is_free allow c id host (owner_of c host) ≡ false
        → Divided allow id config c hosts linked loose d
        → Divided allow id config c (host ∷ hosts) linked (host ∷ loose) d

  pub is_free-taken_by :
      (allow : Bool) (c : AuthConfigTree C) (id host : Bytes) (owner : Option Bytes)
      → is_free allow c id host owner ≡ not (taken_by allow c host id owner)
  unfolding is_free taken_by supersede_host_subset find_keys
  is_free-taken_by allow c id host none = refl
  is_free-taken_by allow c id host (some j) = ground arith

  AllHosts-updated :
      (c : AuthConfigTree C) (id host : Bytes) (config : C) (j : Bytes)
      → IsWellFormed c
      → IsHost host
      → AllHosts (keys_of j c.keys)
      → AllHosts (keys_of j (updated c id host config).keys)
  AllHosts-updated c id host config j w h ks = elim (Bool-cases (bytes_eq id j)) [
    | inl own ↦
        rw (keys_of-updated c id host config w h j, own)
          (AllHosts-append (keys_of j c.keys) host ks h)
    | inr other ↦ rw (keys_of-updated c id host config w h j, other) ks
  ]

  -- With hosts only, no key becomes another name.
  pub AllHosts-Divided :
      (allow : Bool) (id : Bytes) (config : C) (j : Bytes) {c d : AuthConfigTree C}
      {hosts linked loose : List Bytes}
      → Divided allow id config c hosts linked loose d
      → IsWellFormed c
      → AllHosts hosts
      → AllHosts (keys_of j c.keys)
      → AllHosts (keys_of j d.keys)
  AllHosts-Divided allow id config j (all_divided c) w h ks = ks
  AllHosts-Divided allow id config j (host_linked {c = c} host may k) w h ks =
      AllHosts-Divided allow id config j k (updated-IsWellFormed c id host config w h.0) h.1
        (AllHosts-updated c id host config j w h.0 ks)
  AllHosts-Divided allow id config j (host_loose host taken k) w h ks =
      AllHosts-Divided allow id config j k w h.1 ks

is_some-<|>_mono :
    {A B : Type 0} (a b : Option A) (c d : Option B)
    → (is_some a ≡ true → is_some c ≡ true)
    → (is_some b ≡ true → is_some d ≡ true)
    → is_some (a <|> b) ≡ true
    → is_some (c <|> d) ≡ true
is_some-<|>_mono none b none d f g h = g h
is_some-<|>_mono none b (some y) d f g h = refl
is_some-<|>_mono (some x) b none d f g h = absurd (ground (arith, f refl))
is_some-<|>_mono (some x) b (some y) d f g h = refl

is_some-resolve_mono :
    {A : Type 0} (m n : List Bytes → Option A) (ls : List Bytes) (o p : Option A)
    → ((q : List Bytes) → is_some (m q) ≡ true → is_some (n q) ≡ true)
    → (is_some o ≡ true → is_some p ≡ true)
    → is_some (resolve m ls o) ≡ true
    → is_some (resolve n ls p) ≡ true
unfolding resolve
is_some-resolve_mono m n [] o p keep f =
    is_some-<|>_mono (m []) (m (star ∷ []) <|> o) (n []) (n (star ∷ []) <|> p) (keep [])
      (is_some-<|>_mono (m (star ∷ [])) o (n (star ∷ [])) p (keep (star ∷ [])) f)
is_some-resolve_mono m n (l ∷ ls) o p keep f =
    is_some-resolve_mono (λ q. m (l ∷ q)) (λ q. n (l ∷ q)) ls (m (star ∷ []) <|> o)
      (n (star ∷ []) <|> p) (λ q. keep (l ∷ q))
      (is_some-<|>_mono (m (star ∷ [])) o (n (star ∷ [])) p (keep (star ∷ [])) f)

module _ {C : Type 0} where
  -- Whether the index has a config for a host name, by exact match or wildcard.
  abbrev pub serves : AuthConfigTree C → Bytes → Bool
  serves c host = is_some (resolve (entry_at c.root) (path_of host) none)

  abbrev pub serves_all : AuthConfigTree C → List Bytes → Bool
  serves_all c [] = true
  serves_all c (host ∷ hosts) = serves c host && serves_all c hosts

  -- No entry goes away.
  abbrev pub Grows : AuthConfigTree C → AuthConfigTree C → Type 0
  Grows c d =
      (q : List Bytes) → is_some (entry_at c.root q) ≡ true → is_some (entry_at d.root q) ≡ true

  serves-Grows :
      (c d : AuthConfigTree C) (host : Bytes)
      → Grows c d
      → serves c host ≡ true
      → serves d host ≡ true
  serves-Grows c d host grows =
      is_some-resolve_mono (entry_at c.root) (entry_at d.root) (path_of host) none none grows
        (λ e. e)

  pub serves_all-Grows :
      (c d : AuthConfigTree C) (hosts : List Bytes)
      → Grows c d
      → serves_all c hosts ≡ true
      → serves_all d hosts ≡ true
  serves_all-Grows c d [] grows h = refl
  serves_all-Grows c d (host ∷ hosts) grows h =
      ground (arith, serves-Grows c d host grows, serves_all-Grows c d hosts grows)

  updated-Grows :
      (c : AuthConfigTree C) (id host : Bytes) (config : C)
      → IsWellFormed c
      → IsHost host
      → Grows c (updated c id host config)
  updated-Grows c id host config w h q before = elim (Bool-cases (labels_eq (path_of host) q)) [
    | inl same ↦ rw (entry_at-updated c id host config w h q, same) refl
    | inr other ↦ rw (entry_at-updated c id host config w h q, other) before
  ]

  pub Divided-Grows :
      (allow : Bool) (id : Bytes) (config : C) {c d : AuthConfigTree C}
      {hosts linked loose : List Bytes}
      → Divided allow id config c hosts linked loose d
      → IsWellFormed c
      → AllHosts hosts
      → Grows c d
  Divided-Grows allow id config (all_divided c) w h q before = before
  Divided-Grows allow id config (host_linked {c = c} host may k) w h q before =
      Divided-Grows allow id config k (updated-IsWellFormed c id host config w h.0) h.1 q
        (updated-Grows c id host config w h.0 q before)
  Divided-Grows allow id config (host_loose host taken k) w h q before =
      Divided-Grows allow id config k w h.1 q before

  serves-updated :
      (c : AuthConfigTree C) (id host : Bytes) (config : C)
      → IsWellFormed c
      → IsHost host
      → serves (updated c id host config) host ≡ true
  serves-updated c id host config w h =
      let there =
        resolve_exact (entry_at (updated c id host config).root) (path_of host)
          (record { id = id; auth_config = config }) none
          (ground (
            arith,
            entry_at-updated c id host config w h (path_of host),
            labels_eq_refl (path_of host),
          )) in
      rw there refl

  serves-taken :
      (allow : Bool) (c : AuthConfigTree C) (id host : Bytes)
      → is_free allow c id host (owner_of c host) ≡ false
      → serves c host ≡ true
  unfolding is_free
  serves-taken allow c id host taken =
      elim (Option-cases (resolve (entry_at c.root) (path_of host) none)) [
        | inl nobody ↦ absurd (ground (arith, rw nobody at taken))
        | inr (e, here) ↦ rw here refl
      ]

  -- The hosts are served in the end, those that were taken by others.
  pub serves_all-Divided :
      (allow : Bool) (id : Bytes) (config : C) {c d : AuthConfigTree C}
      {hosts linked loose : List Bytes}
      → Divided allow id config c hosts linked loose d
      → IsWellFormed c
      → AllHosts hosts
      → serves_all d hosts ≡ true
  serves_all-Divided allow id config (all_divided c) w h = refl
  serves_all-Divided allow id config (host_linked {c = c} {d = d} host may k) w h =
      let w' = updated-IsWellFormed c id host config w h.0 in
      rw
        (
          serves-Grows (updated c id host config) d host (Divided-Grows allow id config k w' h.1)
              (serves-updated c id host config w h.0),
          serves_all-Divided allow id config k w' h.1,
        )
        refl
  serves_all-Divided allow id config (host_loose {c = c} {d = d} host taken k) w h =
      rw
        (
          serves-Grows c d host (Divided-Grows allow id config k w h.1)
              (serves-taken allow c id host taken),
          serves_all-Divided allow id config k w h.1,
        )
        refl
