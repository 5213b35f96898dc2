-- ===== src/Controllers/Bootstrap.antt =====
-- `bootstrapIndex` of controllers/auth_config_controller.go: the index denies all until each
-- resource is reconciled.

use authorino.Common.{
  not, ◌&&◌, ◌||◌, ℕ, Bytes, Bool, true, false, Option, none, some, List, [], ◌∷◌, Outcome, ok, err,
  sym, ◌⊎◌, ◌≡◌, ◌≢◌, refl, ◌∙◌, arith, Bool-cases, Option-cases, inl, inr, if◌then◌else◌,
}
use mathlib.Core.Path.{subst}
use authorino.Evaluators.{AuthConfig}
use authorino.Pipeline.{AuthPipeline, Env, unauthenticated, AuthResult}
use authorino.Pipeline.Phases.{Schedule}
use authorino.Pipeline.Evaluate.{evaluate}
use authorino.RadixTree.{Entry, found}
use authorino.RadixTree.Paths.{entry_at}
use authorino.Index.{KeyMap, AuthConfigTree, keys_of, empty}
use authorino.Index.Keys.{holds_path}
use authorino.Index.WellFormed.{IsWellFormed}
use authorino.Controllers.Linking.{Linking, add_to_index}
use authorino.Controllers.Division.{
  AllHosts, AllHosts-Divided, Grows, Divided-Grows, serves_all, serves_all-Grows,
  serves_all-Divided,
}
use authorino.Controllers.Hosts.{add_to_index-Links}
use authorino.Controllers.Reconciler.{
  Listed, some_hosts, bootstrap_hosts, deny_all, bootstrap_index,
}

none_held :
    {C : Type 0} (c : AuthConfigTree C) (id : Bytes) (q : List Bytes)
    → empty c ≡ true
    → holds_path q (keys_of id c.keys) ≢ true
unfolding empty
none_held c id q e h = no_keys c.keys e h
  where
    no_keys :
        (m : KeyMap)
        → (elim m as (λ k. Bool) [ [] ↦ true | _ ∷ _ ↦ false ]) ≡ true
        → holds_path q (keys_of id m) ≢ true
    no_keys [] e h = unfold holds_path keys_of in cc
    no_keys (k ∷ m) e h = cc

abbrev pub AllListed : List Listed → Type 0
AllListed [] = Unit
AllListed (item ∷ items) = AllHosts item.hosts × AllListed items

no_keys-AllHosts :
    {C : Type 0} (c : AuthConfigTree C) → empty c ≡ true → (j : Bytes) → AllHosts (keys_of j c.keys)
unfolding empty
no_keys-AllHosts c e j = no_keys c.keys e
  where
    no_keys :
        (m : KeyMap)
        → (elim m as (λ k. Bool) [ [] ↦ true | _ ∷ _ ↦ false ]) ≡ true
        → AllHosts (keys_of j m)
    no_keys [] e = unfold keys_of in tt
    no_keys (k ∷ m) e = cc

-- The index has a config for each host of each resource whose status has ready hosts.
abbrev pub serves_ready : {C : Type 0} → AuthConfigTree C → List Listed → Bool
serves_ready c [] = true
serves_ready c (item ∷ items) =
    (not (some_hosts item.hosts_ready) || serves_all c item.hosts) && serves_ready c items

module _ {C : Type 0} (busy : C) where
  -- What is stored is one config.
  abbrev pub IsOnly : Option (Entry C) → Type 0
  IsOnly none = Unit
  IsOnly (some e) = e.auth_config ≡ busy

  abbrev pub AllOnly : AuthConfigTree C → Type 0
  AllOnly c = (q : List Bytes) → IsOnly (entry_at c.root q)

  IsOnly-if :
      (test : Bool) (id : Bytes) (before after : Option (Entry C))
      → after ≡ (if test then some (record { id = id; auth_config = busy }) else before)
      → IsOnly before
      → IsOnly after
  IsOnly-if true id before after e h = rw e refl
  IsOnly-if false id before after e h = rw e h

  linked_step :
      (allow : Bool) (item : Listed) (items : List Listed) (c : AuthConfigTree C) (l : Linking C)
      → some_hosts item.hosts_ready ≡ true
      → add_to_index allow item.id busy item.hosts c ≡ found l
      → l.failed ≡ none
      → bootstrap_hosts allow busy (item ∷ items) c ≡ bootstrap_hosts allow busy items l.index
  unfolding bootstrap_hosts
  linked_step allow item items c l ready done ended = ground arith

  pub bootstrap_hosts-AllOnly :
      (allow : Bool) (items : List Listed) (c : AuthConfigTree C)
      → IsWellFormed c
      → AllOnly c
      → AllListed items
      → ((j : Bytes) → AllHosts (keys_of j c.keys))
      → (c' : AuthConfigTree C) × (bootstrap_hosts allow busy items c ≡ found (c', none))
        × IsWellFormed c'
        × AllOnly c'
        × ((j : Bytes) → AllHosts (keys_of j c'.keys))
        × Grows c c'
        × (serves_ready c' items ≡ true)
  unfolding bootstrap_hosts
  bootstrap_hosts-AllOnly allow [] c w d h ks = (c, refl, w, d, ks, (λ q before. before), refl)
  bootstrap_hosts-AllOnly allow (item ∷ items) c w d h ks =
      elim (Bool-cases (some_hosts item.hosts_ready)) [
        | inl ready ↦
            let (l, done, k) = add_to_index-Links allow item.id busy item.hosts c w h.0 in
            let denied : AllOnly l.index = λ q.
              IsOnly-if (holds_path q k.linked) item.id (entry_at c.root q)
                (entry_at l.index.root q) (k.entries q) (d q) in
            let kept : (j : Bytes) → AllHosts (keys_of j l.index.keys) =
              λ j. AllHosts-Divided allow item.id busy j k.divided w h.0 (ks j) in
            let (c', rest, w', d', ks', grows, served) =
              bootstrap_hosts-AllOnly allow items l.index k.well_formed denied h.1 kept in
            (
              c',
              linked_step allow item items c l ready done k.failed ∙ rest,
              w',
              d',
              ks',
              (λ q before. grows q (Divided-Grows allow item.id busy k.divided w h.0 q before)),
              rw
                  (
                    serves_all-Grows l.index c' item.hosts grows
                        (serves_all-Divided allow item.id busy k.divided w h.0),
                    served,
                  )
                  (ground arith),
            )
        | inr waiting ↦
            let (c', rest, w', d', ks', grows, served) =
              bootstrap_hosts-AllOnly allow items c w d h.1 ks in
            (c', rw (waiting, bootstrap_hosts) rest, w', d', ks', grows, rw (waiting, served) refl)
      ]

  pub no_keys-AllOnly : (c : AuthConfigTree C) → empty c ≡ true → IsWellFormed c → AllOnly c
  no_keys-AllOnly c e w q = elim (Option-cases (entry_at c.root q)) [
    | inl nothing ↦ rw nothing tt
    | inr (entry, here) ↦ absurd (none_held c entry.id q e (w.listed q entry here))
  ]

module _ {O : Type 0} (env : Env O) (pointer : ℕ) where
  abbrev pub busy : AuthConfig O
  busy = deny_all env.json.of_string pointer

  -- Whatever the schedule and the deadline, `Evaluate` of the config ends, and its code is
  -- UNAUTHENTICATED.
  abbrev pub Denies : AuthConfig O → Type 0
  Denies config =
      (schedule : Schedule O) (expired : Bool)
      → (end : AuthResult O × AuthPipeline O) × (evaluate env config schedule expired ≡ some end)
        × (end.0.code ≡ unauthenticated)

  deny_all-Denies : Denies busy
  unfolding evaluate deny_all
  deny_all-Denies schedule expired = (_, refl, refl)

  -- What is stored is the config that denies all, and it does.
  abbrev pub IsDenied : Option (Entry (AuthConfig O)) → Type 0
  IsDenied none = Unit
  IsDenied (some e) = (e.auth_config ≡ busy) × Denies e.auth_config

  abbrev pub AllDeny : AuthConfigTree (AuthConfig O) → Type 0
  AllDeny c = (q : List Bytes) → IsDenied (entry_at c.root q)

  IsOnly-IsDenied : (o : Option (Entry (AuthConfig O))) → IsOnly busy o → IsDenied o
  IsOnly-IsDenied none h = tt
  IsOnly-IsDenied (some e) h = (h, subst Denies (sym h) deny_all-Denies)

  -- On a well-formed index with no keys, `bootstrapIndex` with the list of the resources ends without
  -- an error, in a well-formed index. It serves, by exact match or wildcard, each host of each
  -- resource whose status has ready hosts. Every entry of it has the config `denyAll`, and whatever
  -- the schedule and the deadline, `Evaluate` of that config ends with the code UNAUTHENTICATED. The
  -- hosts of the resources are names that are not empty and do not begin with a dot.
  pub bootstrap_index-AllDeny :
      (allow : Bool) (items : List Listed) (c : AuthConfigTree (AuthConfig O))
      → IsWellFormed c
      → empty c ≡ true
      → AllListed items
      → (c' : AuthConfigTree (AuthConfig O)) × (bootstrap_index env.json.of_string pointer allow
            (ok items)
            c
          ≡ found (c', none))
        × IsWellFormed c'
        × AllDeny c'
        × (serves_ready c' items ≡ true)
  unfolding bootstrap_index
  bootstrap_index-AllDeny allow items c w e h =
      let (c', run, w', d, _, _, served) =
        bootstrap_hosts-AllOnly busy allow items c w (no_keys-AllOnly busy c e w) h
          (no_keys-AllHosts c e) in
      (c', rw (e, bootstrap_index) run, w', λ q. IsOnly-IsDenied (entry_at c'.root q) (d q), served)

  -- An end of `bootstrapIndex`: the index as it was, or, if it was empty, one that denies all.
  abbrev pub Bootstrapped : AuthConfigTree (AuthConfig O) → AuthConfigTree (AuthConfig O) → Type 0
  Bootstrapped c c' = (c' ≡ c) ⊎ ((empty c ≡ true) × AllDeny c')

  abbrev pub ListedHosts : Outcome (List Listed) → Type 0
  ListedHosts (ok items) = AllListed items
  ListedHosts (err e) = Unit

  pub bootstrap_index-Bootstrapped :
      (allow : Bool) (id : Bytes) (listed : Outcome (List Listed))
      (c : AuthConfigTree (AuthConfig O))
      → IsWellFormed c
      → ListedHosts listed
      → AllHosts (keys_of id c.keys)
      → (c' : AuthConfigTree (AuthConfig O)) × (failed : Option Bytes) × (bootstrap_index
            env.json.of_string pointer allow listed c
          ≡ found (c', failed))
        × IsWellFormed c'
        × AllHosts (keys_of id c'.keys)
        × Bootstrapped c c'
  unfolding bootstrap_index
  bootstrap_index-Bootstrapped allow id listed c w h ks = elim (Bool-cases (empty c)) [
    | inr full ↦ (c, none, rw (full, bootstrap_index) refl, w, ks, inl refl)
    | inl e ↦ go listed h e
  ]
    where
      go :
          (listed : Outcome (List Listed))
          → ListedHosts listed
          → empty c ≡ true
          → (c' : AuthConfigTree (AuthConfig O)) × (failed : Option Bytes) × (bootstrap_index
                env.json.of_string pointer allow listed c
              ≡ found (c', failed))
            × IsWellFormed c'
            × AllHosts (keys_of id c'.keys)
            × Bootstrapped c c'
      go (err m) h e = (c, some m, rw (e, bootstrap_index) refl, w, ks, inl refl)
      go (ok items) h e =
          let (c', run, w', d, hosts, _, _) =
            bootstrap_hosts-AllOnly busy allow items c w (no_keys-AllOnly busy c e w) h
              (no_keys-AllHosts c e) in
          (
            c',
            none,
            rw (e, bootstrap_index) run,
            w',
            hosts id,
            inr (e, λ q. IsOnly-IsDenied (entry_at c'.root q) (d q)),
          )
