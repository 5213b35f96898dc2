-- ===== src/Service/Lookup.antt =====
-- The lookup of the host in `Check` of pkg/service/auth.go.
use mathlib.Core.Option
use authorino.Common.{
  Bytes, Option, none, some, ◌≡◌, refl, Bool-cases, inl, inr, ◌<|>◌, if◌then◌else◌,
}
use authorino.RadixTree.{Entry, found}
use authorino.RadixTree.Paths.{entry_at}
use authorino.RadixTree.Lookup.{resolve}
use authorino.Index.{AuthConfigTree}
use authorino.Index.Keys.{path_of, IsHost}
use authorino.Index.WellFormed.{IsWellFormed}
use authorino.Index.Lookup.{get-resolved}
use authorino.Service.{has_colon, without_port, retry, lookup}

module _ {C : Type 0} (c : AuthConfigTree C) where
  -- The config at the labels of a host name, or else of the wildcard right below it, or else of the
  -- nearest wildcard above it.
  abbrev pub config_for : Bytes → Option C
  config_for host =
      Option.map (λ (e : Entry C). e.auth_config) (resolve (entry_at c.root) (path_of host) none)

  retry_lem :
      (host : Bytes) (o : Option C)
      → IsWellFormed c
      → IsHost (without_port host)
      → retry c host o
        ≡ found (o <|> (if has_colon host then config_for (without_port host) else none))
  unfolding retry
  retry_lem host (some x) w h = refl
  retry_lem host none w h = elim (Bool-cases (has_colon host)) [
    | inl e ↦ rw e (get-resolved c (without_port host) w h)
    | inr e ↦ rw e refl
  ]

  -- On a well-formed index, for a host that with and without its port is neither empty nor begins
  -- with a dot, the lookup gives the config of the host, by exact match, by the wildcard right
  -- below it or by the nearest one above it; if there is none and the host has a colon, the config
  -- of the host without its port in the same way; else nothing.
  pub lookup_lem :
      (host : Bytes)
      → IsWellFormed c
      → IsHost host
      → IsHost (without_port host)
      → lookup c host
        ≡ found
            (config_for host <|> (if has_colon host then config_for (without_port host) else none))
  unfolding lookup
  lookup_lem host w h k =
      rw (get-resolved c host w h, lookup) (retry_lem host (config_for host) w k)
