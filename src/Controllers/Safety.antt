-- ===== src/Controllers/Safety.antt =====
-- What `Reconcile` of controllers/auth_config_controller.go does to the index and to its reports.
use authorino.Common.{ℕ, Bytes, Bool, true, Option, some, List, Outcome, ok, ◌≡◌}
use authorino.Evaluators.{AuthConfig}
use authorino.Pipeline.{Env}
use authorino.RadixTree.{Search, found}
use authorino.Index.{AuthConfigTree, keys_of}
use authorino.Index.WellFormed.{IsWellFormed}
use authorino.Api.V1beta1
use authorino.Controllers.Linking.{Linking}
use authorino.Controllers.Division.{AllHosts}
use authorino.Controllers.Hosts.{SameOthers}
use authorino.Controllers.Bootstrap.{Bootstrapped, ListedHosts, bootstrap_index-Bootstrapped}
use authorino.Controllers.Reindexing.{Reindexed}
use authorino.Controllers.Reports.{get_report}
use authorino.Controllers.Reconciler.{
  Fetched, got, Reconciler, Reconciliation, Listed, bootstrap_index, reconcile,
}
use authorino.Controllers.Behind.{
  FetchedHosts, report_of, reconcile_resource-IsSafeBehind, reconcile_resource-report_of,
}

module _ {O : Type 0} (env : Env O) (pointer : ℕ) where
  -- What an end of `Reconcile` leaves alone: the entries of the other ids are those that the
  -- bootstrap left, which gave the index as it was, or, if that was empty, one that denies all.
  abbrev pub IsSafe :
      Bool
      → Bytes
      → Outcome (List Listed)
      → Reconciler (AuthConfig O)
      → Search (Reconciliation (AuthConfig O))
      → Type 0
  IsSafe allow id listed r s =
      (n : Reconciliation (AuthConfig O)) × (c : AuthConfigTree (AuthConfig O)) × (failed : Option
        Bytes)
      × (s ≡ found n)
      × (bootstrap_index env.json.of_string pointer allow listed r.index ≡ found (c, failed))
      × Bootstrapped env pointer r.index c
      × IsWellFormed n.after.index
      × SameOthers id c n.after.index

  module _ {L M T : Type 0} (allow : Bool) (watched : M → Bool)
      (translate_auth_config : V1beta1.AuthConfig L M T → Outcome (AuthConfig O)) where
    -- On a well-formed index, `Reconcile` of an id returns, whatever the answers of the cluster to
    -- `List` and `Get`, whether the resource is watched and whether it translates: its index is
    -- well-formed, and the entries of all other ids are those that `bootstrapIndex` left. That is the
    -- index as it was, or, if it had no keys, one whose every entry has the config `denyAll`, of which
    -- every evaluation ends with the code UNAUTHENTICATED. The keys of the id and the hosts of the
    -- resources are names that are not empty and do not begin with a dot.
    pub reconcile-IsSafe :
        (id : Bytes) (listed : Outcome (List Listed)) (fetched : Fetched (V1beta1.AuthConfig L M T))
        (r : Reconciler (AuthConfig O))
        → IsWellFormed r.index
        → AllHosts (keys_of id r.index.keys)
        → ListedHosts env pointer listed
        → FetchedHosts fetched
        → IsSafe allow id listed r (
            reconcile env.json.of_string pointer allow watched translate_auth_config id listed
              fetched r)
    unfolding reconcile
    reconcile-IsSafe id listed fetched r w h g k =
        let (c, failed, run, wc, hosts, b) =
          bootstrap_index-Bootstrapped env pointer allow id listed r.index w g h in
        let (n, done, wn, others) =
          reconcile_resource-IsSafeBehind allow watched translate_auth_config id fetched
            (record r { index = c }) wc hosts k in
        (n, c, failed, rw run done, run, b, wn, others)

    -- When `Reconcile` finds a resource that is watched and translates, each of its hosts is linked
    -- or loose, in the index that the bootstrap left: the one that was there, or, if that had no
    -- keys, one in which all entries deny. The index has the config for the id at the linked ones.
    -- The report says that the resource is reconciled if no host is loose, and else that hosts are
    -- not linked, with the linked hosts either way.
    pub reconcile-report_of :
        (id : Bytes) (listed : Outcome (List Listed)) (resource : V1beta1.AuthConfig L M T)
        (config : AuthConfig O) (r : Reconciler (AuthConfig O))
        → IsWellFormed r.index
        → AllHosts (keys_of id r.index.keys)
        → ListedHosts env pointer listed
        → AllHosts resource.spec.hosts
        → watched resource.object_meta ≡ true
        → translate_auth_config resource ≡ ok config
        → (n : Reconciliation (AuthConfig O)) × (l : Linking (AuthConfig O)) × (c : AuthConfigTree
            (AuthConfig O))
          × (failed : Option Bytes) × (reconcile env.json.of_string pointer allow watched
                translate_auth_config id listed
                (got resource)
                r
              ≡ found n)
          × (bootstrap_index env.json.of_string pointer allow listed r.index ≡ found (c, failed))
          × Bootstrapped env pointer r.index c
          × (n.after.index ≡ l.index)
          × Reindexed id config resource.spec.hosts c l
          × (get_report id n.after.reports ≡ some (report_of l.linked_hosts l.loose_hosts))
    unfolding reconcile
    reconcile-report_of id listed resource config r w h g k seen translated =
        let (c, failed, run, wc, hosts, b) =
          bootstrap_index-Bootstrapped env pointer allow id listed r.index w g h in
        let (n, l, done, same, indexed, report) =
          reconcile_resource-report_of allow watched translate_auth_config id resource config
            (record r { index = c }) wc hosts k seen translated in
        (n, l, c, failed, rw run done, run, b, same, indexed, report)
