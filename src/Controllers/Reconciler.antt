-- ===== src/Controllers/Reconciler.antt =====
-- controllers/auth_config_controller.go: `Reconcile`, `cleanConfigs`, `bootstrapIndex` and `Ready`.
-- What the client of Kubernetes answers, the selector of labels, and the config that a resource is
-- translated to, or the error of its translation, are arguments. What does not depend on the configs
-- in the index has them of a type `C`. Logs are left out; of the workers that `cleanConfigs` stops,
-- the config that holds them is what it gives.

use authorino.Common.{
  ℕ, Bytes, codes, bytes_eq, Bool, true, false, Option, none, some, List, [], ◌∷◌, Outcome, ok, err,
  if◌then◌else◌,
}
use authorino.RadixTree.{Search, found}
use authorino.Index.{AuthConfigTree, ◌>>=◌, get, find_keys, delete, empty}
use authorino.Common.Int.{pos}
use authorino.Jsonexp.{nil}
use authorino.Evaluators.{Config, AuthConfig}
use authorino.Api.V1beta1
use authorino.Controllers.Linking.{Linking, slice_contains, reindex, add_to_index}
use authorino.Controllers.Reports.{
  StatusReportMap, set_report, clear_report, reconciling, reconciled, invalid_resource,
  hosts_not_linked, caching_error,
}

-- The answer to `Get`.
pub data Fetched (R : Type 0) : Type 0 where
  fetch_failed : Bytes → Fetched R
  not_found : Fetched R
  got : R → Fetched R

pub record Reconciler (C : Type 0) : Type 0 where
  pub index : AuthConfigTree C
  pub reports : StatusReportMap

-- The state that `Reconcile` leaves, its error, and the config that it cleaned.
pub record Reconciliation (C : Type 0) : Type 0 where
  pub after : Reconciler C
  pub failed : Option Bytes
  pub cleaned : Option C

-- A resource in the list of `bootstrapIndex`: its id, its hosts, and those that its status names.
pub record Listed : Type 0 where
  pub id : Bytes
  pub hosts : List Bytes
  pub hosts_ready : List Bytes

unfoldable pub some_hosts : List Bytes → Bool
some_hosts [] = false
some_hosts (h ∷ hs) = true

module _ {C : Type 0} where
  unfoldable pub first_config : AuthConfigTree C → List Bytes → Search (Option C)
  first_config c [] = found none
  first_config c (host ∷ hosts) = get c host

  -- `cleanConfigs`
  unfoldable pub clean_configs : AuthConfigTree C → Bytes → Search (Option C)
  unfolding first_config
  clean_configs c id = first_config c (find_keys c id)

  -- The branch for a resource that is gone or not to be watched.
  unfoldable pub deindex : Bytes → Reconciler C → Search (Reconciliation C)
  unfolding clean_configs
  deindex id r = do
    cleaned ← clean_configs r.index id
    c ← delete r.index id
    found (record {
      after = record { index = c; reports = clear_report id r.reports };
      failed = none;
      cleaned = cleaned;
    })

  -- The reports of the branch for a resource that is there, in their order.
  unfoldable pub report_linked : Bytes → Linking C → StatusReportMap → StatusReportMap
  unfolding some_hosts
  report_linked id l reports = elim l.failed [
    | some e ↦ set_report id caching_error e l.linked_hosts reports
    | none ↦
        if some_hosts l.loose_hosts
        then set_report id hosts_not_linked
            (codes "one or more hosts are not linked to the resource") l.linked_hosts reports
        else set_report id reconciled [] l.linked_hosts reports
  ]

  unfoldable pub index_resource :
      Bool → Bytes → Outcome C → List Bytes → Reconciler C → Search (Reconciliation C)
  unfolding clean_configs reindex report_linked
  index_resource allow id (err e) hosts r = do
    cleaned ← clean_configs r.index id
    found (record {
      after = record { index = r.index; reports = set_report id invalid_resource e [] r.reports };
      failed = some e;
      cleaned = cleaned;
    })
  index_resource allow id (ok config) hosts r = do
    cleaned ← clean_configs r.index id
    l ← reindex allow id config hosts r.index
    found (record {
      after = record { index = l.index; reports = report_linked id l r.reports };
      failed = l.failed;
      cleaned = cleaned;
    })

  -- The loop of `bootstrapIndex`, over the resources in the order of their creation.
  unfoldable pub bootstrap_hosts :
      Bool → C → List Listed → AuthConfigTree C → Search (AuthConfigTree C × Option Bytes)
  bootstrap_hosts allow deny_all [] c = found (c, none)
  bootstrap_hosts allow deny_all (item ∷ items) c = elim (some_hosts item.hosts_ready) [
    | false ↦ bootstrap_hosts allow deny_all items c
    | true ↦ do
      l ← add_to_index allow item.id deny_all item.hosts c
      elim l.failed [
        | some e ↦ found (l.index, some e)
        | none ↦ bootstrap_hosts allow deny_all items l.index
      ]
  ]

  module _ {L M T : Type 0} (allow : Bool) (watched : M → Bool)
      (translate_auth_config : V1beta1.AuthConfig L M T → Outcome C) where
    -- `Reconcile`, behind `bootstrapIndex`.
    unfoldable pub reconcile_resource :
        Bytes → Fetched (V1beta1.AuthConfig L M T) → Reconciler C → Search (Reconciliation C)
    unfolding deindex index_resource
    reconcile_resource id fetched r =
        let started : Reconciler C = record r {
          reports = set_report id reconciling [] [] r.reports;
        } in
        elim fetched [
          | fetch_failed e ↦ found (record { after = started; failed = some e; cleaned = none })
          | not_found ↦ deindex id started
          | got resource ↦
              if watched resource.object_meta
              then index_resource allow id (translate_auth_config resource) resource.spec.hosts
                  started
              else deindex id started
        ]

-- The policy of `NewDenyAllAuthorization`, at its address. What the policy answers is chosen by the
-- schedule.
unfoldable pub deny_all_authorization : ℕ → Config (Unit {0})
deny_all_authorization pointer = record {
  pointer = pointer;
  name = codes "deny-all";
  priority = pos 0;
  conditions = nil;
  settings = tt;
}

module _ {O : Type 0} (of_string : Bytes → O) (pointer : ℕ) where
  -- `denyAll` of `bootstrapIndex`.
  unfoldable pub deny_all : AuthConfig O
  unfolding deny_all_authorization
  deny_all = record {
    conditions = nil;
    identity_configs = [];
    metadata_configs = [];
    authorization_configs = deny_all_authorization pointer ∷ [];
    response_configs = [];
    callback_configs = [];
    unauthenticated = none;
    unauthorized = some (record {
      code = 503;
      message = some (record { static = of_string (codes "Busy"); pattern = [] });
      headers = [];
      body = none;
    });
  }

  -- `bootstrapIndex`, with the answer to `List`.
  unfoldable pub bootstrap_index :
      Bool
      → Outcome (List Listed)
      → AuthConfigTree (AuthConfig O)
      → Search (AuthConfigTree (AuthConfig O) × Option Bytes)
  unfolding bootstrap_hosts deny_all
  bootstrap_index allow listed c = elim (empty c) [
    | false ↦ found (c, none)
    | true ↦ elim listed [
      | err e ↦ found (c, some e)
      | ok items ↦ bootstrap_hosts allow deny_all items c
    ]
  ]

  module _ {L M T : Type 0} (allow : Bool) (watched : M → Bool)
      (translate_auth_config : V1beta1.AuthConfig L M T → Outcome (AuthConfig O)) where
    -- `Reconcile`, with the answers to `List` and `Get`; an error of `bootstrapIndex` is only logged.
    unfoldable pub reconcile :
        Bytes
        → Outcome (List Listed)
        → Fetched (V1beta1.AuthConfig L M T)
        → Reconciler (AuthConfig O)
        → Search (Reconciliation (AuthConfig O))
    unfolding bootstrap_index reconcile_resource
    reconcile id listed fetched r = do
      bootstrapped ← bootstrap_index allow listed r.index
      reconcile_resource allow watched translate_auth_config id fetched
          (record r { index = bootstrapped.0 })

-- The loop of `Ready`: the id and the reason of a resource that is not reconciled.
unfoldable pub unready : StatusReportMap → Option (Bytes × Bytes)
unready [] = none
unready ((id, report) ∷ m) =
    let rest = unready m in
    if bytes_eq report.reason reconciled then rest else some (id, report.reason)

-- `Ready`
unfoldable pub ready : List Bytes → StatusReportMap → Option (Bytes × Bytes)
unfolding unready slice_contains
ready includes reports =
    if slice_contains includes (codes "authconfigs") then unready reports else none
