-- ===== src/Controllers/Behind.antt =====
-- `Reconcile` of controllers/auth_config_controller.go, behind the bootstrap of the index.

use authorino.Common.{
  Bytes, codes, bytes_eq, bytes_eq_refl, Bool, true, Option, none, some, List, [], ◌∷◌, Outcome, ok,
  err, ◌≡◌, refl, Bool-cases, inl, inr, if◌then◌else◌,
}
use authorino.Evaluators.{StringMap, put_string, get_string_key}
use authorino.RadixTree.{Search, found}
use authorino.RadixTree.Paths.{entry_at}
use authorino.Index.{AuthConfigTree, find_keys, keys_of}
use authorino.Index.WellFormed.{IsWellFormed}
use authorino.Index.Lookup.{get_lem}
use authorino.Index.Delete.{delete_lem}
use authorino.Api.V1beta1
use authorino.Controllers.Linking.{Linking}
use authorino.Controllers.Division.{AllHosts}
use authorino.Controllers.Hosts.{SameOthers}
use authorino.Controllers.Reindexing.{unless_owned-deleted, Reindexed, reindex-Reindexed}
use authorino.Controllers.Reports.{
  Report, StatusReportMap, get_report, set_report, clear_report, reconciling, reconciled,
  invalid_resource, hosts_not_linked,
}
use authorino.Controllers.Reconciler.{
  Fetched, fetch_failed, not_found, got, Reconciler, Reconciliation, some_hosts, first_config,
  clean_configs, deindex, report_linked, index_resource, reconcile_resource,
}

-- The hosts of a resource that is there.
abbrev pub FetchedHosts : {L M T : Type 0} → Fetched (V1beta1.AuthConfig L M T) → Type 0
FetchedHosts (fetch_failed e) = Unit
FetchedHosts not_found = Unit
FetchedHosts (got resource) = AllHosts resource.spec.hosts

module _ {V : Type 0} where
  pub get_string_key-put_string :
      (k : Bytes) (v : V) (m : StringMap V) → get_string_key k (put_string k v m) ≡ some v
  unfolding get_string_key put_string
  get_string_key-put_string k v [] = rw (bytes_eq_refl k)
  get_string_key-put_string k v ((j, w) ∷ m) = elim (Bool-cases (bytes_eq j k)) [
    | inl same ↦ rw (same, same)
    | inr other ↦ rw (other, other) (get_string_key-put_string k v m)
  ]

-- The report of a resource that was indexed.
abbrev pub report_of : List Bytes → List Bytes → Report
report_of linked loose =
    if some_hosts loose
    then record {
      reason = hosts_not_linked;
      message = codes "one or more hosts are not linked to the resource";
      linked_hosts = linked;
    }
    else record { reason = reconciled; message = []; linked_hosts = linked }

module _ {C : Type 0} where
  get_report-report_linked :
      (id : Bytes) (l : Linking C) (reports : StatusReportMap)
      → l.failed ≡ none
      → get_report id (report_linked id l reports) ≡ some (report_of l.linked_hosts l.loose_hosts)
  unfolding get_report report_linked set_report
  get_report-report_linked id l reports e = elim (Bool-cases (some_hosts l.loose_hosts)) [
    | inl loose ↦ rw (e, loose) (get_string_key-put_string id _ reports)
    | inr linked ↦ rw (e, linked) (get_string_key-put_string id _ reports)
  ]

  clean_configs-found :
      (c : AuthConfigTree C) (id : Bytes)
      → IsWellFormed c
      → AllHosts (keys_of id c.keys)
      → (cleaned : Option C) × (clean_configs c id ≡ found cleaned)
  unfolding clean_configs find_keys
  clean_configs-found c id w h = first c (keys_of id c.keys) w h
    where
      first :
          (c : AuthConfigTree C) (ks : List Bytes)
          → IsWellFormed c
          → AllHosts ks
          → (cleaned : Option C) × (first_config c ks ≡ found cleaned)
      first c [] w h = (none, refl)
      first c (k ∷ ks) w h = (_, get_lem c k w h.0)

  -- What the end of `Reconcile` behind the bootstrap leaves alone.
  abbrev pub IsSafeBehind : Bytes → Reconciler C → Search (Reconciliation C) → Type 0
  IsSafeBehind id r s =
      (n : Reconciliation C) × (s ≡ found n)
      × IsWellFormed n.after.index
      × SameOthers id r.index n.after.index

  deindex-IsSafeBehind :
      (id : Bytes) (r s : Reconciler C)
      → s.index ≡ r.index
      → IsWellFormed r.index
      → AllHosts (keys_of id r.index.keys)
      → IsSafeBehind id r (deindex id s)
  unfolding deindex
  deindex-IsSafeBehind id r s e w h =
      let (cleaned, clean) = clean_configs-found r.index id w h in
      let (c, deleted, wc, same, left) = delete_lem r.index id w in
      (
        record {
          after = record { index = c; reports = clear_report id s.reports };
          failed = none;
          cleaned = cleaned;
        },
        rw (e, clean, deleted),
        wc,
        λ q. unless_owned-deleted id true (entry_at r.index.root q) (entry_at c.root q) (left q),
      )

  index_resource-IsSafeBehind :
      (allow : Bool) (id : Bytes) (translated : Outcome C) (hosts : List Bytes) (r s : Reconciler C)
      → s.index ≡ r.index
      → IsWellFormed r.index
      → AllHosts (keys_of id r.index.keys)
      → AllHosts hosts
      → IsSafeBehind id r (index_resource allow id translated hosts s)
  unfolding index_resource
  index_resource-IsSafeBehind allow id (err m) hosts r s e w h k =
      let (cleaned, clean) = clean_configs-found r.index id w h in
      (
        record {
          after = record {
            index = r.index;
            reports = set_report id invalid_resource m [] s.reports;
          };
          failed = some m;
          cleaned = cleaned;
        },
        rw (e, clean),
        w,
        λ q. refl,
      )
  index_resource-IsSafeBehind allow id (ok config) hosts r s e w h k =
      let (cleaned, clean) = clean_configs-found r.index id w h in
      let (l, done, x) = reindex-Reindexed allow id config hosts r.index w k in
      (
        record {
          after = record { index = l.index; reports = report_linked id l s.reports };
          failed = l.failed;
          cleaned = cleaned;
        },
        rw (e, clean, done),
        x.well_formed,
        x.others,
      )

  module _ {L M T : Type 0} (allow : Bool) (watched : M → Bool)
      (translate_auth_config : V1beta1.AuthConfig L M T → Outcome C) where
    abbrev started : Bytes → Reconciler C → Reconciler C
    started id r = record r { reports = set_report id reconciling [] [] r.reports }

    pub reconcile_resource-IsSafeBehind :
        (id : Bytes) (fetched : Fetched (V1beta1.AuthConfig L M T)) (r : Reconciler C)
        → IsWellFormed r.index
        → AllHosts (keys_of id r.index.keys)
        → FetchedHosts fetched
        → IsSafeBehind id r (reconcile_resource allow watched translate_auth_config id fetched r)
    unfolding reconcile_resource
    reconcile_resource-IsSafeBehind id (fetch_failed e) r w h k =
        (record { after = started id r; failed = some e; cleaned = none }, refl, w, λ q. refl)
    reconcile_resource-IsSafeBehind id not_found r w h k =
        deindex-IsSafeBehind id r (started id r) refl w h
    reconcile_resource-IsSafeBehind id (got resource) r w h k =
        elim (Bool-cases (watched resource.object_meta)) [
          | inl seen ↦ rw seen (
              index_resource-IsSafeBehind allow id (translate_auth_config resource)
                resource.spec.hosts r (started id r) refl w h k)
          | inr ignored ↦ rw ignored (deindex-IsSafeBehind id r (started id r) refl w h)
        ]

    pub reconcile_resource-report_of :
        (id : Bytes) (resource : V1beta1.AuthConfig L M T) (config : C) (r : Reconciler C)
        → IsWellFormed r.index
        → AllHosts (keys_of id r.index.keys)
        → AllHosts resource.spec.hosts
        → watched resource.object_meta ≡ true
        → translate_auth_config resource ≡ ok config
        → (n : Reconciliation C) × (l : Linking C) × (reconcile_resource allow watched
              translate_auth_config id
              (got resource)
              r
            ≡ found n)
          × (n.after.index ≡ l.index)
          × Reindexed id config resource.spec.hosts r.index l
          × (get_report id n.after.reports ≡ some (report_of l.linked_hosts l.loose_hosts))
    unfolding reconcile_resource index_resource
    reconcile_resource-report_of id resource config r w h k seen translated =
        let (cleaned, clean) = clean_configs-found r.index id w h in
        let (l, done, x) = reindex-Reindexed allow id config resource.spec.hosts r.index w k in
        let reports = (started id r).reports in
        (
          record {
            after = record { index = l.index; reports = report_linked id l reports };
            failed = l.failed;
            cleaned = cleaned;
          },
          l,
          rw (seen, translated, clean, done),
          refl,
          x,
          get_report-report_linked id l reports x.failed,
        )
