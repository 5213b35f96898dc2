-- ===== src/Controllers/Status/Tests.antt =====
-- The status of a resource with two hosts, of which the report has one or both.
use authorino.Common.{
  ℕ, Bytes, codes, bytes_eq, not, ◌&&◌, ◌||◌, Bool, true, false, none, some, List, [], ◌∷◌, ◌==◌,
  if◌then◌else◌, is_some, ◌≡◌, refl,
}
use authorino.Common.Int.{pos}
use authorino.Evaluators.{get_string_key, put_string}
use authorino.Api.V1beta1
use authorino.Api.V1beta1.Base.{no_patterns}
use authorino.Api.V1beta1.Resource.{status_ready}
use authorino.Controllers.Strings.{Unicode, bytes_leb, decimal}
use authorino.Controllers.Reports.{
  StatusReportMap, get_report, set_report, reconciled, caching_error,
}
use authorino.Controllers.Reconciler.{got, some_hosts}
use authorino.Controllers.Status.{
  available_type, condition_true, reported, StatusUpdate, update_auth_config_status,
  reconcile_status,
}
use authorino.Controllers.Status.Conditions.{has_status, said}
use authorino.Controllers.Status.Updates.{contains_all, stored, update_auth_config_status-again}
use authorino.Controllers.Status.Readiness.{reconcile_status-ready}

abbrev ascii_upper : ℕ → ℕ
ascii_upper r = if r == 97 then 65 else r

abbrev ascii : Unicode
ascii = record { runes = λ s. s; text = λ rs. rs; to_upper = ascii_upper }

abbrev both_hosts : List Bytes
both_hosts = codes "b.io" ∷ codes "a.io" ∷ []

-- Times are numbers, and selectors have no content.
abbrev new_resource : V1beta1.AuthConfig (Unit {0}) (Unit {0}) ℕ
new_resource = record {
  object_meta = tt;
  spec = record {
    hosts = both_hosts;
    patterns = [];
    conditions = no_patterns;
    identity = [];
    metadata = [];
    authorization = [];
    response = [];
    callbacks = [];
    deny_with = none;
  };
  status = record {
    conditions = [];
    summary = record {
      ready = false;
      hosts_ready = [];
      num_hosts_ready = [];
      num_identity_sources = pos 0;
      num_metadata_sources = pos 0;
      num_authorization_policies = pos 0;
      num_response_items = pos 0;
      festival_wristband_enabled = false;
    };
  };
}

abbrev watched : Unit {0} → Bool
watched x = true

abbrev name : Bytes
name = codes "ns/one"

abbrev linked_reports : StatusReportMap
linked_reports = set_report name reconciled [] both_hosts []

abbrev updated : StatusUpdate ℕ
updated = update_auth_config_status ascii 7 none name linked_reports new_resource

decimal_ten : decimal 10 ≡ codes "10"
unfolding decimal
decimal_ten = refl

updated-summary :
    (updated.status.summary.num_hosts_ready ≡ codes "2/2")
    × (updated.status.summary.hosts_ready ≡ (codes "a.io" ∷ codes "b.io" ∷ []))
    × (updated.sent ≡ true)
unfolding update_auth_config_status set_report bytes_leb put_string get_report get_string_key
    bytes_eq
updated-summary = (refl, refl, refl)

update_auth_config_status-again_example :
    let again =
      update_auth_config_status ascii 8 none name updated.reports
        (stored new_resource updated.status) in
    (again.status ≡ updated.status) × (again.sent ≡ false)
update_auth_config_status-again_example =
    update_auth_config_status-again ascii name 7 8 none none linked_reports new_resource

abbrev partial_reports : StatusReportMap
partial_reports = set_report name caching_error (codes "again") (codes "a.io" ∷ []) []

reconcile_status-ready_example :
    let r = reported (get_report name partial_reports) in
    let linked = contains_all r.linked_hosts both_hosts && bytes_eq r.reason reconciled in
    let answer =
      reconcile_status ascii 7 watched
        (some (codes "conflict"))
        name
        (got new_resource)
        partial_reports in
    (n : StatusUpdate ℕ) × (answer.update ≡ some n)
    × (answer.failed ≡ none)
    × (status_ready n.status ≡ linked)
    × (n.status.summary.ready ≡ linked)
    × (has_status condition_true (said available_type n.status.conditions)
        ≡ some_hosts r.linked_hosts)
    × (answer.requeue ≡ (not linked || (n.sent && is_some (some (codes "conflict")))))
reconcile_status-ready_example =
    reconcile_status-ready ascii 7 watched name (some (codes "conflict")) partial_reports
      new_resource refl
