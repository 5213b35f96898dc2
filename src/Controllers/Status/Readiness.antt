-- ===== src/Controllers/Status/Readiness.antt =====
-- When `Reconcile` of controllers/auth_config_status_updater.go finds a resource ready.
use authorino.Common.{
  Bytes, bytes_eq, Bool, true, not, ◌&&◌, ◌||◌, Option, none, some, is_some, ◌≡◌, refl, ap, ◌∙◌,
  arith, Bool-cases, inl, inr, if◌then◌else◌,
}
use authorino.Api.V1beta1
use authorino.Api.V1beta1.Resource.{AuthConfigSpec, AuthConfigStatus, status_ready}
use authorino.Controllers.Strings.{Unicode}
use authorino.Controllers.Reports.{Report, StatusReportMap, get_report, reconciled}
use authorino.Controllers.Reconciler.{got, some_hosts}
use authorino.Controllers.Status.{
  available_type, condition_true, condition_false, available_condition, ready_condition, summary_of,
  replace_summary, update_status_summary, reported, StatusUpdate, not_ready, all_linked,
  update_statuses, update_auth_config_status, status_updated, reconcile_status,
}
use authorino.Controllers.Status.Summaries.{
  replace_summary-IsSettled, summary_of-sorted, same_summary-ready,
}
use authorino.Controllers.Status.Conditions.{has_status, said, is_ready-said}
use authorino.Controllers.Status.Updates.{
  contains_all, some_hosts-subtract_slice, conditions_updated, conditions_updated-Tells,
}

all_linked-contains_all :
    {L : Type 0} (spec : AuthConfigSpec L) (r : Report)
    → all_linked spec r ≡ (contains_all r.linked_hosts spec.hosts && bytes_eq r.reason reconciled)
unfolding all_linked
all_linked-contains_all spec r =
    ap (λ b. b && bytes_eq r.reason reconciled)
      (some_hosts-subtract_slice spec.hosts r.linked_hosts)

if_true : (b : Bool) → bytes_eq (if b then condition_true else condition_false) condition_true ≡ b
unfolding bytes_eq
if_true b = elim (Bool-cases b) [ inl e ↦ rw e refl | inr e ↦ rw e refl ]

module _ {L T : Type 0} (u : Unicode) (now : T) (spec : AuthConfigSpec L) (r : Report)
    (s : AuthConfigStatus T) where
  conditions_updated-ready : status_ready (conditions_updated u now spec r s) ≡ all_linked spec r
  unfolding status_ready ready_condition
  conditions_updated-ready =
      is_ready-said (conditions_updated u now spec r s).conditions
      ∙ ap (has_status condition_true) (conditions_updated-Tells u now spec r s).1
      ∙ if_true (all_linked spec r)

  conditions_updated-available :
      has_status condition_true (said available_type (conditions_updated u now spec r s).conditions)
      ≡ some_hosts r.linked_hosts
  unfolding available_condition
  conditions_updated-available =
      ap (has_status condition_true) (conditions_updated-Tells u now spec r s).0
      ∙ if_true (some_hosts r.linked_hosts)

  update_statuses-ready : status_ready (update_statuses u now spec r s).0 ≡ all_linked spec r
  unfolding update_statuses update_status_summary replace_summary status_ready
  update_statuses-ready = conditions_updated-ready

  update_statuses-available :
      has_status condition_true (said available_type (update_statuses u now spec r s).0.conditions)
      ≡ some_hosts r.linked_hosts
  unfolding update_statuses update_status_summary replace_summary
  update_statuses-available = conditions_updated-available

  update_statuses-summary : (update_statuses u now spec r s).0.summary.ready ≡ all_linked spec r
  unfolding update_statuses update_status_summary summary_of
  update_statuses-summary =
      let b = conditions_updated u now spec r s in
      let new = summary_of spec (status_ready b) r.linked_hosts in
      same_summary-ready new (replace_summary new b).0.summary
        (replace_summary-IsSettled new b (summary_of-sorted spec (status_ready b) r.linked_hosts)).0
      ∙ conditions_updated-ready

failed_or_unready :
    (linked sent : Bool) (refused : Option Bytes)
    → is_some (
        if sent
        then elim refused [ none ↦ not_ready linked | some e ↦ some e ]
        else not_ready linked)
      ≡ (not linked || (sent && is_some refused))
unfolding not_ready
failed_or_unready linked sent refused = ground arith

module _ {L M T : Type 0} (u : Unicode) (now : T) (watched : M → Bool) (id : Bytes) where
  -- For a resource that is there and watched, `Reconcile` makes an update without an error of its
  -- own. Let the resource be linked if its report says that it is reconciled and each of its hosts
  -- is among the hosts of the report. Then the status is ready, and its summary says so, if and only
  -- if the resource is linked; the status is available if and only if the report has a host; and the
  -- resource is queued again if and only if it is not linked or the cluster refused the status.
  pub reconcile_status-ready :
      (refused : Option Bytes) (reports : StatusReportMap) (resource : V1beta1.AuthConfig L M T)
      → watched resource.object_meta ≡ true
      → let r = reported (get_report id reports) in
        let linked =
          contains_all r.linked_hosts resource.spec.hosts && bytes_eq r.reason reconciled in
        let answer = reconcile_status u now watched refused id (got resource) reports in
        (n : StatusUpdate T) × (answer.update ≡ some n)
        × (answer.failed ≡ none)
        × (status_ready n.status ≡ linked)
        × (n.status.summary.ready ≡ linked)
        × (has_status condition_true (said available_type n.status.conditions)
            ≡ some_hosts r.linked_hosts)
        × (answer.requeue ≡ (not linked || (n.sent && is_some refused)))
  unfolding update_auth_config_status reconcile_status status_updated
  reconcile_status-ready refused reports resource w =
      let r = reported (get_report id reports) in
      let n = update_auth_config_status u now refused id reports resource in
      let e = all_linked-contains_all resource.spec r in
      let is_ready = update_statuses-ready u now resource.spec r resource.status ∙ e in
      rw w (
        n,
        refl,
        refl,
        is_ready,
        update_statuses-summary u now resource.spec r resource.status ∙ e,
        update_statuses-available u now resource.spec r resource.status,
        failed_or_unready (status_ready n.status) n.sent refused
            ∙ ap (λ b. not b || (n.sent && is_some refused)) is_ready,
      )
