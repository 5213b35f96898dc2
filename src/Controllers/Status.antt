-- ===== src/Controllers/Status.antt =====
-- controllers/auth_config_status_updater.go: the conditions and the summary of a resource. The
-- answers of the cluster, the selector of labels and the time are arguments; logs are left out.
pub mod Conditions
pub mod Summaries
pub mod Updates
pub mod Readiness
mod Tests
use authorino.Common.{
  Bytes, codes, bytes_eq, is_empty, join, Bool, true, false, not, ◌&&◌, ◌||◌, Option, none, some,
  List, [], ◌∷◌, ◌++◌, length, is_some, if◌then◌else◌,
}
use authorino.Common.Int.{pos, eq_ℤ}
use authorino.Api.V1beta1
use authorino.Api.V1beta1.Resource.{
  Condition, Summary, AuthConfigStatus, AuthConfigSpec, status_ready,
}
use authorino.Api.V1beta1.Evaluators.{
  Response, response_type, response_wristband, response_dynamic_json, response_plain,
  response_unknown,
}
use authorino.Evaluators.{put_string}
use authorino.Controllers.Linking.{subtract_slice}
use authorino.Controllers.Strings.{Unicode, sort_strings, decimal, capitalize_string}
use authorino.Controllers.Reports.{
  Report, StatusReportMap, get_report, reconciled, hosts_linked, hosts_not_linked, unknown_reason,
}
use authorino.Controllers.Reconciler.{Fetched, fetch_failed, not_found, got, some_hosts}

abbrev pub available_type : Bytes
available_type = codes "Available"

abbrev pub ready_type : Bytes
ready_type = codes "Ready"

abbrev pub condition_true : Bytes
condition_true = codes "True"

abbrev pub condition_false : Bytes
condition_false = codes "False"

module _ {T : Type 0} where
  -- The loop of `updateStatusConditions`; `new` has the time of the update.
  unfoldable pub update_condition : List (Condition T) → Condition T → List (Condition T) × Bool
  update_condition [] new = (new ∷ [], true)
  update_condition (c ∷ cs) new =
      let rest = update_condition cs new in
      if bytes_eq c.condition_type new.condition_type
      then (if bytes_eq c.status new.status
          then (if bytes_eq c.reason new.reason && bytes_eq c.message new.message
              then (c ∷ cs, false)
              else (record new { last_transition_time = c.last_transition_time } ∷ cs, true))
          else (new ∷ cs, true))
      else (c ∷ rest.0, rest.1)

  -- `updateStatusConditions`; a list without conditions is the same as none.
  unfoldable pub update_status_conditions :
      T → List (Condition T) → Condition T → List (Condition T) × Bool
  unfolding update_condition
  update_status_conditions now current new =
      update_condition current (record new { last_transition_time = now })

  -- The condition of `updateStatusAvailable`.
  unfoldable pub available_condition : Unicode → T → Bool → Condition T
  unfolding capitalize_string
  available_condition u now available = record {
    condition_type = available_type;
    status = if available then condition_true else condition_false;
    last_transition_time = now;
    reason = if available then hosts_linked else hosts_not_linked;
    message =
        capitalize_string u (if available then [] else codes "No hosts linked to the resource");
    last_updated_time = none;
  }

  -- `updateStatusAvailable`
  unfoldable pub update_status_available :
      Unicode → T → Bool → AuthConfigStatus T → AuthConfigStatus T × Bool
  unfolding update_status_conditions available_condition
  update_status_available u now available s =
      let r = update_status_conditions now s.conditions (available_condition u now available) in
      (record s { conditions = r.0 }, r.1)

  -- The condition of `updateStatusReady`.
  unfoldable pub ready_condition : Unicode → T → Bool → Bytes → Bytes → Condition T
  unfolding capitalize_string is_empty
  ready_condition u now is_ready reason message = record {
    condition_type = ready_type;
    status = if is_ready then condition_true else condition_false;
    last_transition_time = now;
    reason = if is_ready then reconciled else if is_empty reason then unknown_reason else reason;
    message = capitalize_string u (if is_ready then [] else message);
    last_updated_time = none;
  }

  -- `updateStatusReady`
  unfoldable pub update_status_ready :
      Unicode → T → Bool → Bytes → Bytes → AuthConfigStatus T → AuthConfigStatus T × Bool
  unfolding update_status_conditions ready_condition
  update_status_ready u now is_ready reason message s =
      let r =
        update_status_conditions now s.conditions (ready_condition u now is_ready reason message) in
      (record s { conditions = r.0 }, r.1)

-- `issuingWristbands`
unfoldable pub issuing_wristbands : List Response → Bool
unfolding response_type
issuing_wristbands [] = false
issuing_wristbands (r ∷ rs) =
    let rest = issuing_wristbands rs in
    elim (response_type r) [
      | response_wristband ↦ true
      | response_dynamic_json ↦ rest
      | response_plain ↦ rest
      | response_unknown ↦ rest
    ]

module _ {L : Type 0} where
  -- The summary that `updateStatusSummary` builds, with its hosts in order.
  unfoldable pub summary_of : AuthConfigSpec L → Bool → List Bytes → Summary
  unfolding decimal sort_strings issuing_wristbands
  summary_of spec is_ready linked = record {
    ready = is_ready;
    hosts_ready = sort_strings linked;
    num_hosts_ready = decimal (length linked) ++ (codes "/" ++ decimal (length spec.hosts));
    num_identity_sources = pos (length spec.identity);
    num_metadata_sources = pos (length spec.metadata);
    num_authorization_policies = pos (length spec.authorization);
    num_response_items = pos (length spec.response);
    festival_wristband_enabled = issuing_wristbands spec.response;
  }

unfoldable pub eq_bool : Bool → Bool → Bool
eq_bool true b = b
eq_bool false b = not b

-- Whether two summaries agree, their hosts as text; the second's hosts are in order.
unfoldable pub same_summary : Summary → Summary → Bool
unfolding eq_bool sort_strings join
same_summary new current =
    eq_bool new.ready current.ready
    && (bytes_eq new.num_hosts_ready current.num_hosts_ready
        && (bytes_eq (join 44 (sort_strings current.hosts_ready)) (join 44 new.hosts_ready)
            && (eq_ℤ new.num_identity_sources current.num_identity_sources
                && (eq_ℤ new.num_metadata_sources current.num_metadata_sources
                    && (eq_ℤ new.num_authorization_policies current.num_authorization_policies
                        && (eq_ℤ new.num_response_items current.num_response_items
                            && eq_bool new.festival_wristband_enabled
                                current.festival_wristband_enabled))))))

-- The end of `updateStatusSummary`, which has sorted the hosts of the status in place.
unfoldable pub replace_summary :
    {T : Type 0} → Summary → AuthConfigStatus T → AuthConfigStatus T × Bool
unfolding same_summary sort_strings
replace_summary new s =
    let changed = not (same_summary new s.summary) in
    (
      record s {
        summary =
            if changed
            then new
            else record s.summary { hosts_ready = sort_strings s.summary.hosts_ready };
      },
      changed,
    )

module _ {L T : Type 0} where
  -- `updateStatusSummary`
  unfoldable pub update_status_summary :
      AuthConfigSpec L → List Bytes → AuthConfigStatus T → AuthConfigStatus T × Bool
  unfolding replace_summary summary_of status_ready
  update_status_summary spec linked s = replace_summary (summary_of spec (status_ready s) linked) s

-- The reason, the message and the hosts of the report, or none of them.
unfoldable pub reported : Option Report → Report
reported none = record { reason = []; message = []; linked_hosts = [] }
reported (some report) = report

-- The report of the map shares its hosts with the summary, which sorts them.
unfoldable pub sort_report : Bytes → Option Report → StatusReportMap → StatusReportMap
unfolding sort_strings put_string
sort_report id none reports = reports
sort_report id (some r) reports =
    put_string id (record r { linked_hosts = sort_strings r.linked_hosts }) reports

-- The status that an update leaves, whether it is sent to the cluster, the error, and the reports.
pub record StatusUpdate (T : Type 0) : Type 0 where
  pub status : AuthConfigStatus T
  pub sent : Bool
  pub failed : Option Bytes
  pub reports : StatusReportMap

unfoldable pub not_ready : Bool → Option Bytes
not_ready is_ready = if is_ready then none else some (codes "resource not ready")

module _ {L : Type 0} where
  -- The test of `updateAuthConfigStatus` that the resource is ready.
  unfoldable pub all_linked : AuthConfigSpec L → Report → Bool
  unfolding some_hosts subtract_slice
  all_linked spec r =
      not (some_hosts (subtract_slice spec.hosts r.linked_hosts)) && bytes_eq r.reason reconciled

module _ {L T : Type 0} where
  -- The three updates of `updateAuthConfigStatus`.
  unfoldable pub update_statuses :
      Unicode → T → AuthConfigSpec L → Report → AuthConfigStatus T → AuthConfigStatus T × Bool
  unfolding update_status_available update_status_ready update_status_summary all_linked some_hosts
  update_statuses u now spec r s =
      let a = update_status_available u now (some_hosts r.linked_hosts) s in
      let b = update_status_ready u now (all_linked spec r) r.reason r.message a.0 in
      let c = update_status_summary spec r.linked_hosts b.0 in (c.0, c.1 || (b.1 || a.1))

module _ {L M T : Type 0} where
  -- `updateAuthConfigStatus`; `refused` is the error of `Status().Update`.
  unfoldable pub update_auth_config_status :
      Unicode
      → T
      → Option Bytes
      → Bytes
      → StatusReportMap
      → V1beta1.AuthConfig L M T
      → StatusUpdate T
  unfolding update_statuses reported sort_report get_report not_ready status_ready
  update_auth_config_status u now refused id reports resource =
      let report = get_report id reports in
      let s = update_statuses u now resource.spec (reported report) resource.status in
      let unready = not_ready (status_ready s.0) in
      record {
        status = s.0;
        sent = s.1;
        failed = if s.1 then elim refused [ none ↦ unready | some e ↦ some e ] else unready;
        reports = sort_report id report reports;
      }

-- The answer of `Reconcile`, and the update it made.
pub record StatusReconciliation (T : Type 0) : Type 0 where
  pub requeue : Bool
  pub failed : Option Bytes
  pub update : Option (StatusUpdate T)

unfoldable pub status_updated : {T : Type 0} → StatusUpdate T → StatusReconciliation T
status_updated n = record { requeue = is_some n.failed; failed = none; update = some n }

module _ {L M T : Type 0} where
  -- `AuthConfigStatusUpdater.Reconcile`
  unfoldable pub reconcile_status :
      Unicode
      → T
      → (M → Bool)
      → Option Bytes
      → Bytes
      → Fetched (V1beta1.AuthConfig L M T)
      → StatusReportMap
      → StatusReconciliation T
  unfolding update_auth_config_status status_updated
  reconcile_status u now watched refused id fetched reports = elim fetched [
    | fetch_failed e ↦ record { requeue = false; failed = some e; update = none }
    | not_found ↦ record { requeue = false; failed = none; update = none }
    | got resource ↦
        if watched resource.object_meta
        then status_updated (update_auth_config_status u now refused id reports resource)
        else record { requeue = false; failed = none; update = none }
  ]
