-- ===== src/Controllers/Status/Updates.antt =====
-- What `updateAuthConfigStatus` leaves, and what it does the next time.
use authorino.Common.{
  Bytes, bytes_eq, Bool, true, false, not, ◌&&◌, ◌||◌, Option, some, List, [], ◌∷◌, ◌≡◌, refl, ap,
  ◌∙◌, arith, Bool-cases, Option-cases, inl, inr,
}
use authorino.Evaluators.{get_string_key}
use authorino.Api.V1beta1
use authorino.Api.V1beta1.Resource.{AuthConfigSpec, AuthConfigStatus, status_ready}
use authorino.Controllers.Linking.{slice_contains, subtract_slice}
use authorino.Controllers.Strings.{
  Unicode, sort_strings, insert_string, subtract_slice-sort_strings,
}
use authorino.Controllers.Reports.{Report, StatusReportMap, get_report}
use authorino.Controllers.Behind.{get_string_key-put_string}
use authorino.Controllers.Reconciler.{some_hosts}
use authorino.Controllers.Status.{
  available_type, ready_type, update_status_conditions, available_condition,
  update_status_available, ready_condition, update_status_ready, summary_of, replace_summary,
  update_status_summary, reported, sort_report, all_linked, update_statuses,
  update_auth_config_status,
}
use authorino.Controllers.Status.Summaries.{
  replace_summary-IsSettled, replace_summary_settled, summary_of-sort_strings, summary_of-sorted,
}
use authorino.Controllers.Status.Conditions.{
  says, said, said-update_condition, said-update_condition_other, update_condition_settled,
}

-- Each host is among the linked ones.
abbrev pub contains_all : List Bytes → List Bytes → Bool
contains_all linked [] = true
contains_all linked (host ∷ hosts) = slice_contains linked host && contains_all linked hosts

pub some_hosts-subtract_slice :
    (hosts linked : List Bytes)
    → not (some_hosts (subtract_slice hosts linked)) ≡ contains_all linked hosts
unfolding some_hosts subtract_slice
some_hosts-subtract_slice [] linked = refl
some_hosts-subtract_slice (h ∷ hosts) linked = elim (Bool-cases (slice_contains linked h)) [
  | inl e ↦ rw e (some_hosts-subtract_slice hosts linked)
  | inr e ↦ rw e refl
]

some_hosts-sort_strings : (hs : List Bytes) → some_hosts (sort_strings hs) ≡ some_hosts hs
unfolding some_hosts sort_strings insert_string
some_hosts-sort_strings [] = refl
some_hosts-sort_strings (h ∷ hs) = inserted h (sort_strings hs)
  where
    inserted : (h : Bytes) (hs : List Bytes) → some_hosts (insert_string h hs) ≡ true
    inserted h [] = refl
    inserted h (k ∷ hs) = ground arith

abbrev sorted_report : Report → Report
sorted_report r = record r { linked_hosts = sort_strings r.linked_hosts }

reported-sort_report :
    (id : Bytes) (reports : StatusReportMap)
    → reported (get_report id (sort_report id (get_report id reports) reports))
      ≡ sorted_report (reported (get_report id reports))
unfolding reported sort_report get_report
reported-sort_report id reports = elim (Option-cases (get_string_key id reports)) [
  | inl absent ↦ rw (absent, absent) refl
  | inr (r, there) ↦ rw (there, get_string_key-put_string id _ reports) refl
]

ready_not_available : bytes_eq ready_type available_type ≡ false
unfolding bytes_eq
ready_not_available = refl

module _ {L T : Type 0} where
  -- The conditions say what the report does.
  abbrev pub Tells : Unicode → T → AuthConfigSpec L → Report → AuthConfigStatus T → Type 0
  Tells u now spec r s =
      (said available_type s.conditions
        ≡ some (says (available_condition u now (some_hosts r.linked_hosts))))
      × (said ready_type s.conditions
          ≡ some (says (ready_condition u now (all_linked spec r) r.reason r.message)))

  -- The status as the summary is updated.
  abbrev pub conditions_updated :
      Unicode → T → AuthConfigSpec L → Report → AuthConfigStatus T → AuthConfigStatus T
  conditions_updated u now spec r s =
      (update_status_ready u now (all_linked spec r) r.reason r.message
        (update_status_available u now (some_hosts r.linked_hosts) s).0).0

  pub conditions_updated-Tells :
      (u : Unicode) (now : T) (spec : AuthConfigSpec L) (r : Report) (s : AuthConfigStatus T)
      → Tells u now spec r (conditions_updated u now spec r s)
  unfolding update_status_available update_status_ready update_status_conditions available_condition
      ready_condition
  conditions_updated-Tells u now spec r s =
      let a = update_status_available u now (some_hosts r.linked_hosts) s in
      (
        said-update_condition_other available_type a.0.conditions
              (ready_condition u now (all_linked spec r) r.reason r.message) ready_not_available
            ∙ said-update_condition s.conditions
                (available_condition u now (some_hosts r.linked_hosts)),
        said-update_condition a.0.conditions
            (ready_condition u now (all_linked spec r) r.reason r.message),
      )

module _ {T : Type 0} where
  update_status_available_settled :
      (u : Unicode) (now : T) (b : Bool) (s : AuthConfigStatus T)
      → said available_type s.conditions ≡ some (says (available_condition u now b))
      → update_status_available u now b s ≡ (s, false)
  unfolding update_status_available update_status_conditions available_condition
  update_status_available_settled u now b s e =
      ap (λ x. (record s { conditions = x.0 }, x.1))
        (update_condition_settled s.conditions (available_condition u now b) e)

  update_status_ready_settled :
      (u : Unicode) (now : T) (b : Bool) (reason message : Bytes) (s : AuthConfigStatus T)
      → said ready_type s.conditions ≡ some (says (ready_condition u now b reason message))
      → update_status_ready u now b reason message s ≡ (s, false)
  unfolding update_status_ready update_status_conditions ready_condition
  update_status_ready_settled u now b reason message s e =
      ap (λ x. (record s { conditions = x.0 }, x.1))
        (update_condition_settled s.conditions (ready_condition u now b reason message) e)

all_linked-sorted_report :
    {L : Type 0} (spec : AuthConfigSpec L) (r : Report)
    → all_linked spec (sorted_report r) ≡ all_linked spec r
unfolding all_linked
all_linked-sorted_report spec r = rw (subtract_slice-sort_strings spec.hosts r.linked_hosts) refl

three_settled :
    {S : Type 0} (f g h : S → S × Bool) (s : S)
    → f s ≡ (s, false)
    → g s ≡ (s, false)
    → h s ≡ (s, false)
    → let a = f s in
      let b = g a.0 in let c = h b.0 in ◌≡◌ {A = S × Bool} (c.0, c.1 || (b.1 || a.1)) (s, false)
three_settled f g h s a b c = rw (a, b, c) refl

module _ {L T : Type 0} (u : Unicode) (spec : AuthConfigSpec L) where
  summary_settled :
      (now : T) (r : Report) (s : AuthConfigStatus T)
      → let s' = (update_statuses u now spec r s).0 in
        update_status_summary spec (sort_strings r.linked_hosts) s' ≡ (s', false)
  unfolding update_statuses update_status_summary replace_summary status_ready
  summary_settled now r s =
      let b = conditions_updated u now spec r s in
      let new = summary_of spec (status_ready b) r.linked_hosts in
      let settled =
        replace_summary-IsSettled new b (summary_of-sorted spec (status_ready b) r.linked_hosts) in
      ap (λ n. replace_summary n (replace_summary new b).0)
        (summary_of-sort_strings spec (status_ready b) r.linked_hosts)
      ∙ replace_summary_settled new (replace_summary new b).0 settled.0 settled.1

  update_statuses-Tells :
      (now now' : T) (r : Report) (s : AuthConfigStatus T)
      → Tells u now' spec (sorted_report r) (update_statuses u now spec r s).0
  unfolding update_statuses update_status_summary replace_summary available_condition
      ready_condition
  update_statuses-Tells now now' r s =
      rw (some_hosts-sort_strings r.linked_hosts, all_linked-sorted_report spec r)
        (conditions_updated-Tells u now spec r s)

  update_statuses_settled :
      (now : T) (r : Report) (s : AuthConfigStatus T)
      → update_status_available u now (some_hosts r.linked_hosts) s ≡ (s, false)
      → update_status_ready u now (all_linked spec r) r.reason r.message s ≡ (s, false)
      → update_status_summary spec r.linked_hosts s ≡ (s, false)
      → update_statuses u now spec r s ≡ (s, false)
  unfolding update_statuses
  update_statuses_settled now r s a b c =
      three_settled (update_status_available u now (some_hosts r.linked_hosts))
        (update_status_ready u now (all_linked spec r) r.reason r.message)
        (update_status_summary spec r.linked_hosts) s a b c

  update_statuses-again :
      (now now' : T) (r : Report) (s : AuthConfigStatus T)
      → let s' = (update_statuses u now spec r s).0 in
        update_statuses u now' spec (sorted_report r) s' ≡ (s', false)
  update_statuses-again now now' r s =
      let s' = (update_statuses u now spec r s).0 in
      let told = update_statuses-Tells now now' r s in
      update_statuses_settled now' (sorted_report r) s'
        (update_status_available_settled u now' _ s' told.0)
        (update_status_ready_settled u now' _ r.reason r.message s' told.1)
        (summary_settled now r s)

-- The config that the cluster has once the status is stored.
abbrev pub stored :
    {L M T : Type 0} → V1beta1.AuthConfig L M T → AuthConfigStatus T → V1beta1.AuthConfig L M T
stored resource status = record resource { status = status }

module _ {L M T : Type 0} (u : Unicode) (id : Bytes) where
  -- The status that an update left is not changed by the next update, at any time, with the reports
  -- that the first one left: nothing is sent, whatever the cluster answers to either update.
  pub update_auth_config_status-again :
      (now now' : T) (refused refused' : Option Bytes) (reports : StatusReportMap)
      (resource : V1beta1.AuthConfig L M T)
      → let n = update_auth_config_status u now refused id reports resource in
        let again =
          update_auth_config_status u now' refused' id n.reports (stored resource n.status) in
        (again.status ≡ n.status) × (again.sent ≡ false)
  unfolding update_auth_config_status
  update_auth_config_status-again now now' refused refused' reports resource =
      let r = reported (get_report id reports) in
      let s = (update_statuses u now resource.spec r resource.status).0 in
      let e =
        ap (λ x. update_statuses u now' resource.spec x s) (reported-sort_report id reports)
        ∙ update_statuses-again u resource.spec now now' r resource.status in
      (ap (λ x. x.0) e, ap (λ x. x.1) e)
