-- ===== src/Controllers/Status/Summaries.antt =====
-- The summary of a status.
use authorino.Common.{
  Bytes, bytes_eq_refl, join, Bool, true, false, List, ◌≡◌, refl, arith, Bool-cases, inl, inr,
}
use authorino.Common.Int.{eq_ℤ, eq_ℤ_iff}
use authorino.Api.V1beta1.Resource.{AuthConfigSpec, AuthConfigStatus, Summary}
use authorino.Controllers.Strings.{sort_strings, sort_strings_twice, length-sort_strings}
use authorino.Controllers.Status.{summary_of, eq_bool, same_summary, replace_summary}

eq_bool_refl : (b : Bool) → eq_bool b b ≡ true
unfolding eq_bool
eq_bool_refl b = ground arith

eq_ℤ_refl : (a : _) → eq_ℤ a a ≡ true
eq_ℤ_refl a = (eq_ℤ_iff a a).1 refl

same_summary_refl :
    (a : Summary) → sort_strings a.hosts_ready ≡ a.hosts_ready → same_summary a a ≡ true
unfolding same_summary
same_summary_refl a h =
    rw
      (
        h,
        eq_bool_refl a.ready,
        bytes_eq_refl a.num_hosts_ready,
        bytes_eq_refl (join 44 a.hosts_ready),
        eq_ℤ_refl a.num_identity_sources,
        eq_ℤ_refl a.num_metadata_sources,
        eq_ℤ_refl a.num_authorization_policies,
        eq_ℤ_refl a.num_response_items,
        eq_bool_refl a.festival_wristband_enabled,
      )
      refl

same_summary-sorted :
    (a b : Summary)
    → same_summary a b ≡ true
    → same_summary a (record b { hosts_ready = sort_strings b.hosts_ready }) ≡ true
unfolding same_summary
same_summary-sorted a b h = rw (sort_strings_twice b.hosts_ready) h

pub same_summary-ready : (a b : Summary) → same_summary a b ≡ true → b.ready ≡ a.ready
unfolding same_summary eq_bool
same_summary-ready a b h = ground (arith, h)

module _ {L : Type 0} where
  pub summary_of-sort_strings :
      (spec : AuthConfigSpec L) (b : Bool) (linked : List Bytes)
      → summary_of spec b (sort_strings linked) ≡ summary_of spec b linked
  unfolding summary_of
  summary_of-sort_strings spec b linked =
      rw (sort_strings_twice linked, length-sort_strings linked) refl

  pub summary_of-sorted :
      (spec : AuthConfigSpec L) (b : Bool) (linked : List Bytes)
      → sort_strings (summary_of spec b linked).hosts_ready ≡ (summary_of spec b linked).hosts_ready
  unfolding summary_of
  summary_of-sorted spec b linked = sort_strings_twice linked

module _ {T : Type 0} where
  pub replace_summary-IsSettled :
      (new : Summary) (s : AuthConfigStatus T)
      → sort_strings new.hosts_ready ≡ new.hosts_ready
      → (same_summary new (replace_summary new s).0.summary ≡ true)
        × (sort_strings (replace_summary new s).0.summary.hosts_ready
            ≡ (replace_summary new s).0.summary.hosts_ready)
  unfolding replace_summary
  replace_summary-IsSettled new s sorted = elim (Bool-cases (same_summary new s.summary)) [
    | inl same ↦
        rw same (same_summary-sorted new s.summary same, sort_strings_twice s.summary.hosts_ready)
    | inr differs ↦ rw differs (same_summary_refl new sorted, sorted)
  ]

  pub replace_summary_settled :
      (new : Summary) (s : AuthConfigStatus T)
      → same_summary new s.summary ≡ true
      → sort_strings s.summary.hosts_ready ≡ s.summary.hosts_ready
      → replace_summary new s ≡ (s, false)
  unfolding replace_summary
  replace_summary_settled new s same sorted = rw (same, sorted) refl
