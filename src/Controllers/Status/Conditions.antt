-- ===== src/Controllers/Status/Conditions.antt =====
-- The conditions of a status as the first of each type tells them.
use mathlib.Core.Option.{some-injective}
use authorino.Common.{
  Bytes, bytes_eq, bytes_eq_refl, bytes_eq_iff, Bool, true, false, ◌&&◌, Option, none, some, List,
  [], ◌∷◌, ◌≡◌, refl, ap, arith, Bool-cases, inl, inr, if◌then◌else◌,
}
use authorino.Api.V1beta1.Resource.{Condition, is_ready}
use authorino.Controllers.Status.{update_condition, ready_type, condition_true}

-- What a condition says: its status, its reason and its message.
pub record Said : Type 0 where
  pub status : Bytes
  pub reason : Bytes
  pub message : Bytes

abbrev pub says : {T : Type 0} → Condition T → Said
says c = record { status = c.status; reason = c.reason; message = c.message }

abbrev pub has_status : Bytes → Option Said → Bool
has_status status none = false
has_status status (some s) = bytes_eq s.status status

module _ {T : Type 0} where
  says_alike :
      (c new : Condition T)
      → bytes_eq c.status new.status ≡ true
      → (bytes_eq c.reason new.reason && bytes_eq c.message new.message) ≡ true
      → says c ≡ says new
  says_alike c new status alike =
      let status_same : c.status ≡ new.status = ground (arith, bytes_eq_iff c.status new.status) in
      let reason_same : c.reason ≡ new.reason = ground (arith, bytes_eq_iff c.reason new.reason) in
      let message_same : c.message ≡ new.message =
        ground (arith, bytes_eq_iff c.message new.message) in
      rw (status_same, reason_same, message_same) refl

  -- What the first condition of a type says.
  unfoldable pub said : Bytes → List (Condition T) → Option Said
  said t [] = none
  said t (c ∷ cs) =
      let rest = said t cs in if bytes_eq c.condition_type t then some (says c) else rest

  pub said-update_condition :
      (cs : List (Condition T)) (new : Condition T)
      → said new.condition_type (update_condition cs new).0 ≡ some (says new)
  unfolding said update_condition
  said-update_condition [] new = rw (bytes_eq_refl new.condition_type) refl
  said-update_condition (c ∷ cs) new =
      elim (Bool-cases (bytes_eq c.condition_type new.condition_type)) [
        | inr other ↦ rw (other, other) (said-update_condition cs new)
        | inl same ↦ elim (Bool-cases (bytes_eq c.status new.status)) [
          | inr differs ↦ rw (same, differs, bytes_eq_refl new.condition_type) refl
          | inl status ↦
              elim (Bool-cases (bytes_eq c.reason new.reason && bytes_eq c.message new.message)) [
                | inr differs ↦ rw (same, status, differs, bytes_eq_refl new.condition_type) refl
                | inl alike ↦
                    rw (same, status, alike, same) (ap some (says_alike c new status alike))
              ]
        ]
      ]

  pub said-update_condition_other :
      (t : Bytes) (cs : List (Condition T)) (new : Condition T)
      → bytes_eq new.condition_type t ≡ false
      → said t (update_condition cs new).0 ≡ said t cs
  unfolding said update_condition
  said-update_condition_other t [] new other = rw other refl
  said-update_condition_other t (c ∷ cs) new other = ground (
    arith,
    bytes_eq_iff c.condition_type new.condition_type,
    said-update_condition_other t cs new other,
  )

  pub update_condition_settled :
      (cs : List (Condition T)) (new : Condition T)
      → said new.condition_type cs ≡ some (says new)
      → update_condition cs new ≡ (cs, false)
  unfolding said update_condition
  update_condition_settled [] new e = ground (arith, e)
  update_condition_settled (c ∷ cs) new e =
      elim (Bool-cases (bytes_eq c.condition_type new.condition_type)) [
        | inr other ↦
            let rest : said new.condition_type cs ≡ some (says new) = ground (arith, e) in
            rw (other, update_condition_settled cs new rest) refl
        | inl same ↦
            let alike : says c ≡ says new =
              some-injective (says c) (says new) (ground (arith, e, same)) in
            rw
              (
                same,
                ap Said.status alike,
                bytes_eq_refl new.status,
                ap Said.reason alike,
                bytes_eq_refl new.reason,
                ap Said.message alike,
                bytes_eq_refl new.message,
              )
              refl
      ]

  pub is_ready-said :
      (cs : List (Condition T)) → is_ready cs ≡ has_status condition_true (said ready_type cs)
  unfolding said is_ready
  is_ready-said [] = refl
  is_ready-said (c ∷ cs) = elim (Bool-cases (bytes_eq c.condition_type ready_type)) [
    | inl h ↦ rw h refl
    | inr h ↦ rw h (is_ready-said cs)
  ]
