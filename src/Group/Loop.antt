-- ===== src/Group/Loop.antt =====
-- pkg/service/auth_pipeline.go: the loop of a phase over its groups, in the order of the priorities.
use authorino.Common.{Bool, Option, none, some, List, [], ◌∷◌, ◌++◌, if◌then◌else◌}
use authorino.Group.{Stage, Event, Group, Phase, open_group, exec, complete}

-- How the loop over the groups of a phase ends: the state, whether the deadline has passed, and
-- what the phase has returned. The log is what the goroutines did, for the statements only.
pub record PhaseEnd (A O S R : Type 0) : Type 0 where
  pub state : S
  pub expired : Bool
  pub returned : Option R
  pub log : List (A × Stage O)

module _ {A O S R : Type 0} (p : Phase A O S R) where
  unfoldable pub end_group :
      Group A O S R → Option R → Option (PhaseEnd A O S R) → Option (PhaseEnd A O S R)
  end_group g (some r) rest =
      some (record { state = g.state; expired = g.expired; returned = some r; log = g.workers })
  end_group g none none = none
  end_group g none (some e) = some (record e { log = g.workers ++ e.log })

  -- The loop `for _, priority := range priorities` of a phase.
  unfoldable pub run_groups :
      List (List A) → List (List (Event O)) → Bool → S → Option (PhaseEnd A O S R)
  unfolding open_group exec complete end_group
  run_groups [] schedule expired s =
      some (record { state = s; expired = expired; returned = none; log = [] })
  run_groups (configs ∷ groups) [] expired s = none
  run_groups (configs ∷ groups) (es ∷ schedule) expired s =
      let g = exec p (open_group configs expired s) es in
      let rest = run_groups groups schedule g.expired g.state in
      if complete g then end_group g g.returned rest else none
