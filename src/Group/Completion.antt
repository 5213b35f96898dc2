-- ===== src/Group/Completion.antt =====
-- The loop of a phase of pkg/service/auth_pipeline.go over its groups can always end.
use authorino.Common.{Bool, Option, none, some, List, [], ◌∷◌, Outcome, ◌≡◌, refl}
use authorino.Group.{Event, Group, Phase, open_group, exec}
use authorino.Group.Loop.{PhaseEnd, run_groups, end_group}
use authorino.Group.Progress.{completes}

module _ {A O S R : Type 0} (p : Phase A O S R) where
  end_group-some :
      (g : Group A O S R) (ret : Option R) (e : PhaseEnd A O S R)
      → (e' : PhaseEnd A O S R) × (end_group p g ret (some e) ≡ some e')
  unfolding end_group
  end_group-some g none e = (_, refl)
  end_group-some g (some r) e = (_, refl)

  -- Whatever the groups of a phase and its state, there are steps of each group with which the loop
  -- over the groups ends.
  pub loop_completes :
      (o : Outcome O) (groups : List (List A)) (expired : Bool) (s : S)
      → (schedule : List (List (Event O))) × (e : PhaseEnd A O S R) × (run_groups p groups schedule
            expired s
          ≡ some e)
  unfolding run_groups
  loop_completes o [] expired s = ([], _, refl)
  loop_completes o (configs ∷ groups) expired s =
      let (es, done) = completes p o (open_group configs expired s) in
      let g = exec p (open_group configs expired s) es in
      let (schedule, e, h) = loop_completes o groups g.expired g.state in
      let (e', k) = end_group-some g g.returned e in (es ∷ schedule, e', rw done (rw h k))
