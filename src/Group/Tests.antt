-- ===== src/Group/Tests.antt =====
-- A group of two configs of pkg/service/auth_pipeline.go.
use authorino.Common.{ℕ, true, false, some, List, [], ◌∷◌, Outcome, ok, ◌≡◌, refl}
use authorino.Group.{
  Event, Response, Group, Phase, one, check, conditions, reply, callback, read, open_group, exec,
  complete,
}
use authorino.Group.Progress.{completes}
use authorino.Group.Successes.{FromResponse, returned-FromResponse}

-- A phase that returns what the first response that it reads is.
abbrev first : Phase ℕ ℕ (Unit {0}) (Outcome ℕ)
first = record { strategy = one; applies = λ a s. true; handle = λ s r. (s, some r.result) }

abbrev opened : Group ℕ ℕ (Unit {0}) (Outcome ℕ)
opened = open_group (10 ∷ 11 ∷ []) false tt

completes_example : (es : List (Event ℕ)) × (complete (exec first opened es) ≡ true)
completes_example = completes first (ok 3) opened

-- The second config answers first.
abbrev events : List (Event ℕ)
events = check 0 ∷ check 1 ∷ conditions 1 ∷ reply 1 (ok 5) ∷ read ∷ callback 1 ∷ []

returned_runs : (exec first opened events).returned ≡ some (ok 5)
unfolding exec authorino.Group.step open_group
returned_runs = refl

returned-FromResponse_example : FromResponse first (exec first opened events).workers (ok 5)
returned-FromResponse_example =
    returned-FromResponse first (10 ∷ 11 ∷ []) false tt events (ok 5) returned_runs
