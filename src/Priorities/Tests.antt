-- ===== src/Priorities/Tests.antt =====
-- `groupAuthConfigsByPriority` of pkg/service/auth_pipeline.go on a small input.
use mathlib.Core.List.{Memᴰ, flatten}
use authorino.Common.{ℕ, List, [], ◌∷◌, map, ◌≡◌, ◌↔◌, refl}
use authorino.Common.Int.{ℤ, pos}
use authorino.Priorities.{group_by_priority}
use authorino.Priorities.Order.{mem_int, IsAscending}
use authorino.Priorities.Groups.{with_priority, some_with, group_by_priority_lem}
use authorino.Priorities.Members.{group_by_priority-Mem}

-- Pairs of a priority and a name.
abbrev pairs : List (ℤ × ℕ)
pairs = (pos 2, 20) ∷ (pos 0, 1) ∷ (pos 2, 21) ∷ []

abbrev of_pair : ℤ × ℕ → ℤ
of_pair x = x.0

groups_run :
    group_by_priority of_pair pairs ≡ ((pos 0, 1) ∷ []) ∷ ((pos 2, 20) ∷ (pos 2, 21) ∷ []) ∷ []
unfolding group_by_priority
groups_run = refl

group_by_priority_lem_example :
    (ps : List ℤ) × (group_by_priority of_pair pairs ≡ map (λ p. with_priority of_pair p pairs) ps)
    × IsAscending ps
    × ((p : ℤ) → mem_int p ps ≡ some_with of_pair p pairs)
group_by_priority_lem_example = group_by_priority_lem of_pair pairs

group_by_priority-Mem_example :
    Memᴰ (pos 2, 21) (flatten (group_by_priority of_pair pairs)) ↔ Memᴰ (pos 2, 21) pairs
group_by_priority-Mem_example = group_by_priority-Mem of_pair (pos 2, 21) pairs
