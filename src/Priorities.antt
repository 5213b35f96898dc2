-- ===== src/Priorities.antt =====
-- pkg/service/auth_pipeline.go: `groupAuthConfigsByPriority`. A config is a value of `A` with its
-- priority; the map from priorities to configs is an association list. `sort.Ints` is an insertion
-- sort.
pub mod Order
pub mod Groups
pub mod Members
mod Tests
use authorino.Common.{Bool, true, false, List, [], ◌∷◌, ◌++◌, map, if◌then◌else◌}
use authorino.Common.Int.{ℤ, leb_ℤ, eq_ℤ}

module _ {A : Type 0} where
  -- `authConfigsByPriority[priority]`
  unfoldable pub configs_at : ℤ → List (ℤ × List A) → List A
  configs_at p [] = []
  configs_at p ((q, configs) ∷ m) = if eq_ℤ q p then configs else configs_at p m

  unfoldable pub has_priority : ℤ → List (ℤ × List A) → Bool
  has_priority p [] = false
  has_priority p ((q, configs) ∷ m) = if eq_ℤ q p then true else has_priority p m

  -- `authConfigsByPriority[priority] = append(authConfigsByPriority[priority], conf)`
  unfoldable pub add_config : ℤ → A → List (ℤ × List A) → List (ℤ × List A)
  add_config p a [] = (p, a ∷ []) ∷ []
  add_config p a ((q, configs) ∷ m) =
      if eq_ℤ q p then (q, configs ++ (a ∷ [])) ∷ m else (q, configs) ∷ add_config p a m

-- `sort.Ints`
unfoldable pub insert_int : ℤ → List ℤ → List ℤ
insert_int p [] = p ∷ []
insert_int p (q ∷ qs) = if leb_ℤ p q then p ∷ q ∷ qs else q ∷ insert_int p qs

unfoldable pub sort_ints : List ℤ → List ℤ
unfolding insert_int
sort_ints [] = []
sort_ints (p ∷ ps) = insert_int p (sort_ints ps)

module _ {A : Type 0} (priority : A → ℤ) where
  -- The loop over the configs, with the map and the priorities in the order they are met.
  unfoldable pub collect : List A → List (ℤ × List A) → List ℤ → List (ℤ × List A) × List ℤ
  unfolding has_priority add_config
  collect [] m ps = (m, ps)
  collect (a ∷ rest) m ps =
      collect rest (add_config (priority a) a m)
        (if has_priority (priority a) m then ps else ps ++ (priority a ∷ []))

  -- `groupAuthConfigsByPriority`: the groups in the order in which every phase takes them.
  unfoldable pub group_by_priority : List A → List (List A)
  unfolding collect configs_at sort_ints
  group_by_priority configs =
      let (m, ps) = collect configs [] [] in map (λ (p : ℤ). configs_at p m) (sort_ints ps)
