-- ===== src/Group/Workers.antt =====
-- Tests on the stages of the workers of Group, and how a move of one worker changes them.
use authorino.Common.{
  ℕ, zero, suc, Bool, true, false, ◌||◌, some, List, [], ◌∷◌, ◌≡◌, ◌⊎◌, refl, arith,
}
use authorino.Group.{Stage, waiting, stage_at, set_stage, start}

module _ {A O : Type 0} where
  -- Some worker is at a stage with this property.
  unfoldable pub some_stage : (Stage O → Bool) → List (A × Stage O) → Bool
  some_stage p [] = false
  some_stage p ((a, st) ∷ ws) = p st || some_stage p ws

  -- A worker that moves to a stage with the property has it.
  pub some_stage-set :
      (p : Stage O → Bool) (ws : List (A × Stage O)) (i : ℕ) (st : Stage O) (w : A × Stage O)
      → stage_at ws i ≡ some w
      → p st ≡ true
      → some_stage p (set_stage ws i st) ≡ true
  unfolding some_stage stage_at set_stage
  some_stage-set p [] i st w e h = cc
  some_stage-set p ((a, old) ∷ ws) zero st w e h = ground arith
  some_stage-set p ((a, old) ∷ ws) (suc i) st w e h = ground (arith, some_stage-set p ws i st w e h)

  pub some_stage-at :
      (p : Stage O → Bool) (ws : List (A × Stage O)) (i : ℕ) (w : A × Stage O)
      → stage_at ws i ≡ some w
      → p w.1 ≡ true
      → some_stage p ws ≡ true
  unfolding some_stage stage_at
  some_stage-at p [] i w e h = cc
  some_stage-at p ((a, st) ∷ ws) zero w e h = ground arith
  some_stage-at p ((a, st) ∷ ws) (suc i) w e h = ground (arith, some_stage-at p ws i w e h)

  -- A worker that moves from a stage without the property takes it from no other.
  pub some_stage-keep :
      (p : Stage O → Bool) (ws : List (A × Stage O)) (i : ℕ) (st : Stage O) (w : A × Stage O)
      → stage_at ws i ≡ some w
      → p w.1 ≡ false
      → some_stage p ws ≡ true
      → some_stage p (set_stage ws i st) ≡ true
  unfolding some_stage stage_at set_stage
  some_stage-keep p [] i st w e h k = cc
  some_stage-keep p ((a, old) ∷ ws) zero st w e h k = ground arith
  some_stage-keep p ((a, old) ∷ ws) (suc i) st w e h k =
      ground (arith, some_stage-keep p ws i st w e h)

  -- What a move adds is the property of the new stage.
  pub some_stage-split :
      (p : Stage O → Bool) (ws : List (A × Stage O)) (i : ℕ) (st : Stage O)
      → some_stage p (set_stage ws i st) ≡ true
      → (p st ≡ true) ⊎ (some_stage p ws ≡ true)
  unfolding some_stage set_stage
  some_stage-split p [] i st h = cc
  some_stage-split p ((a, old) ∷ ws) zero st h = ground arith
  some_stage-split p ((a, old) ∷ ws) (suc i) st h = ground (arith, some_stage-split p ws i st)

  pub some_stage-start :
      (p : Stage O → Bool) (configs : List A)
      → p waiting ≡ false
      → some_stage p (start configs) ≡ false
  unfolding some_stage start
  some_stage-start p [] h = refl
  some_stage-start p (a ∷ configs) h = ground (arith, some_stage-start p configs)

  -- A property of every config with its stage.
  abbrev pub AllWorkers : (A → Stage O → Type 0) → List (A × Stage O) → Type 0
  AllWorkers P [] = Unit
  AllWorkers P ((a, st) ∷ ws) = P a st × AllWorkers P ws

  pub AllWorkers-set :
      (P : A → Stage O → Type 0) (ws : List (A × Stage O)) (i : ℕ) (st : Stage O)
      → ((w : A × Stage O) → stage_at ws i ≡ some w → P w.0 w.1 → P w.0 st)
      → AllWorkers P ws
      → AllWorkers P (set_stage ws i st)
  unfolding stage_at set_stage
  AllWorkers-set P [] i st f h = tt
  AllWorkers-set P ((a, old) ∷ ws) zero st f h = (f (a, old) refl h.0, h.1)
  AllWorkers-set P ((a, old) ∷ ws) (suc i) st f h = (h.0, AllWorkers-set P ws i st f h.1)

  pub AllWorkers-start :
      (P : A → Stage O → Type 0) (configs : List A)
      → ((a : A) → P a waiting)
      → AllWorkers P (start configs)
  unfolding start
  AllWorkers-start P [] f = tt
  AllWorkers-start P (a ∷ configs) f = (f a, AllWorkers-start P configs f)
