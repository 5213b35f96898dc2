-- ===== src/Group/Progress.antt =====
-- The groups of pkg/service/auth_pipeline.go do not get stuck: as long as a group is not complete
-- some goroutine or the reader can make a step, and each such step uses up work.
use mathlib.Core.Option.{some-injective}
use authorino.Common.{
  ap, ℕ, zero, suc, ◌+◌, ◌<◌, length, true, false, Option, none, some, List, [], ◌∷◌, ◌++◌, Outcome,
  ◌≡◌, ◌⊎◌, inl, inr, refl, arith, Bool-cases, if◌then◌else◌,
}
use authorino.Group.{
  Stage, waiting, checked, calling, replied, finished, skipped, unmatched, answered, Event, check,
  conditions, callback, reply, read, Response, Group, Phase, stage_at, set_stage, step, exec,
  all_finished, complete, with_worker, check_worker, conditions_worker, reply_worker,
  callback_worker, read_channel,
}

-- The work that a worker has before it, with the read of its response.
abbrev pub stage_work : {O : Type 0} → Stage O → ℕ
stage_work waiting = 5
stage_work checked = 4
stage_work calling = 3
stage_work (replied o) = 1
stage_work (finished v) = 0

module _ {A O : Type 0} where
  pub workers_work : List (A × Stage O) → ℕ
  workers_work [] = 0
  workers_work ((a, st) ∷ ws) = stage_work st + workers_work ws

  workers_work-set :
      (ws : List (A × Stage O)) (i : ℕ) (w : A × Stage O) (st : Stage O)
      → stage_at ws i ≡ some w
      → workers_work (set_stage ws i st) + stage_work w.1 ≡ workers_work ws + stage_work st
  unfolding workers_work stage_at set_stage
  workers_work-set [] i w st e = cc
  workers_work-set ((a, old) ∷ ws) zero w st e =
      omega (arith, ap (λ (x : A × Stage O). stage_work x.1) (some-injective (a, old) w e))
  workers_work-set ((a, old) ∷ ws) (suc i) w st e = omega (arith, workers_work-set ws i w st e)

  length-append_one :
      (rs : List (Response A O)) (r : Response A O) → length (rs ++ (r ∷ [])) ≡ suc (length rs)
  length-append_one [] r = refl
  length-append_one (x ∷ rs) r = omega (arith, length-append_one rs r)

  -- A worker that is not finished, if not all are.
  unfinished :
      (ws : List (A × Stage O))
      → all_finished ws ≡ false
      → (i : ℕ) × (w : A × Stage O) × (stage_at ws i ≡ some w) × (0 < stage_work w.1)
  unfolding all_finished stage_at
  unfinished [] h = cc
  unfinished ((a, finished v) ∷ ws) h = let (i, w, e, k) = unfinished ws h in (suc i, w, e, k)
  unfinished ((a, waiting) ∷ ws) h = (0, (a, waiting), refl, omega arith)
  unfinished ((a, checked) ∷ ws) h = (0, (a, checked), refl, omega arith)
  unfinished ((a, calling) ∷ ws) h = (0, (a, calling), refl, omega arith)
  unfinished ((a, replied o) ∷ ws) h = (0, (a, replied o), refl, omega arith)

module _ {A O S R : Type 0} (p : Phase A O S R) where
  -- The work left in a group.
  unfoldable pub work : Group A O S R → ℕ
  unfolding workers_work
  work g = workers_work g.workers + length g.channel

  -- The next step of a worker; an outcome is given for one whose `Call` is to return.
  pub next_event : ℕ → Stage O → Outcome O → Event O
  next_event i waiting o = check i
  next_event i checked o = conditions i
  next_event i calling o = reply i o
  next_event i (replied r) o = callback i
  next_event i (finished v) o = read

  step-work :
      (g : Group A O S R) (i : ℕ) (a : A) (st : Stage O) (o : Outcome O)
      → stage_at g.workers i ≡ some (a, st)
      → 0 < stage_work st
      → work (step p g (next_event i st o)) < work g
  unfolding step work next_event check_worker conditions_worker reply_worker callback_worker
  step-work g i a waiting o e h =
      rw (e, with_worker)
        (ground (
          arith,
          workers_work-set g.workers i (a, waiting)
              (if g.cancelled then finished skipped else checked) e,
        ))
  step-work g i a checked o e h =
      rw (e, with_worker)
        (ground (
          arith,
          workers_work-set g.workers i (a, checked)
              (if p.applies a g.state then calling else finished unmatched) e,
        ))
  step-work g i a calling o e h =
      rw (e, with_worker)
        (omega (
          arith,
          workers_work-set g.workers i (a, calling) (replied o) e,
          length-append_one g.channel (record { evaluator = a; result = o }),
        ))
  step-work g i a (replied r) o e h =
      rw (e, with_worker)
        (omega (arith, workers_work-set g.workers i (a, replied r) (finished (answered r)) e))
  step-work g i a (finished v) o e h = absurd (omega arith)

  read-work :
      (g : Group A O S R) (x : Response A O) (rest : List (Response A O))
      → g.returned ≡ none
      → g.channel ≡ x ∷ rest
      → work (step p g read) < work g
  unfolding step work
  read-work g x rest e f = rw (e, f, read_channel) (omega (arith, ap (length {A = Response A O}) f))

  progress_parts :
      (g : Group A O S R) (ret : Option R) (ch : List (Response A O))
      → g.returned ≡ ret
      → g.channel ≡ ch
      → (complete g ≡ true)
        ⊎ ((g.returned ≡ none)
            × ((x : Response A O) × (rest : List (Response A O)) × (g.channel ≡ x ∷ rest)))
        ⊎ (all_finished g.workers ≡ false)
  unfolding complete
  progress_parts g (some r) ch e f = inl (rw (e, complete))
  progress_parts g none (x ∷ rest) e f = inr (inl (e, (x, rest, f)))
  progress_parts g none [] e f = elim (Bool-cases (all_finished g.workers)) [
    | inl t ↦ inl (rw (e, complete) (rw (f, complete) t))
    | inr t ↦ inr (inr t)
  ]

  progress :
      (o : Outcome O) (g : Group A O S R)
      → complete g ≡ false
      → (e : Event O) × (work (step p g e) < work g)
  progress o g h = elim (progress_parts g g.returned g.channel refl refl) [
    | inl t ↦ absurd (ground (arith, t))
    | inr (inl (e, (x, rest, f))) ↦ (read, read-work g x rest e f)
    | inr (inr t) ↦
        let (i, (a, st), e, k) = unfinished g.workers t in
        (next_event i st o, step-work g i a st o e k)
  ]

  completes_within :
      (o : Outcome O) (n : ℕ) (g : Group A O S R)
      → work g < n
      → (es : List (Event O)) × (complete (exec p g es) ≡ true)
  unfolding exec
  completes_within o zero g h = absurd (omega arith)
  completes_within o (suc n) g h = elim (Bool-cases (complete g)) [
    | inl t ↦ ([], t)
    | inr t ↦
        let (e, less) = progress o g t in
        let (es, done) = completes_within o n (step p g e) (omega arith) in (e ∷ es, done)
  ]

  -- From every state of a group, and for an outcome that is given to the
  -- calls still to return, there are steps after which the group is complete: no interleaving of
  -- the goroutines and the reader gets stuck.
  pub completes :
      (o : Outcome O) (g : Group A O S R) → (es : List (Event O)) × (complete (exec p g es) ≡ true)
  completes o g = completes_within o (suc (work g)) g (omega arith)
