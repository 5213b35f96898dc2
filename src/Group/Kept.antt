-- ===== src/Group/Kept.antt =====
-- What a run of a group of pkg/service/auth_pipeline.go keeps: its configs, and a deadline that
-- has passed. And how a run of the loop over the groups is made up.
use mathlib.Core.Option.{some-injective}
use authorino.Common.{
  ℕ, zero, suc, Bool, true, false, Option, none, some, List, [], ◌∷◌, ◌++◌, Outcome, ◌≡◌, ◌⊎◌, inl,
  inr, refl, Option-cases, sym, ◌∙◌, ap, if◌then◌else◌,
}
use authorino.Group.{
  Stage, waiting, checked, calling, replied, Event, check, conditions, callback, reply, read,
  expire, Response, Group, Phase, stage_at, set_stage, start, open_group, step, exec, complete,
  with_worker, check_worker, conditions_worker, reply_worker, callback_worker, read_channel,
}
use authorino.Group.Loop.{PhaseEnd, run_groups, end_group}

module _ {A O : Type 0} where
  unfoldable pub configs_of : List (A × Stage O) → List A
  configs_of [] = []
  configs_of ((a, st) ∷ ws) = a ∷ configs_of ws

  configs_of-set :
      (ws : List (A × Stage O)) (i : ℕ) (st : Stage O)
      → configs_of (set_stage ws i st) ≡ configs_of ws
  unfolding configs_of set_stage
  configs_of-set [] i st = refl
  configs_of-set ((a, old) ∷ ws) zero st = refl
  configs_of-set ((a, old) ∷ ws) (suc i) st = ap (λ (t : List A). a ∷ t) (configs_of-set ws i st)

  pub configs_of-append :
      (ws vs : List (A × Stage O)) → configs_of (ws ++ vs) ≡ configs_of ws ++ configs_of vs
  unfolding configs_of
  configs_of-append [] vs = refl
  configs_of-append ((a, st) ∷ ws) vs = ap (λ (t : List A). a ∷ t) (configs_of-append ws vs)

configs_of-start :
    {A : Type 0} (O : Type 0) (configs : List A) → configs_of {O = O} (start configs) ≡ configs
unfolding configs_of start
configs_of-start O [] = refl
configs_of-start O (a ∷ configs) = ap (λ t. a ∷ t) (configs_of-start O configs)

module _ {A O S R : Type 0} (p : Phase A O S R) where
  abbrev Kept : Group A O S R → Group A O S R → Type 0
  Kept g h = (configs_of h.workers ≡ configs_of g.workers) × (g.expired ≡ true → h.expired ≡ true)

  Kept-worker :
      (g : Group A O S R) (i : ℕ) (f : A × Stage O → Group A O S R)
      → ((w : A × Stage O) → Kept g (f w))
      → Kept g (with_worker g i f)
  unfolding with_worker
  Kept-worker g i f k = elim (Option-cases (stage_at g.workers i)) [
    | inl e ↦ rw (e, with_worker) (refl, λ h. h)
    | inr (w, e) ↦ rw (e, with_worker) (k w)
  ]

  Kept-check : (g : Group A O S R) (i : ℕ) (w : A × Stage O) → Kept g (check_worker g i w)
  unfolding check_worker
  Kept-check g i (a, waiting) = (configs_of-set g.workers i _, λ h. h)
  Kept-check g i (a, _) = (refl, λ h. h)

  Kept-conditions :
      (g : Group A O S R) (i : ℕ) (w : A × Stage O) → Kept g (conditions_worker p g i w)
  unfolding conditions_worker
  Kept-conditions g i (a, checked) = (configs_of-set g.workers i _, λ h. h)
  Kept-conditions g i (a, _) = (refl, λ h. h)

  Kept-reply :
      (g : Group A O S R) (i : ℕ) (o : Outcome O) (w : A × Stage O) → Kept g (reply_worker g i o w)
  unfolding reply_worker
  Kept-reply g i o (a, calling) = (configs_of-set g.workers i _, λ h. h)
  Kept-reply g i o (a, _) = (refl, λ h. h)

  Kept-callback : (g : Group A O S R) (i : ℕ) (w : A × Stage O) → Kept g (callback_worker p g i w)
  unfolding callback_worker
  Kept-callback g i (a, replied r) = (configs_of-set g.workers i _, λ h. h)
  Kept-callback g i (a, _) = (refl, λ h. h)

  Kept-read :
      (g : Group A O S R) (ret : Option R) (ch : List (Response A O))
      → Kept g (read_channel p g ret ch)
  unfolding read_channel
  Kept-read g (some r) ch = (refl, λ h. h)
  Kept-read g none [] = (refl, λ h. h)
  Kept-read g none (x ∷ ch) = (refl, λ h. h)

  Kept-step : (g : Group A O S R) (e : Event O) → Kept g (step p g e)
  unfolding step
  Kept-step g (check i) = Kept-worker g i (check_worker g i) (Kept-check g i)
  Kept-step g (conditions i) = Kept-worker g i (conditions_worker p g i) (Kept-conditions g i)
  Kept-step g (reply i o) = Kept-worker g i (reply_worker g i o) (Kept-reply g i o)
  Kept-step g (callback i) = Kept-worker g i (callback_worker p g i) (Kept-callback g i)
  Kept-step g read = Kept-read g g.returned g.channel
  Kept-step g expire = (refl, λ h. refl)

  Kept-exec : (g : Group A O S R) (es : List (Event O)) → Kept g (exec p g es)
  unfolding exec
  Kept-exec g [] = (refl, λ h. h)
  Kept-exec g (e ∷ es) =
      let (a, b) = Kept-step g e in let (c, d) = Kept-exec (step p g e) es in (c ∙ a, λ h. d (b h))

  pub configs_of-exec :
      (configs : List A) (expired : Bool) (s : S) (es : List (Event O))
      → configs_of (exec p (open_group configs expired s) es).workers ≡ configs
  unfolding open_group
  configs_of-exec configs expired s es =
      (Kept-exec (open_group configs expired s) es).0 ∙ configs_of-start O configs

  pub exec-expired :
      (configs : List A) (expired : Bool) (s : S) (es : List (Event O))
      → expired ≡ true
      → (exec p (open_group configs expired s) es).expired ≡ true
  unfolding open_group
  exec-expired configs expired s es = (Kept-exec (open_group configs expired s) es).1

  abbrev pub LoopEnd :
      Group A O S R → Option R → Option (PhaseEnd A O S R) → PhaseEnd A O S R → Type 0
  LoopEnd g ret rest e =
      ((r : R) × (ret ≡ some r)
        × (e ≡ record { state = g.state; expired = g.expired; returned = some r; log = g.workers }))
      ⊎ ((e' : PhaseEnd A O S R) × (ret ≡ none)
          × (rest ≡ some e')
          × (e ≡ record e' { log = g.workers ++ e'.log }))

  loop_end :
      (g : Group A O S R) (b : Bool) (ret : Option R) (rest : Option (PhaseEnd A O S R))
      (e : PhaseEnd A O S R)
      → (if b then end_group p g ret rest else none) ≡ some e
      → (b ≡ true) × LoopEnd g ret rest e
  unfolding end_group
  loop_end g false ret rest e h = cc
  loop_end g true (some r) rest e h = (refl, inl (r, refl, sym (some-injective _ e h)))
  loop_end g true none none e h = cc
  loop_end g true none (some e') e h = (refl, inr (e', refl, refl, sym (some-injective _ e h)))

  -- The parts of a run of the loop over one group and those after it.
  pub run_groups-cons :
      (configs : List A) (groups : List (List A)) (es : List (Event O))
      (schedule : List (List (Event O))) (expired : Bool) (s : S) (e : PhaseEnd A O S R)
      → run_groups p (configs ∷ groups) (es ∷ schedule) expired s ≡ some e
      → let g = exec p (open_group configs expired s) es in
        (complete g ≡ true)
        × LoopEnd g g.returned (run_groups p groups schedule g.expired g.state) e
  unfolding run_groups
  run_groups-cons configs groups es schedule expired s e =
      let g = exec p (open_group configs expired s) es in
      loop_end g (complete g) g.returned (run_groups p groups schedule g.expired g.state) e
