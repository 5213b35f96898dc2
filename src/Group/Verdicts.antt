-- ===== src/Group/Verdicts.antt =====
-- The loop of a phase of pkg/service/auth_pipeline.go over all its groups, in every interleaving.
use mathlib.Core.Path.{ap₂, subst}
use mathlib.Core.Option.{some-injective}
use mathlib.Core.List.{flatten, Memᴰ}
use authorino.Common.{
  is_some, Bool, true, false, none, some, List, [], ◌∷◌, ◌++◌, Outcome, ◌≡◌, inl, inr, refl, arith,
  Bool-cases, sym, ◌∙◌, ap,
}
use authorino.Group.{Stage, Event, Response, Phase, all, open_group, exec}
use authorino.Group.Loop.{PhaseEnd, run_groups}
use authorino.Group.Workers.{AllWorkers}
use authorino.Group.Failures.{Passed, group-Passed, is_failure}
use authorino.Group.Successes.{Answered, FromResponse, returned-FromResponse}
use authorino.Group.Kept.{
  configs_of, configs_of-append, configs_of-exec, exec-expired, run_groups-cons,
}

module _ {A O : Type 0} where
  AllWorkers-append :
      (P : A → Stage O → Type 0) (ws vs : List (A × Stage O))
      → AllWorkers P ws
      → AllWorkers P vs
      → AllWorkers P (ws ++ vs)
  AllWorkers-append P [] vs h k = k
  AllWorkers-append P ((a, st) ∷ ws) vs h k = (h.0, AllWorkers-append P ws vs h.1 k)

  pub AllWorkers-Mem :
      (P : A → Stage O → Type 0) (ws : List (A × Stage O)) (a : A)
      → AllWorkers P ws
      → Memᴰ a (configs_of ws)
      → (st : Stage O) × Memᴰ (a, st) ws × P a st
  unfolding configs_of
  AllWorkers-Mem P [] a h m = elim m [ ]
  AllWorkers-Mem P ((b, st) ∷ ws) a h (Memᴰ.head e) =
      (st, Memᴰ.head (ap (λ (x : A). (x, st)) e), subst (λ (x : A). P x st) (sym e) h.0)
  AllWorkers-Mem P ((b, st) ∷ ws) a h (Memᴰ.tail m) =
      let (st', k, p) = AllWorkers-Mem P ws a h.1 m in (st', Memᴰ.tail k, p)

  Answered-later :
      (ws vs : List (A × Stage O)) (a : A) (o : Outcome O)
      → Answered vs a o
      → Answered (ws ++ vs) a o
  Answered-later [] vs a o h = h
  Answered-later ((b, st) ∷ ws) vs a o h = inr (Answered-later ws vs a o h)

module _ {A O S R : Type 0} (p : Phase A O S R) where
  run_groups-expired :
      (groups : List (List A)) (schedule : List (List (Event O))) (expired : Bool) (s : S)
      (e : PhaseEnd A O S R)
      → run_groups p groups schedule expired s ≡ some e
      → expired ≡ true
      → e.expired ≡ true
  run_groups-expired [] schedule expired s e h x = unfold run_groups in ground arith
  run_groups-expired (configs ∷ groups) [] expired s e h x = unfold run_groups in cc
  run_groups-expired (configs ∷ groups) (es ∷ schedule) expired s e h x =
      let g = exec p (open_group configs expired s) es in
      let late = exec-expired p configs expired s es x in
      elim (run_groups-cons p configs groups es schedule expired s e h).1 [
        | inl (r, ret, same) ↦ rw same late
        | inr (e', ret, rest, same) ↦
            rw same (run_groups-expired groups schedule g.expired g.state e' rest late)
      ]

  in_time :
      (groups : List (List A)) (schedule : List (List (Event O))) (expired : Bool) (s : S)
      (e : PhaseEnd A O S R)
      → run_groups p groups schedule expired s ≡ some e
      → e.expired ≡ false
      → expired ≡ false
  in_time groups schedule expired s e h intime = elim (Bool-cases expired) [
    | inl t ↦ absurd (ground (arith, run_groups-expired groups schedule expired s e h t, intime))
    | inr f ↦ f
  ]

  run_groups-nil :
      (schedule : List (List (Event O))) (expired : Bool) (s : S) (e : PhaseEnd A O S R)
      → run_groups p [] schedule expired s ≡ some e
      → e ≡ record { state = s; expired = expired; returned = none; log = [] }
  unfolding run_groups
  run_groups-nil schedule expired s e h = sym (some-injective _ e h)

  -- What a phase that is cancelled by failures only and returns at the first of them has done when
  -- it returned nothing in time: it took every config of every group, and each passed.
  pub loop-Passed :
      p.strategy ≡ all
      → ((s : S) (r : Response A O) → is_failure r.result ≡ true → is_some (p.handle s r).1 ≡ true)
      → (groups : List (List A)) (schedule : List (List (Event O))) (expired : Bool) (s : S)
      → (e : PhaseEnd A O S R) → run_groups p groups schedule expired s ≡ some e
      → e.returned ≡ none
      → e.expired ≡ false
      → AllWorkers (Passed p) e.log × (configs_of e.log ≡ flatten groups)
  unfolding flatten configs_of
  loop-Passed strategy-eq stops [] schedule expired s e h ret intime =
      rw (run_groups-nil schedule expired s e h) (tt, refl)
  loop-Passed strategy-eq stops (configs ∷ groups) [] expired s e h ret intime =
      unfold run_groups in cc
  loop-Passed strategy-eq stops (configs ∷ groups) (es ∷ schedule) expired s e h ret intime =
      let g = exec p (open_group configs expired s) es in
      let (done, ends) = run_groups-cons p configs groups es schedule expired s e h in
      elim ends [
        | inl (r, k, same) ↦ absurd (unfold run_groups in ground (arith, same))
        | inr (e', k, rest, same) ↦
            let ret' : e'.returned ≡ none =
              ap (λ (x : PhaseEnd A O S R). x.returned) (sym same) ∙ ret in
            let intime' : e'.expired ≡ false =
              ap (λ (x : PhaseEnd A O S R). x.expired) (sym same) ∙ intime in
            let early : g.expired ≡ false =
              in_time groups schedule g.expired g.state e' rest intime' in
            let (passed, taken) =
              loop-Passed strategy-eq stops groups schedule g.expired g.state e' rest ret'
                intime' in
            rw same (
              AllWorkers-append (Passed p) g.workers e'.log
                  (group-Passed p strategy-eq stops configs expired s es done k early) passed,
              configs_of-append g.workers e'.log
                  ∙ ap₂ (λ (x y : List A). x ++ y) (configs_of-exec p configs expired s es) taken,
            )
      ]

  -- What a phase returned is what it makes of a response that a worker's `Call` gave in the run.
  pub loop_returned :
      (groups : List (List A)) (schedule : List (List (Event O))) (expired : Bool) (s : S)
      (e : PhaseEnd A O S R) (r : R)
      → run_groups p groups schedule expired s ≡ some e
      → e.returned ≡ some r
      → FromResponse p e.log r
  loop_returned [] schedule expired s e r h ret = absurd (unfold run_groups in ground arith)
  loop_returned (configs ∷ groups) [] expired s e r h ret = unfold run_groups in cc
  loop_returned (configs ∷ groups) (es ∷ schedule) expired s e r h ret =
      let g = exec p (open_group configs expired s) es in
      elim (run_groups-cons p configs groups es schedule expired s e h).1 [
        | inl (r', k, same) ↦ rw same (
            returned-FromResponse p configs expired s es r
              (k ∙ sym (ap (λ (x : PhaseEnd A O S R). x.returned) same) ∙ ret))
        | inr (e', k, rest, same) ↦
            let (a, o, t, x, y) =
              loop_returned groups schedule g.expired g.state e' r rest
                (ap (λ (x : PhaseEnd A O S R). x.returned) (sym same) ∙ ret) in
            rw same (a, o, t, Answered-later g.workers e'.log a o x, y)
      ]
