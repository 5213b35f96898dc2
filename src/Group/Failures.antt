-- ===== src/Group/Failures.antt =====
-- The groups of pkg/service/auth_pipeline.go that are cancelled by a failure (`evaluateAllAuthConfigs`)
-- and whose reader returns at the first failure it reads: nothing is skipped unless a failure is
-- returned or the deadline passes.
use mathlib.Core.Path.{subst}
use mathlib.Core.Option.{some-injective}
use authorino.Common.{
  is_some, sym, ◌∙◌, ℕ, Bool, true, false, ◌||◌, Option, none, some, List, [], ◌∷◌, ◌++◌, Outcome,
  ok, err, ◌≡◌, inl, inr, refl, arith, Bool-cases, Option-cases, if◌then◌else◌,
}
use authorino.Group.{
  Stage, waiting, checked, calling, replied, finished, skipped, unmatched, answered, all, cancels,
  Event, check, conditions, callback, reply, read, expire, Response, Group, Phase, stage_at,
  set_stage, open_group, step, exec, all_finished, complete, with_worker, check_worker,
  conditions_worker, reply_worker, callback_worker, read_channel,
}
use authorino.Group.Workers.{
  some_stage, some_stage-set, some_stage-at, some_stage-keep, some_stage-split, some_stage-start,
  AllWorkers, AllWorkers-set, AllWorkers-start,
}

module _ {O : Type 0} where
  abbrev pub is_failure : Outcome O → Bool
  is_failure (ok o) = false
  is_failure (err m) = true

  -- The worker has answered with a failure.
  abbrev pub failed : Stage O → Bool
  failed (replied r) = is_failure r
  failed (finished (answered r)) = is_failure r
  failed _ = false

  abbrev pub is_skipped : Stage O → Bool
  is_skipped (finished skipped) = true
  is_skipped _ = false

module _ {A O : Type 0} where
  pub has_failure : List (Response A O) → Bool
  has_failure [] = false
  has_failure (r ∷ rs) = is_failure r.result || has_failure rs

  has_failure-append :
      (rs : List (Response A O)) (r : Response A O)
      → has_failure (rs ++ (r ∷ [])) ≡ (has_failure rs || is_failure r.result)
  unfolding has_failure
  has_failure-append [] r = ground arith
  has_failure-append (x ∷ rs) r = ground (arith, has_failure-append rs r)

module _ {A O S R : Type 0} (p : Phase A O S R) where
  -- A worker ends as unmatched only where the conditions did not match at some state of the phase.
  abbrev pub Justified : A → Stage O → Type 0
  Justified a (finished unmatched) = (s : S) × (p.applies a s ≡ false)
  Justified a _ = Unit

  record Inv (g : Group A O S R) : Type 0 where
    failures :
        some_stage failed g.workers ≡ true → (has_failure g.channel || is_some g.returned) ≡ true
    cancelled_why : g.cancelled ≡ true → (some_stage failed g.workers || g.expired) ≡ true
    skipped_why : some_stage is_skipped g.workers ≡ true → g.cancelled ≡ true
    justified : AllWorkers Justified g.workers

  with_worker-Inv :
      (P : Group A O S R → Type 0) (g : Group A O S R) (i : ℕ) (f : A × Stage O → Group A O S R)
      → P g
      → ((w : A × Stage O) → stage_at g.workers i ≡ some w → P (f w))
      → P (with_worker g i f)
  unfolding with_worker
  with_worker-Inv P g i f h k = elim (Option-cases (stage_at g.workers i)) [
    | inl e ↦ rw (e, with_worker) h
    | inr (w, e) ↦ rw (e, with_worker) (k w e)
  ]

  Inv-moved :
      (g : Group A O S R) (i : ℕ) (a : A) (from to : Stage O)
      → Inv g
      → stage_at g.workers i ≡ some (a, from)
      → failed from ≡ false
      → failed to ≡ false
      → (is_skipped to ≡ true → g.cancelled ≡ true)
      → Justified a to
      → Inv (record g { workers = set_stage g.workers i to })
  Inv-moved g i a from to v e f t s j = record {
    failures = λ h. ground (arith, some_stage-split failed g.workers i to h);
    cancelled_why =
        λ c. ground (arith, v.cancelled_why c, some_stage-keep failed g.workers i to (a, from) e f);
    skipped_why = λ h. ground (arith, some_stage-split is_skipped g.workers i to h);
    justified =
        AllWorkers-set Justified g.workers i to
          (λ w k _.
            subst (λ (x : A × Stage O). Justified x.0 to) (some-injective (a, from) w (sym e ∙ k))
              j)
          v.justified;
  }

  Inv-check :
      (g : Group A O S R) (i : ℕ) (w : A × Stage O)
      → Inv g
      → stage_at g.workers i ≡ some w
      → Inv (check_worker g i w)
  unfolding check_worker
  Inv-check g i (a, waiting) v e = elim (Bool-cases g.cancelled) [
    | inl c ↦
        subst
          (λ (b : Bool). Inv (record g {
            workers = set_stage g.workers i (if b then finished skipped else checked);
          }))
          (sym c) (Inv-moved g i a waiting (finished skipped) v e refl refl (λ _. c) tt)
    | inr c ↦
        subst
          (λ (b : Bool). Inv (record g {
            workers = set_stage g.workers i (if b then finished skipped else checked);
          }))
          (sym c) (Inv-moved g i a waiting checked v e refl refl (λ h. cc) tt)
  ]
  Inv-check g i (a, _) v e = v

  Inv-conditions :
      (g : Group A O S R) (i : ℕ) (w : A × Stage O)
      → Inv g
      → stage_at g.workers i ≡ some w
      → Inv (conditions_worker p g i w)
  unfolding conditions_worker
  Inv-conditions g i (a, checked) v e = elim (Bool-cases (p.applies a g.state)) [
    | inl c ↦ rw c (Inv-moved g i a checked calling v e refl refl (λ h. cc) tt)
    | inr c ↦
        rw c (Inv-moved g i a checked (finished unmatched) v e refl refl (λ h. cc) (g.state, c))
  ]
  Inv-conditions g i (a, _) v e = v

  Inv-reply :
      (g : Group A O S R) (i : ℕ) (o : Outcome O) (w : A × Stage O)
      → Inv g
      → stage_at g.workers i ≡ some w
      → Inv (reply_worker g i o w)
  unfolding reply_worker
  Inv-reply g i o (a, calling) v e = record {
    failures = λ h. ground (
      arith,
      some_stage-split failed g.workers i (replied o) h,
      has_failure-append g.channel (record { evaluator = a; result = o }),
    );
    cancelled_why = λ c. ground (
      arith,
      v.cancelled_why c,
      some_stage-keep failed g.workers i (replied o) (a, calling) e refl,
    );
    skipped_why = λ h. ground (arith, some_stage-split is_skipped g.workers i (replied o) h);
    justified = AllWorkers-set Justified g.workers i (replied o) (λ w k _. tt) v.justified;
  }
  Inv-reply g i o (a, _) v e = v

  module _ (strategy-eq : p.strategy ≡ all) where
    Inv-callback :
        (g : Group A O S R) (i : ℕ) (w : A × Stage O)
        → Inv g
        → stage_at g.workers i ≡ some w
        → Inv (callback_worker p g i w)
    unfolding callback_worker cancels
    Inv-callback g i (a, replied (ok o)) v e = record {
      failures =
          λ h. ground (arith, some_stage-split failed g.workers i (finished (answered (ok o))) h);
      cancelled_why = λ c. ground (
        arith,
        v.cancelled_why,
        strategy-eq,
        some_stage-keep failed g.workers i (finished (answered (ok o))) (a, replied (ok o)) e refl,
      );
      skipped_why = λ h.
          ground (arith, some_stage-split is_skipped g.workers i (finished (answered (ok o))) h);
      justified =
          AllWorkers-set Justified g.workers i (finished (answered (ok o))) (λ w k _. tt)
            v.justified;
    }
    Inv-callback g i (a, replied (err m)) v e = record {
      failures = λ h. ground (arith, some_stage-at failed g.workers i (a, replied (err m)) e refl);
      cancelled_why = λ c. ground (
        arith,
        some_stage-set failed g.workers i (finished (answered (err m))) (a, replied (err m)) e refl,
      );
      skipped_why = λ h.
          ground (arith, some_stage-split is_skipped g.workers i (finished (answered (err m))) h);
      justified =
          AllWorkers-set Justified g.workers i (finished (answered (err m))) (λ w k _. tt)
            v.justified;
    }
    Inv-callback g i (a, _) v e = v

    module _
        (stops : (s : S) (r : Response A O)
          → is_failure r.result ≡ true
          → is_some (p.handle s r).1 ≡ true) where
      Inv-read :
          (g : Group A O S R) (ret : Option R) (ch : List (Response A O))
          → Inv g
          → g.returned ≡ ret
          → g.channel ≡ ch
          → Inv (read_channel p g ret ch)
      unfolding read_channel has_failure
      Inv-read g (some r) ch v e f = v
      Inv-read g none [] v e f = v
      Inv-read g none (r ∷ rest) v e f = record {
        failures = λ h. ground (arith, v.failures h, stops g.state r);
        cancelled_why = v.cancelled_why;
        skipped_why = v.skipped_why;
        justified = v.justified;
      }

      Inv-step : (g : Group A O S R) (e : Event O) → Inv g → Inv (step p g e)
      unfolding step
      Inv-step g (check i) v =
          with_worker-Inv Inv g i (check_worker g i) v (λ w e. Inv-check g i w v e)
      Inv-step g (conditions i) v =
          with_worker-Inv Inv g i (conditions_worker p g i) v (λ w e. Inv-conditions g i w v e)
      Inv-step g (reply i o) v =
          with_worker-Inv Inv g i (reply_worker g i o) v (λ w e. Inv-reply g i o w v e)
      Inv-step g (callback i) v =
          with_worker-Inv Inv g i (callback_worker p g i) v (λ w e. Inv-callback g i w v e)
      Inv-step g read v = Inv-read g g.returned g.channel v refl refl
      Inv-step g expire v = record {
        failures = v.failures;
        cancelled_why = λ c. ground arith;
        skipped_why = λ h. refl;
        justified = v.justified;
      }

      Inv-exec : (g : Group A O S R) (es : List (Event O)) → Inv g → Inv (exec p g es)
      unfolding exec
      Inv-exec g [] v = v
      Inv-exec g (e ∷ es) v = Inv-exec (step p g e) es (Inv-step g e v)

  Inv-open_group : (configs : List A) (expired : Bool) (s : S) → Inv (open_group configs expired s)
  unfolding open_group
  Inv-open_group configs expired s = record {
    failures = λ h. ground (arith, some_stage-start {A = A} (failed {O = O}) configs refl);
    cancelled_why = λ c. ground (arith, c);
    skipped_why = λ h. ground (arith, some_stage-start {A = A} (is_skipped {O = O}) configs refl);
    justified = AllWorkers-start Justified configs (λ a. tt);
  }

  -- The config's conditions did not match at some state of the phase, or its `Call` returned an
  -- object and no error.
  abbrev pub Passed : A → Stage O → Type 0
  Passed a (finished unmatched) = (s : S) × (p.applies a s ≡ false)
  Passed a (finished (answered (ok o))) = Unit
  Passed a _ = ⊥

  all-Passed :
      (ws : List (A × Stage O))
      → AllWorkers Justified ws
      → all_finished ws ≡ true
      → some_stage failed ws ≡ false
      → some_stage is_skipped ws ≡ false
      → AllWorkers Passed ws
  unfolding all_finished some_stage
  all-Passed [] j f n k = tt
  all-Passed ((a, finished unmatched) ∷ ws) j f n k = (j.0, all-Passed ws j.1 f n k)
  all-Passed ((a, finished (answered (ok o))) ∷ ws) j f n k = (tt, all-Passed ws j.1 f n k)
  all-Passed ((a, finished (answered (err m))) ∷ ws) j f n k = cc
  all-Passed ((a, finished skipped) ∷ ws) j f n k = cc
  all-Passed ((a, _) ∷ ws) j f n k = cc

  complete-parts :
      (g : Group A O S R)
      → complete g ≡ true
      → g.returned ≡ none
      → (g.channel ≡ []) × (all_finished g.workers ≡ true)
  unfolding complete
  complete-parts g done nothing = go g.returned g.channel done nothing
    where
      go :
          (ret : Option R) (ch : List (Response A O))
          → (elim ret [
            | some r ↦ true
            | none ↦ elim ch [ [] ↦ all_finished g.workers | _ ∷ _ ↦ false ]
          ])
            ≡ true
          → ret ≡ none
          → (ch ≡ []) × (all_finished g.workers ≡ true)
      go (some r) ch d n = cc
      go none [] d n = (refl, d)
      go none (x ∷ ch) d n = cc

  Inv-Passed :
      (g : Group A O S R)
      → Inv g
      → complete g ≡ true
      → g.returned ≡ none
      → g.expired ≡ false
      → AllWorkers Passed g.workers
  Inv-Passed g v done nothing intime =
      let (empty, ended) = complete-parts g done nothing in
      let no_failure : some_stage failed g.workers ≡ false =
        unfold has_failure in ground (arith, v.failures, empty, nothing) in
      let no_skip : some_stage is_skipped g.workers ≡ false =
        ground (arith, v.skipped_why, v.cancelled_why, no_failure, intime) in
      all-Passed g.workers v.justified ended no_failure no_skip

  -- In a complete run of a group that is cancelled by failures only, whose reader returns at the
  -- first failure, if nothing was returned and the deadline did not pass, then each config passed.
  pub group-Passed :
      p.strategy ≡ all
      → ((s : S) (r : Response A O) → is_failure r.result ≡ true → is_some (p.handle s r).1 ≡ true)
      → (configs : List A) (expired : Bool) (s : S) (es : List (Event O))
      → let g = exec p (open_group configs expired s) es in
        complete g ≡ true → g.returned ≡ none → g.expired ≡ false → AllWorkers Passed g.workers
  group-Passed strategy-eq stops configs expired s es =
      Inv-Passed (exec p (open_group configs expired s) es) (
        Inv-exec strategy-eq stops (open_group configs expired s) es
          (Inv-open_group configs expired s))
