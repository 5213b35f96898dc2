-- ===== src/Group/Expired.antt =====
-- The groups of pkg/service/auth_pipeline.go that begin after the deadline: every config is skipped,
-- and the phase returns nothing.
use mathlib.Core.Path.{subst}
use mathlib.Core.Option.{some-injective}
use authorino.Common.{
  ℕ, zero, suc, Bool, true, Option, none, some, List, [], ◌∷◌, Outcome, ◌≡◌, refl, arith,
  Option-cases, inl, inr, sym, if◌then◌else◌,
}
use authorino.Group.{
  Stage, waiting, checked, calling, replied, finished, skipped, Event, check, conditions, callback,
  reply, read, expire, Response, Group, Phase, stage_at, open_group, step, exec, with_worker,
  check_worker, conditions_worker, reply_worker, callback_worker, read_channel,
}
use authorino.Group.Loop.{PhaseEnd, run_groups}
use authorino.Group.Workers.{AllWorkers, AllWorkers-set, AllWorkers-start}
use authorino.Group.Kept.{LoopEnd, run_groups-cons, exec-expired}

module _ {A O S R : Type 0} (p : Phase A O S R) where
  abbrev IsIdle : A → Stage O → Type 0
  IsIdle a waiting = Unit
  IsIdle a (finished skipped) = Unit
  IsIdle a _ = ⊥

  AllWorkers-at :
      (ws : List (A × Stage O)) (i : ℕ) (w : A × Stage O)
      → AllWorkers IsIdle ws
      → stage_at ws i ≡ some w
      → IsIdle w.0 w.1
  unfolding stage_at
  AllWorkers-at [] i w h e = cc
  AllWorkers-at ((a, st) ∷ ws) zero w h e =
      subst (λ (x : A × Stage O). IsIdle x.0 x.1) (some-injective (a, st) w e) h.0
  AllWorkers-at ((a, st) ∷ ws) (suc i) w h e = AllWorkers-at ws i w h.1 e

  record Inv (g : Group A O S R) : Type 0 where
    done : g.cancelled ≡ true
    quiet : g.channel ≡ []
    nothing : g.returned ≡ none
    idle : AllWorkers IsIdle g.workers

  Inv-worker :
      (g : Group A O S R) (i : ℕ) (f : A × Stage O → Group A O S R)
      → Inv g
      → ((w : A × Stage O) → IsIdle w.0 w.1 → Inv (f w))
      → Inv (with_worker g i f)
  unfolding with_worker
  Inv-worker g i f v k = elim (Option-cases (stage_at g.workers i)) [
    | inl e ↦ rw (e, with_worker) v
    | inr (w, e) ↦ rw (e, with_worker) (k w (AllWorkers-at g.workers i w v.idle e))
  ]

  Inv-check :
      (g : Group A O S R) (i : ℕ) (w : A × Stage O)
      → Inv g
      → IsIdle w.0 w.1
      → Inv (check_worker g i w)
  unfolding check_worker
  Inv-check g i (a, waiting) v h =
      let skip : ◌≡◌ {A = Stage O} (if g.cancelled then finished skipped else checked)
          (finished skipped) =
        ground (arith, v.done) in
      record {
        done = v.done;
        quiet = v.quiet;
        nothing = v.nothing;
        idle = rw skip (AllWorkers-set IsIdle g.workers i (finished skipped) (λ w e k. tt) v.idle);
      }
  Inv-check g i (a, _) v h = v

  Inv-conditions :
      (g : Group A O S R) (i : ℕ) (w : A × Stage O)
      → Inv g
      → IsIdle w.0 w.1
      → Inv (conditions_worker p g i w)
  unfolding conditions_worker
  Inv-conditions g i (a, checked) v h = elim h [ ]
  Inv-conditions g i (a, _) v h = v

  Inv-reply :
      (g : Group A O S R) (i : ℕ) (o : Outcome O) (w : A × Stage O)
      → Inv g
      → IsIdle w.0 w.1
      → Inv (reply_worker g i o w)
  unfolding reply_worker
  Inv-reply g i o (a, calling) v h = elim h [ ]
  Inv-reply g i o (a, _) v h = v

  Inv-callback :
      (g : Group A O S R) (i : ℕ) (w : A × Stage O)
      → Inv g
      → IsIdle w.0 w.1
      → Inv (callback_worker p g i w)
  unfolding callback_worker
  Inv-callback g i (a, replied r) v h = elim h [ ]
  Inv-callback g i (a, _) v h = v

  Inv-read :
      (g : Group A O S R) (ret : Option R) (ch : List (Response A O))
      → Inv g
      → g.channel ≡ ch
      → Inv (read_channel p g ret ch)
  unfolding read_channel
  Inv-read g (some r) ch v e = v
  Inv-read g none [] v e = v
  Inv-read g none (x ∷ ch) v e = absurd (ground (arith, v.quiet, e))

  Inv-step : (g : Group A O S R) (e : Event O) → Inv g → Inv (step p g e)
  unfolding step
  Inv-step g (check i) v = Inv-worker g i (check_worker g i) v (λ w. Inv-check g i w v)
  Inv-step g (conditions i) v =
      Inv-worker g i (conditions_worker p g i) v (λ w. Inv-conditions g i w v)
  Inv-step g (reply i o) v = Inv-worker g i (reply_worker g i o) v (λ w. Inv-reply g i o w v)
  Inv-step g (callback i) v = Inv-worker g i (callback_worker p g i) v (λ w. Inv-callback g i w v)
  Inv-step g read v = Inv-read g g.returned g.channel v refl
  Inv-step g expire v = record { done = refl; quiet = v.quiet; nothing = v.nothing; idle = v.idle }

  Inv-exec : (g : Group A O S R) (es : List (Event O)) → Inv g → Inv (exec p g es)
  unfolding exec
  Inv-exec g [] v = v
  Inv-exec g (e ∷ es) v = Inv-exec (step p g e) es (Inv-step g e v)

  expired_nothing :
      (configs : List A) (s : S) (es : List (Event O))
      → (exec p (open_group configs true s) es).returned ≡ none
  expired_nothing configs s es =
      (Inv-exec (open_group configs true s) es (
        unfold open_group in
        record {
          done = refl;
          quiet = refl;
          nothing = refl;
          idle = AllWorkers-start IsIdle configs (λ a. tt);
        })).nothing

  -- A phase that begins after the deadline returns nothing, whatever its groups and their schedule.
  pub loop_expired :
      (groups : List (List A)) (schedule : List (List (Event O))) (expired : Bool) (s : S)
      (e : PhaseEnd A O S R)
      → run_groups p groups schedule expired s ≡ some e
      → expired ≡ true
      → e.returned ≡ none
  loop_expired [] schedule expired s e h x = unfold run_groups in ground arith
  loop_expired (configs ∷ groups) [] expired s e h x = unfold run_groups in cc
  loop_expired (configs ∷ groups) (es ∷ schedule) expired s e h x =
      let g = exec p (open_group configs expired s) es in
      let ends : LoopEnd p g g.returned (run_groups p groups schedule g.expired g.state) e =
        (run_groups-cons p configs groups es schedule expired s e h).1 in
      elim ends [
        | inl (r, k, same) ↦ absurd (
            ground (
              arith,
              k,
              subst (λ (b : Bool). (exec p (open_group configs b s) es).returned ≡ none) (sym x)
                  (expired_nothing configs s es),
            ))
        | inr (e', k, rest, same) ↦ rw same (
            loop_expired groups schedule g.expired g.state e' rest
              (exec-expired p configs expired s es x))
      ]
