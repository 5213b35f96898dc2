-- ===== src/Group/Successes.antt =====
-- The groups of pkg/service/auth_pipeline.go: what the reader handles, a worker has sent.
use mathlib.Core.Path.{subst}
use mathlib.Core.Option.{some-injective}
use authorino.Common.{
  ℕ, zero, suc, Bool, Option, none, some, List, [], ◌∷◌, ◌++◌, Outcome, ◌≡◌, ◌⊎◌, inl, inr, refl,
  Option-cases, sym, ◌∙◌, ap,
}
use authorino.Group.{
  Stage, waiting, checked, calling, replied, finished, answered, Event, check, conditions, callback,
  reply, read, expire, Response, Group, Phase, stage_at, set_stage, open_group, step, exec,
  with_worker, check_worker, conditions_worker, reply_worker, callback_worker, read_channel,
}

-- The stage is behind a reply with this outcome.
abbrev pub HasReplied : {O : Type 0} → Outcome O → Stage O → Type 0
HasReplied o (replied r) = r ≡ o
HasReplied o (finished (answered r)) = r ≡ o
HasReplied o _ = ⊥

module _ {A O : Type 0} where
  -- Some worker of the config has replied with this outcome.
  abbrev pub Answered : List (A × Stage O) → A → Outcome O → Type 0
  Answered [] a o = ⊥
  Answered ((b, st) ∷ ws) a o = ((b ≡ a) × HasReplied o st) ⊎ Answered ws a o

  Answered-set :
      (ws : List (A × Stage O)) (i : ℕ) (st : Stage O) (a : A) (o : Outcome O)
      → ((w : A × Stage O) → stage_at ws i ≡ some w → HasReplied o w.1 → HasReplied o st)
      → Answered ws a o
      → Answered (set_stage ws i st) a o
  unfolding stage_at set_stage
  Answered-set [] i st a o k h = h
  Answered-set ((b, old) ∷ ws) zero st a o k (inl h) = inl (h.0, k (b, old) refl h.1)
  Answered-set ((b, old) ∷ ws) zero st a o k (inr h) = inr h
  Answered-set ((b, old) ∷ ws) (suc i) st a o k (inl h) = inl h
  Answered-set ((b, old) ∷ ws) (suc i) st a o k (inr h) = inr (Answered-set ws i st a o k h)

  Answered-new :
      (ws : List (A × Stage O)) (i : ℕ) (w : A × Stage O) (o : Outcome O)
      → stage_at ws i ≡ some w
      → Answered (set_stage ws i (replied o)) w.0 o
  unfolding stage_at set_stage
  Answered-new [] i w o e = cc
  Answered-new ((b, old) ∷ ws) zero w o e =
      inl (ap (λ (x : A × Stage O). x.0) (some-injective (b, old) w e), refl)
  Answered-new ((b, old) ∷ ws) (suc i) w o e = inr (Answered-new ws i w o e)

  abbrev AllSent : List (A × Stage O) → List (Response A O) → Type 0
  AllSent ws [] = Unit
  AllSent ws (r ∷ rs) = Answered ws r.evaluator r.result × AllSent ws rs

  AllSent-mono :
      (ws vs : List (A × Stage O)) (rs : List (Response A O))
      → ((a : A) (o : Outcome O) → Answered ws a o → Answered vs a o)
      → AllSent ws rs
      → AllSent vs rs
  AllSent-mono ws vs [] k h = tt
  AllSent-mono ws vs (r ∷ rs) k h = (k r.evaluator r.result h.0, AllSent-mono ws vs rs k h.1)

  AllSent-append :
      (ws : List (A × Stage O)) (rs : List (Response A O)) (r : Response A O)
      → AllSent ws rs
      → Answered ws r.evaluator r.result
      → AllSent ws (rs ++ (r ∷ []))
  AllSent-append ws [] r h k = (k, tt)
  AllSent-append ws (x ∷ rs) r h k = (h.0, AllSent-append ws rs r h.1 k)

module _ {A O S R : Type 0} (p : Phase A O S R) where
  -- What a group returned is what the phase makes of a response that a worker sent.
  abbrev pub FromResponse : List (A × Stage O) → R → Type 0
  FromResponse ws r =
      (a : A) × (o : Outcome O) × (s : S) × Answered ws a o
      × ((p.handle s (record { evaluator = a; result = o })).1 ≡ some r)

  record Inv (g : Group A O S R) : Type 0 where
    sent : AllSent g.workers g.channel
    from_response : (r : R) → g.returned ≡ some r → FromResponse g.workers r

  Inv-moved :
      (g : Group A O S R) (i : ℕ) (a : A) (from to : Stage O) (c : Bool)
      → Inv g
      → stage_at g.workers i ≡ some (a, from)
      → ((o : Outcome O) → HasReplied o from → HasReplied o to)
      → Inv (record g { workers = set_stage g.workers i to; cancelled = c })
  Inv-moved g i a from to c v e k = record {
    sent = AllSent-mono g.workers (set_stage g.workers i to) g.channel keep v.sent;
    from_response = λ r h. let (b, o, s, x, y) = v.from_response r h in (b, o, s, keep b o x, y);
  }
    where
      keep :
          (b : A) (o : Outcome O) → Answered g.workers b o → Answered (set_stage g.workers i to) b o
      keep b o = Answered-set g.workers i to b o (λ w f h. k o (
          subst (λ (x : A × Stage O). HasReplied o x.1) (some-injective w (a, from) (sym f ∙ e)) h))

  Inv-check :
      (g : Group A O S R) (i : ℕ) (w : A × Stage O)
      → Inv g
      → stage_at g.workers i ≡ some w
      → Inv (check_worker g i w)
  unfolding check_worker
  Inv-check g i (a, waiting) v e = Inv-moved g i a waiting _ g.cancelled v e (λ o h. elim h [ ])
  Inv-check g i (a, _) v e = v

  Inv-conditions :
      (g : Group A O S R) (i : ℕ) (w : A × Stage O)
      → Inv g
      → stage_at g.workers i ≡ some w
      → Inv (conditions_worker p g i w)
  unfolding conditions_worker
  Inv-conditions g i (a, checked) v e =
      Inv-moved g i a checked _ g.cancelled v e (λ o h. elim h [ ])
  Inv-conditions g i (a, _) v e = v

  Inv-callback :
      (g : Group A O S R) (i : ℕ) (w : A × Stage O)
      → Inv g
      → stage_at g.workers i ≡ some w
      → Inv (callback_worker p g i w)
  unfolding callback_worker
  Inv-callback g i (a, replied r) v e =
      Inv-moved g i a (replied r) (finished (answered r)) _ v e (λ o h. h)
  Inv-callback g i (a, _) v e = v

  Inv-reply :
      (g : Group A O S R) (i : ℕ) (o : Outcome O) (w : A × Stage O)
      → Inv g
      → stage_at g.workers i ≡ some w
      → Inv (reply_worker g i o w)
  unfolding reply_worker
  Inv-reply g i o (a, calling) v e =
      let m = Inv-moved g i a calling (replied o) g.cancelled v e (λ o h. elim h [ ]) in
      record {
        sent =
            AllSent-append (set_stage g.workers i (replied o)) g.channel
              (record { evaluator = a; result = o }) m.sent
              (Answered-new g.workers i (a, calling) o e);
        from_response = m.from_response;
      }
  Inv-reply g i o (a, _) v e = v

  Inv-read :
      (g : Group A O S R) (ret : Option R) (ch : List (Response A O))
      → Inv g
      → AllSent g.workers ch
      → Inv (read_channel p g ret ch)
  unfolding read_channel
  Inv-read g (some r) ch v h = v
  Inv-read g none [] v h = v
  Inv-read g none (x ∷ rest) v h = record {
    sent = h.1;
    from_response = λ r k. (x.evaluator, x.result, g.state, h.0, k);
  }

  with_worker-Inv :
      (g : Group A O S R) (i : ℕ) (f : A × Stage O → Group A O S R)
      → Inv g
      → ((w : A × Stage O) → stage_at g.workers i ≡ some w → Inv (f w))
      → Inv (with_worker g i f)
  unfolding with_worker
  with_worker-Inv g i f h k = elim (Option-cases (stage_at g.workers i)) [
    | inl e ↦ rw (e, with_worker) h
    | inr (w, e) ↦ rw (e, with_worker) (k w e)
  ]

  Inv-step : (g : Group A O S R) (e : Event O) → Inv g → Inv (step p g e)
  unfolding step
  Inv-step g (check i) v = with_worker-Inv g i (check_worker g i) v (λ w e. Inv-check g i w v e)
  Inv-step g (conditions i) v =
      with_worker-Inv g i (conditions_worker p g i) v (λ w e. Inv-conditions g i w v e)
  Inv-step g (reply i o) v =
      with_worker-Inv g i (reply_worker g i o) v (λ w e. Inv-reply g i o w v e)
  Inv-step g (callback i) v =
      with_worker-Inv g i (callback_worker p g i) v (λ w e. Inv-callback g i w v e)
  Inv-step g read v = Inv-read g g.returned g.channel v v.sent
  Inv-step g expire v = record { sent = v.sent; from_response = v.from_response }

  Inv-exec : (g : Group A O S R) (es : List (Event O)) → Inv g → Inv (exec p g es)
  unfolding exec
  Inv-exec g [] v = v
  Inv-exec g (e ∷ es) v = Inv-exec (step p g e) es (Inv-step g e v)

  -- In every run of a group, what the reader returned is what the phase makes, at some state, of a
  -- response that the `Call` of one of the group's workers gave in that run.
  pub returned-FromResponse :
      (configs : List A) (expired : Bool) (s : S) (es : List (Event O)) (r : R)
      → let g = exec p (open_group configs expired s) es in
        g.returned ≡ some r → FromResponse g.workers r
  unfolding open_group
  returned-FromResponse configs expired s es =
      (Inv-exec (open_group configs expired s) es
        (record { sent = tt; from_response = λ r h. cc })).from_response
