-- ===== src/Group.antt =====
-- pkg/service/auth_pipeline.go: the evaluation of the configs of one priority, `evaluateAuthConfig`
-- and `evaluateAuthConfigs` with its three strategies, and the loop of a phase that reads the
-- responses from the channel.
-- Each goroutine is a worker with a stage; the loop that reads the channel runs beside them. A run
-- is a list of events, one for each step that a goroutine, the reader or the deadline of the
-- request makes, so a theorem over all lists of events is one over all interleavings. The channel
-- has room for every worker's response: a send never waits. What a config's `Call` returns is
-- chosen by the event. An event that does not fit the stage changes nothing.
pub mod Workers
pub mod Loop
pub mod Kept
pub mod Verdicts
pub mod Expired
pub mod Failures
pub mod Successes
pub mod Progress
pub mod Completion
mod Tests
use authorino.Common.{
  ℕ, zero, suc, ◌+◌, length, Bytes, Bool, true, false, ◌&&◌, ◌||◌, Option, none, some, List, [],
  ◌∷◌, ◌++◌, Outcome, ok, err, if◌then◌else◌,
}

-- How a worker ended: it found its context cancelled, its conditions did not match, or its config
-- was called and answered.
pub data Verdict (O : Type 0) : Type 0 where
  skipped unmatched : Verdict O
  answered : Outcome O → Verdict O

-- The stages of `evaluateAuthConfig`: before the context is checked, before the conditions are
-- evaluated, before `Call` returns, and after the response is sent, before the callback.
pub data Stage (O : Type 0) : Type 0 where
  waiting checked calling : Stage O
  replied : Outcome O → Stage O
  finished : Verdict O → Stage O

-- `evaluateOneAuthConfig`, `evaluateAllAuthConfigs` and `evaluateAnyAuthConfig`.
pub data Strategy : Type 0 where
  one all any : Strategy

-- Whether the callback of the strategy cancels the context of the group.
unfoldable pub cancels : {O : Type 0} → Strategy → Outcome O → Bool
cancels one (ok o) = true
cancels one (err m) = false
cancels all (ok o) = false
cancels all (err m) = true
cancels any r = false

-- A step of the worker at an index, of the reader, or the deadline of the request.
pub data Event (O : Type 0) : Type 0 where
  check conditions callback : ℕ → Event O
  reply : ℕ → Outcome O → Event O
  read expire : Event O

-- `EvaluationResponse`
pub record Response (A O : Type 0) : Type 0 where
  pub evaluator : A
  pub result : Outcome O

module _ {A O : Type 0} where
  unfoldable pub stage_at : List (A × Stage O) → ℕ → Option (A × Stage O)
  stage_at [] i = none
  stage_at (w ∷ ws) zero = some w
  stage_at (w ∷ ws) (suc i) = stage_at ws i

  unfoldable pub set_stage : List (A × Stage O) → ℕ → Stage O → List (A × Stage O)
  set_stage [] i st = []
  set_stage ((a, _) ∷ ws) zero st = (a, st) ∷ ws
  set_stage (w ∷ ws) (suc i) st = w ∷ set_stage ws i st

  -- One worker for each config.
  unfoldable pub start : List A → List (A × Stage O)
  start [] = []
  start (a ∷ configs) = (a, waiting) ∷ start configs

  unfoldable pub all_finished : List (A × Stage O) → Bool
  all_finished [] = true
  all_finished ((a, finished v) ∷ ws) = all_finished ws
  all_finished ((a, _) ∷ ws) = false

-- The state of a group: its workers, whether its context is done, whether the deadline has passed,
-- the channel, the state `S` that the phase writes to, and what the phase has returned.
pub record Group (A O S R : Type 0) : Type 0 where
  pub workers : List (A × Stage O)
  pub cancelled : Bool
  pub expired : Bool
  pub channel : List (Response A O)
  pub state : S
  pub returned : Option R

-- What a phase makes of the group: the strategy, whether a config's conditions match on the state,
-- and what the phase's loop does with a response.
pub record Phase (A O S R : Type 0) : Type 0 where
  pub strategy : Strategy
  pub applies : A → S → Bool
  pub handle : S → Response A O → S × Option R

module _ {A O S R : Type 0} where
  -- `evaluateAuthConfigs` up to the goroutines: their context is done from the start if the
  -- deadline has passed.
  unfoldable pub open_group : List A → Bool → S → Group A O S R
  unfolding start
  open_group configs expired s = record {
    workers = start configs;
    cancelled = expired;
    expired = expired;
    channel = [];
    state = s;
    returned = none;
  }

  abbrev moved : Group A O S R → ℕ → Stage O → Group A O S R
  moved g i st = record g { workers = set_stage g.workers i st }

  -- `evaluateAuthConfig`, cut at the steps at which other goroutines can come between.
  check_worker : Group A O S R → ℕ → A × Stage O → Group A O S R
  unfolding set_stage
  check_worker g i (a, waiting) = moved g i (if g.cancelled then finished skipped else checked)
  check_worker g i (a, _) = g

  conditions_worker : Phase A O S R → Group A O S R → ℕ → A × Stage O → Group A O S R
  unfolding set_stage
  conditions_worker p g i (a, checked) =
      moved g i (if p.applies a g.state then calling else finished unmatched)
  conditions_worker p g i (a, _) = g

  reply_worker : Group A O S R → ℕ → Outcome O → A × Stage O → Group A O S R
  unfolding set_stage
  reply_worker g i o (a, calling) = record g {
    workers = set_stage g.workers i (replied o);
    channel = g.channel ++ (record { evaluator = a; result = o } ∷ []);
  }
  reply_worker g i o (a, _) = g

  callback_worker : Phase A O S R → Group A O S R → ℕ → A × Stage O → Group A O S R
  unfolding set_stage cancels
  callback_worker p g i (a, replied o) = record g {
    workers = set_stage g.workers i (finished (answered o));
    cancelled = g.cancelled || cancels p.strategy o;
  }
  callback_worker p g i (a, _) = g

  -- The loop over the channel, until it returns.
  read_channel : Phase A O S R → Group A O S R → Option R → List (Response A O) → Group A O S R
  read_channel p g (some r) channel = g
  read_channel p g none [] = g
  read_channel p g none (response ∷ rest) =
      let (s, r) = p.handle g.state response in record g { channel = rest; state = s; returned = r }

  with_worker : Group A O S R → ℕ → (A × Stage O → Group A O S R) → Group A O S R
  unfolding stage_at
  with_worker g i f = elim (stage_at g.workers i) [ none ↦ g | some w ↦ f w ]

  unfoldable pub step : Phase A O S R → Group A O S R → Event O → Group A O S R
  unfolding with_worker check_worker conditions_worker reply_worker callback_worker read_channel
  step p g (check i) = with_worker g i (check_worker g i)
  step p g (conditions i) = with_worker g i (conditions_worker p g i)
  step p g (reply i o) = with_worker g i (reply_worker g i o)
  step p g (callback i) = with_worker g i (callback_worker p g i)
  step p g read = read_channel p g g.returned g.channel
  step p g expire = record g { cancelled = true; expired = true }

  unfoldable pub exec : Phase A O S R → Group A O S R → List (Event O) → Group A O S R
  exec p g [] = g
  exec p g (e ∷ es) = exec p (step p g e) es

  -- The reader is done: it has returned, or `Wait` has returned, so the channel is closed, and
  -- the channel is empty.
  unfoldable pub complete : Group A O S R → Bool
  unfolding all_finished
  complete g = elim g.returned [
    | some r ↦ true
    | none ↦ elim g.channel [ [] ↦ all_finished g.workers | _ ∷ _ ↦ false ]
  ]
