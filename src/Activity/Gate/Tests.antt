-- ===== src/Activity/Gate/Tests.antt =====
-- The gate at concrete observations, in milliseconds.
use llm_env.Prelude.{ℕ, ◌≡◌, refl, none, some, [], ◌∷◌, arith}
use llm_env.Deferral.{Reason}
use llm_env.Activity.Sample.{Class}
use llm_env.Activity.Gate.{Gate, Observation, Answer, Session, start, next, init, step, run}
use llm_env.Activity.Gate.Window.{Quiesced, ready-Quiesced}
use llm_env.Activity.Gate.Liveness.{idle_reaches-ready}
use llm_env.Activity.Gate.Budget.{transient_budget}

abbrev seen : Class → ℕ → ℕ → ℕ → Observation
seen k now arrivals health = record {
  now = now;
  class = k;
  arrival_generation = arrivals;
  row_generation = 0;
  health_timestamp_ms = some health;
  reason = some Reason.ready;
}

abbrev idle_at : ℕ → ℕ → Observation
idle_at now health = seen Class.idle now 4 health

-- An unknown sample, with its reason.
abbrev unknown_at : ℕ → Reason → Observation
unknown_at now r = record {
  now = now;
  class = Class.unknown;
  arrival_generation = 0;
  row_generation = 0;
  health_timestamp_ms = none;
  reason = some r;
}

-- A wait of two seconds and a deadline at one minute.
abbrev gate : Gate
gate = init 2 60000

-- A busy sample in the window starts the wait again.
busy_resets :
    (run gate Answer.wait
      (idle_at 0 1 ∷ idle_at 1000 2 ∷ seen Class.busy 2000 5 3 ∷ idle_at 3500 4 ∷ [])).1
    ≡ Answer.wait
unfolding run step init
busy_resets = refl

session :
    Session 2 60000
      (step (step (step gate (idle_at 0 1)).0 (idle_at 1000 2)).0 (idle_at 3000 3)).0
      (idle_at 3000 3 ∷ idle_at 1000 2 ∷ idle_at 0 1 ∷ [])
unfolding step init
session = next (next (next start (idle_at 0 1) refl) (idle_at 1000 2) refl) (idle_at 3000 3) refl

ready-Quiesced_example :
    Quiesced 2 60000 (idle_at 4000 4) (idle_at 3000 3 ∷ idle_at 1000 2 ∷ idle_at 0 1 ∷ [])
unfolding step init
ready-Quiesced_example = ready-Quiesced (idle_at 4000 4) session refl

idle_reaches-ready_example :
    (run gate Answer.wait
      (idle_at 0 1 ∷ idle_at 1000 2 ∷ idle_at 2000 2 ∷ idle_at 3000 3 ∷ idle_at 4000 4 ∷ [])).1
    ≡ Answer.ready
idle_reaches-ready_example =
    idle_reaches-ready 2 60000 1 2 (4, 0) (idle_at 0 1) (idle_at 1000 2) (idle_at 3000 3)
      (idle_at 4000 4) (idle_at 2000 2 ∷ []) (refl, refl, omega arith) (refl, refl, omega arith)
      refl refl (omega arith) (((refl, refl, omega arith), omega arith), tt)
      (refl, refl, omega arith) (refl, refl, omega arith) (omega arith) (omega arith)

transient_budget_example :
    let (g', answer) =
      run
        (init 2 120000)
        Answer.wait
        (unknown_at 500 Reason.age ∷ unknown_at 60500 Reason.io ∷ []) in
    (answer ≡ Answer.wait)
    × (g'.quiet_since ≡ none)
    × ((step g' (unknown_at 60501 Reason.age)).1 ≡ Answer.defer_unknown)
unfolding init
transient_budget_example =
    transient_budget (init 2 120000) (unknown_at 500 Reason.age) (unknown_at 60501 Reason.age)
      (unknown_at 60500 Reason.io ∷ []) refl (refl, refl, omega arith, omega arith)
      ((refl, refl, omega arith, omega arith), tt) refl (omega arith) (omega arith)
