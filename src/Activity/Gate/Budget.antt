-- ===== src/Activity/Gate/Budget.antt =====
-- Unknown samples: a structural reason defers at once, a transient one after a minute without news.
use llm_env.Prelude.{ℕ, ◌+◌, ◌*◌, ◌≤◌, ◌<◌, ◌≡◌, true, false, none, some, List, [], ◌∷◌, arith, All}
use llm_env.Activity.Sample.{Class}
use llm_env.Activity.Gate.{
  Gate, Observation, Answer, ms_per_s, unknown_budget_s, is_structural, step, run,
}

-- Before the deadline, an unknown sample whose reason is missing or is none of age, io and clock is
-- answered by `defer_unknown`, whatever the gate has seen; from the deadline on every sample is
-- answered by `defer_deadline`.
pub structural_defers :
    (g : Gate) (o : Observation)
    → (g.deadline ≤ o.now → (step g o).1 ≡ Answer.defer_deadline)
      × (o.now < g.deadline
          → o.class ≡ Class.unknown
          → is_structural o.reason ≡ true
          → (step g o).1 ≡ Answer.defer_unknown)
unfolding step
structural_defers g o = (λ late. ground arith, λ live k s. ground arith)

-- A transient unknown observation before the deadline, at most at `until`.
abbrev pub IsTransientBy : ℕ → ℕ → Observation → Type 0
IsTransientBy dl until o =
    (o.class ≡ Class.unknown) × (is_structural o.reason ≡ false) × (o.now < dl) × (o.now ≤ until)

record IsStalled (dl since : ℕ) (g : Gate) : Type 0 where
  ends : g.deadline ≡ dl
  stalled : g.unknown_since ≡ some since
  dropped : g.quiet_since ≡ none

abbrev pub budget : ℕ
budget = ms_per_s * unknown_budget_s

stalls :
    (dl since : ℕ) (g : Gate) (o : Observation)
    → IsStalled dl since g
    → IsTransientBy dl (since + budget) o
    → IsStalled dl since (step g o).0 × ((step g o).1 ≡ Answer.wait)
unfolding step
stalls dl since g o i t = ground arith

run_stalls :
    (dl since : ℕ) (g : Gate) (x : Answer) (os : List Observation)
    → IsStalled dl since g
    → x ≡ Answer.wait
    → All (IsTransientBy dl (since + budget)) os
    → IsStalled dl since (run g x os).0 × ((run g x os).1 ≡ Answer.wait)
unfolding run
run_stalls dl since g x [] i e t = (i, e)
run_stalls dl since g x (o ∷ os) i e t =
    let (j, w) = stalls dl since g o i t.0 in
    run_stalls dl since (step g o).0 (step g o).1 os j w t.1

first_stalls :
    (g : Gate) (o : Observation)
    → g.unknown_since ≡ none
    → IsTransientBy g.deadline o.now o
    → IsStalled g.deadline o.now (step g o).0 × ((step g o).1 ≡ Answer.wait)
unfolding step
first_stalls g o n t = ground arith

overdue :
    (dl since : ℕ) (g : Gate) (o : Observation)
    → IsStalled dl since g
    → o.class ≡ Class.unknown
    → o.now < dl
    → since + budget < o.now
    → (step g o).1 ≡ Answer.defer_unknown
unfolding step
overdue dl since g o i k live late = ground arith

-- A stretch of transient unknown samples that begins at `o` is waited through, with no quiet window
-- kept, as long as none is later than 60 seconds after `o`; the first unknown one that is later,
-- still before the deadline, defers.
pub transient_budget :
    (g : Gate) (o last : Observation) (os : List Observation)
    → g.unknown_since ≡ none
    → IsTransientBy g.deadline o.now o
    → All (IsTransientBy g.deadline (o.now + budget)) os
    → last.class ≡ Class.unknown
    → last.now < g.deadline
    → o.now + budget < last.now
    → let (g', answer) = run g Answer.wait (o ∷ os) in
      (answer ≡ Answer.wait) × (g'.quiet_since ≡ none) × ((step g' last).1 ≡ Answer.defer_unknown)
unfolding run
transient_budget g o last os n t ts k live late =
    let (j, w) = first_stalls g o n t in
    let (i, w') = run_stalls g.deadline o.now (step g o).0 (step g o).1 os j w ts in
    (w', i.dropped, overdue g.deadline o.now _ last i k live late)
