-- ===== src/Activity/Gate.antt =====
-- pylib/omniroute_activity.py, `IdleGate`: a state machine fed one classified sample at a time. It
-- answers `ready` only behind a quiet window of `min_wait` seconds and one confirming resample.
-- Clock readings are whole milliseconds; a comparison of differences is written on sums, which is
-- the same comparison also where a difference is negative.
pub mod Window
pub mod Liveness
pub mod Budget
mod Tests
use llm_env.Prelude.{
  ℕ, ◌+◌, ◌*◌, ◌-◌, Bool, true, false, not, ◌&&◌, ◌||◌, Option, none, some, List, [], ◌∷◌, ◌≡◌, ltb,
  leb, ◌==◌, if◌then◌else◌,
}
use llm_env.Deferral.{Reason, is_transient}
use llm_env.Activity.Sample.{Class}

abbrev pub ms_per_s : ℕ
ms_per_s = 1000

abbrev pub unknown_budget_s : ℕ
unknown_budget_s = 60

pub record Gate : Type 0 where
  pub min_wait : ℕ  -- seconds
  pub deadline : ℕ
  pub base_ts : Option ℕ
  pub advanced : Bool
  pub quiet_since : Option ℕ
  pub quiet_gens : Option (ℕ × ℕ)
  pub resampling : Bool
  pub unknown_since : Option ℕ

-- The arguments of one call of `step`.
pub record Observation : Type 0 where
  pub now : ℕ
  pub class : Class
  pub arrival_generation : ℕ
  pub row_generation : ℕ
  pub health_timestamp_ms : Option ℕ
  pub reason : Option Reason

pub data Answer : Type 0 where
  defer_deadline defer_unknown wait resample ready : Answer

-- `IdleGate.__init__`
unfoldable pub init : ℕ → ℕ → Gate
init min_wait deadline = record {
  min_wait = min_wait;
  deadline = deadline;
  base_ts = none;
  advanced = false;
  quiet_since = none;
  quiet_gens = none;
  resampling = false;
  unknown_since = none;
}

-- `max(0.0, self.deadline - now)`
unfoldable pub remaining : Gate → ℕ → ℕ
remaining g now = g.deadline - now

abbrev pub gens : Observation → ℕ × ℕ
gens o = (o.arrival_generation, o.row_generation)

abbrev pub gens_eq : ℕ × ℕ → ℕ × ℕ → Bool
gens_eq (a, r) (b, s) = a == b && r == s

-- The quiet window is dropped.
abbrev drop_window : Gate → Gate
drop_window g = record g { quiet_since = none; quiet_gens = none; resampling = false }

-- `reason not in TRANSIENT_REASONS`, where the reason may be missing.
abbrev is_structural : Option Reason → Bool
is_structural none = true
is_structural (some r) = not (is_transient r)

abbrev start_unknown : Option ℕ → ℕ → ℕ
start_unknown none now = now
start_unknown (some since) now = since

-- The branch of an unknown sample.
unfoldable pub step_unknown : Gate → Observation → Gate × Answer
step_unknown g o =
    let since = start_unknown g.unknown_since o.now in
    let g' = record g { unknown_since = some since } in
    if is_structural o.reason || ltb (since + ms_per_s * unknown_budget_s) o.now
    then (g', Answer.defer_unknown)
    else (drop_window g', Answer.wait)

-- The health timestamp: the first one is the base, a later one above it is the advance.
abbrev note_base : Option ℕ → Option ℕ → Option ℕ
note_base base none = base
note_base none (some ts) = some ts
note_base (some b) (some ts) = some b

abbrev note_advance : Option ℕ → Bool → Option ℕ → Bool
note_advance base adv none = adv
note_advance none adv (some ts) = adv
note_advance (some b) adv (some ts) = if ltb b ts then true else adv

abbrev note_health : Gate → Option ℕ → Gate
note_health g ts = record g {
  base_ts = note_base g.base_ts ts;
  advanced = note_advance g.base_ts g.advanced ts;
}

abbrev is_busy_class : Class → Bool
is_busy_class Class.busy = true
is_busy_class _ = false

-- `self.quiet_gens is not None and gens != self.quiet_gens`
abbrev gens_moved : Option (ℕ × ℕ) → ℕ × ℕ → Bool
gens_moved none new = false
gens_moved (some old) new = not (gens_eq new old)

-- The window is open since `q`.
abbrev step_open : Gate → ℕ → ℕ → Gate × Answer
step_open g q now =
    if ltb now (q + ms_per_s * g.min_wait)
    then (g, Answer.wait)
    else if not g.resampling
    then (record g { resampling = true }, Answer.resample)
    else (g, Answer.ready)

abbrev step_quiet : Gate → Option ℕ → Observation → Gate × Answer
step_quiet g none o =
    (record g { quiet_since = some o.now; quiet_gens = some (gens o) }, Answer.wait)
step_quiet g (some q) o = step_open g q o.now

-- The rest of `step`, after a sample that is not unknown.
unfoldable pub step_known : Gate → Observation → Gate × Answer
step_known g o =
    let g' = note_health (record g { unknown_since = none }) o.health_timestamp_ms in
    if is_busy_class o.class || gens_moved g'.quiet_gens (gens o)
    then (drop_window g', Answer.wait)
    else if not g'.advanced
    then (g', Answer.wait)
    else step_quiet g' g'.quiet_since o

abbrev step_class : Class → Gate → Observation → Gate × Answer
step_class Class.unknown g o = step_unknown g o
step_class _ g o = step_known g o

unfoldable pub step : Gate → Observation → Gate × Answer
unfolding step_unknown step_known
step g o = if leb g.deadline o.now then (g, Answer.defer_deadline) else step_class o.class g o

abbrev pub continues : Answer → Bool
continues Answer.wait = true
continues Answer.resample = true
continues _ = false

-- A gate made by `init`, and the observations given to it so far, the newest first, while no
-- answer was a deferral or `ready`: the updater stops at the first of those.
pub data Session (min_wait deadline : ℕ) : Gate → List Observation → Type 0 where
  start : Session min_wait deadline (init min_wait deadline) []
  next :
      {g : Gate} {h : List Observation}
      → Session min_wait deadline g h
      → (o : Observation) → continues (step g o).1 ≡ true
      → Session min_wait deadline (step g o).0 (o ∷ h)

-- The gate after more observations, the oldest first, and its last answer.
unfoldable pub run : Gate → Answer → List Observation → Gate × Answer
run g a [] = (g, a)
run g a (o ∷ later) = let (g', a') = step g o in run g' a' later
