-- ===== src/Interference.antt =====
-- pylib/interference.py, `evaluate`: the verdict on a model load from the snapshots taken before and
-- after it and the latency samples, which are in whole microseconds. What is only recorded (memory,
-- swap, the regression warning) and the reading of files are left out.
pub mod Passed
mod Tests
use llm_env.Prelude.{
  ℕ, ◌+◌, ◌-◌, ◌*◌, ◌/◌, min, Bool, true, false, not, ◌&&◌, ◌||◌, Option, none, some, String, List,
  [], ◌∷◌, ◌++◌, length, get_elem?, ltb, leb, ◌==◌, lookup, or_else, str_eq, any, if◌then◌else◌,
}

-- A service in a snapshot; a counter that is missing or null counts as 0.
pub record Row : Type 0 where
  pub running : Bool
  pub uptime_s : Option ℕ
  pub events : List (String × ℕ)

abbrev pub Snapshot : Type 0
Snapshot = List (String × Row)

pub record Latency : Type 0 where
  pub samples : List ℕ
  pub non200 : ℕ

pub record Thresholds : Type 0 where
  pub max_p95 : ℕ
  pub max_p50 : ℕ

pub data Failure : Type 0 where
  not_measured no_sample non200_responses slow_p95 slow_p50 no_load : Failure
  stopped restarted : String → Failure
  counter_grew : String → String → Failure

abbrev pub event_counters : List String
event_counters = "high" ∷ "max" ∷ "oom" ∷ "oom_kill" ∷ []

unfoldable pub insert_sorted : ℕ → List ℕ → List ℕ
insert_sorted x [] = x ∷ []
insert_sorted x (y ∷ ys) = let rest = insert_sorted x ys in if leb x y then x ∷ y ∷ ys else y ∷ rest

unfoldable pub sorted : List ℕ → List ℕ
unfolding insert_sorted
sorted [] = []
sorted (x ∷ xs) = insert_sorted x (sorted xs)

-- `percentile`, with the rank in hundredths.
unfoldable pub percentile : List ℕ → ℕ → Option ℕ
unfolding sorted
percentile values q = get_elem? (sorted values) (min (length values * q / 100) (length values - 1))

-- `_running`
unfoldable pub is_running : Snapshot → String → Bool
is_running snap service = elim (lookup service snap) [ none ↦ false | some row ↦ row.running ]

abbrev pub exceeds : Option ℕ → ℕ → Bool
exceeds none limit = false
exceeds (some n) limit = ltb limit n

abbrev pub fail_if : Bool → Failure → List Failure
fail_if true f = f ∷ []
fail_if false f = []

-- The checks of System One's latency.
unfoldable pub latency_failures : Thresholds → Snapshot → Option Latency → List Failure
unfolding percentile is_running
latency_failures t before none = fail_if (is_running before "system_one") not_measured
latency_failures t before (some during) =
    fail_if (length during.samples == 0) no_sample
    ++ (fail_if (ltb 0 during.non200) non200_responses
        ++ (fail_if (exceeds (percentile during.samples 95) t.max_p95) slow_p95
            ++ fail_if (exceeds (percentile during.samples 50) t.max_p50) slow_p50))

abbrev pub has_stopped : Snapshot → Snapshot → String → Bool
has_stopped before after service = is_running before service && not (is_running after service)

unfoldable pub stopped_failures : Snapshot → Snapshot → Snapshot → List Failure
unfolding is_running
stopped_failures before after [] = []
stopped_failures before after ((service, row) ∷ rest) =
    fail_if (has_stopped before after service) (stopped service)
    ++ stopped_failures before after rest

abbrev pub counter : Row → String → ℕ
counter row c = or_else (lookup c row.events) 0

abbrev pub is_reset : Option ℕ → Option ℕ → Bool
is_reset (some before) (some after) = ltb after before
is_reset _ _ = false

unfoldable pub counter_failures : String → Row → Row → List String → List Failure
counter_failures service before after [] = []
counter_failures service before after (c ∷ cs) =
    fail_if (ltb (counter before c) (counter after c)) (counter_grew service c)
    ++ counter_failures service before after cs

-- The body of the loop over the services, for one that is running in both snapshots.
unfoldable pub row_failures : String → Row → Option Row → List Failure
unfolding counter_failures
row_failures service before none = []
row_failures service before (some after) =
    if is_reset before.uptime_s after.uptime_s
    then restarted service ∷ []
    else counter_failures service before after event_counters

unfoldable pub service_failures : Snapshot → Snapshot → Snapshot → List Failure
unfolding is_running row_failures
service_failures before after [] = []
service_failures before after ((service, row) ∷ rest) =
    (if has_stopped before after service || not (is_running before service)
      then []
      else row_failures service row (lookup service after))
    ++ service_failures before after rest

-- `evaluate`: its `failures`; `load` is the statuses of the load requests.
unfoldable pub evaluate :
    Thresholds → Snapshot → Snapshot → Option Latency → List String → List Failure
unfolding latency_failures stopped_failures service_failures
evaluate t before after system_one load =
    latency_failures t before system_one
    ++ (stopped_failures before after before
        ++ (service_failures before after before
            ++ fail_if (not (any (λ status. str_eq status "200") load)) no_load))
