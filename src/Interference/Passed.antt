-- ===== src/Interference/Passed.antt =====
-- What a load that passes has kept.
use llm_env.Prelude.{
  ◌≤◌, ◌≡◌, refl, sym, ap, ◌∙◌, Bool, true, false, not, ◌||◌, Option, none, some, String, List, [],
  ◌∷◌, ◌++◌, length, ◌==◌, ltb, lookup, any, str_eq, All, if◌then◌else◌, arith, Bool-cases, inl,
  inr, not-ltb→le,
}
use llm_env.Interference.{
  Row, Snapshot, Latency, Thresholds, Failure, event_counters, percentile, is_running, exceeds,
  fail_if, latency_failures, has_stopped, stopped_failures, counter, is_reset, counter_failures,
  row_failures, service_failures, evaluate, no_load,
}

append_nil : (xs ys : List Failure) → xs ++ ys ≡ [] → (xs ≡ []) × (ys ≡ [])
append_nil [] ys h = (refl, h)
append_nil (x ∷ xs) ys h = cc

no_failure : (b : Bool) (f : Failure) → fail_if b f ≡ [] → b ≡ false
no_failure true f h = cc
no_failure false f h = refl

-- The later row of a service: its uptime, if both are known, did not fall, and no counter grew. A restart
-- is seen by its uptime only: a service that is up longer than before, or whose uptime is unknown, passes.
abbrev pub IsSteady : Row → Row → Type 0
IsSteady before after =
    (is_reset before.uptime_s after.uptime_s ≡ false)
    × All (λ c. counter after c ≤ counter before c) event_counters

-- A service that was running before is running after, with a steady row.
abbrev pub IsKept : Snapshot → Snapshot → String × Row → Type 0
IsKept before after (service, row) =
    is_running before service ≡ true
    → (is_running after service ≡ true)
      × ((later : Row) → lookup service after ≡ some later → IsSteady row later)

counters_kept :
    (service : String) (before after : Row) (cs : List String)
    → counter_failures service before after cs ≡ []
    → All (λ c. counter after c ≤ counter before c) cs
unfolding counter_failures
counters_kept service before after [] h = tt
counters_kept service before after (c ∷ cs) h =
    let (here, rest) = append_nil _ (counter_failures service before after cs) h in
    let e = no_failure (ltb (counter before c) (counter after c)) _ here in
    (not-ltb→le _ _ e, counters_kept service before after cs rest)

row-IsSteady :
    (service : String) (before after : Row)
    → row_failures service before (some after) ≡ []
    → IsSteady before after
unfolding row_failures
row-IsSteady service before after h = elim (Bool-cases (is_reset before.uptime_s after.uptime_s)) [
  | inl fell ↦ let f : Failure.restarted service ∷ [] ≡ [] = rw fell at h in cc
  | inr steady ↦ (steady, counters_kept service before after event_counters (rw steady at h))
]

checked :
    (stops runs : Bool) (fs : List Failure)
    → stops ≡ false
    → runs ≡ true
    → (if stops || not runs then [] else fs) ≡ []
    → fs ≡ []
checked true runs fs s r h = cc
checked false false fs s r h = cc
checked false true fs s r h = h

services-IsKept :
    (before after rows : Snapshot)
    → stopped_failures before after rows ≡ []
    → service_failures before after rows ≡ []
    → All (IsKept before after) rows
unfolding stopped_failures service_failures
services-IsKept before after [] s h = tt
services-IsKept before after ((service, row) ∷ rest) s h =
    let (stays, s') = append_nil _ (stopped_failures before after rest) s in
    let (steady, h') = append_nil _ (service_failures before after rest) h in
    let e = no_failure (has_stopped before after service) _ stays in
    (
      λ runs. (
        ground arith,
        λ later found. row-IsSteady service row later (
            sym (ap (row_failures service row) found)
            ∙ checked (has_stopped before after service) (is_running before service) _ e runs
                steady),
      ),
      services-IsKept before after rest s' h',
    )

-- The latency of System One was measured if it was running, and is within the limits.
abbrev pub IsResponsive : Thresholds → Snapshot → Option Latency → Type 0
IsResponsive t before none = is_running before "system_one" ≡ false
IsResponsive t before (some l) =
    ((length l.samples == 0) ≡ false)
    × ((ltb 0 l.non200 ≡ false)
        × ((exceeds (percentile l.samples 95) t.max_p95 ≡ false)
            × (exceeds (percentile l.samples 50) t.max_p50 ≡ false)))

latency-IsResponsive :
    (t : Thresholds) (before : Snapshot) (l : Option Latency)
    → latency_failures t before l ≡ []
    → IsResponsive t before l
unfolding latency_failures
latency-IsResponsive t before none h = no_failure _ _ h
latency-IsResponsive t before (some l) h =
    let (a, h1) = append_nil _ _ h in
    let (b, h2) = append_nil _ _ h1 in
    let (c, d) = append_nil _ _ h2 in
    (no_failure _ _ a, (no_failure _ _ b, (no_failure _ _ c, no_failure _ _ d)))

-- If `evaluate` finds no failure: System One answered within the limits or was not running; every
-- service that was running is running, with no memory event counted more often, and with an uptime
-- that did not fall, where it is known in both snapshots; and a load request was answered with status
-- 200.
pub evaluate-passed :
    (t : Thresholds) (before after : Snapshot) (l : Option Latency) (load : List String)
    → evaluate t before after l load ≡ []
    → IsResponsive t before l
      × (All (IsKept before after) before × (any (λ status. str_eq status "200") load ≡ true))
unfolding evaluate
evaluate-passed t before after l load h =
    let (latency, h1) = append_nil (latency_failures t before l) _ h in
    let (stopped, h2) = append_nil (stopped_failures before after before) _ h1 in
    let (services, loaded) = append_nil (service_failures before after before) _ h2 in
    let e = no_failure (not (any (λ status. str_eq status "200") load)) no_load loaded in
    (
      latency-IsResponsive t before l latency,
      (services-IsKept before after before stopped services, ground arith),
    )
