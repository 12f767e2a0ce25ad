-- ===== src/Interference/Tests.antt =====
-- A load that passes, one that does not, and the theorem applied to the first.
use llm_env.Prelude.{ℕ, ◌≡◌, refl, true, some, [], ◌∷◌, All, any, str_eq}
use llm_env.Interference.{Row, Snapshot, Latency, Thresholds, counter_grew, evaluate}
use llm_env.Interference.Passed.{IsResponsive, IsKept, evaluate-passed}

abbrev limits : Thresholds
limits = record { max_p95 = 500000; max_p50 = 150000 }

abbrev row : ℕ → ℕ → Row
row uptime high = record { running = true; uptime_s = some uptime; events = ("high", high) ∷ [] }

abbrev before : Snapshot
before = ("omniroute", row 100 2) ∷ ("system_one", row 50 0) ∷ []

abbrev after : Snapshot
after = ("omniroute", row 160 2) ∷ ("system_one", row 110 0) ∷ []

abbrev latency : Latency
latency = record { samples = 90000 ∷ 40000 ∷ 60000 ∷ []; non200 = 0 }

passes : evaluate limits before after (some latency) ("200" ∷ []) ≡ []
unfolding evaluate
passes = refl

grows :
    evaluate limits before
      (("omniroute", row 160 3) ∷ ("system_one", row 110 0) ∷ [])
      (some latency)
      ("200" ∷ [])
    ≡ counter_grew "omniroute" "high" ∷ []
unfolding evaluate
grows = refl

evaluate-passed_example :
    IsResponsive limits before (some latency)
    × (All (IsKept before after) before × (any (λ status. str_eq status "200") ("200" ∷ []) ≡ true))
evaluate-passed_example = evaluate-passed limits before after (some latency) ("200" ∷ []) passes
