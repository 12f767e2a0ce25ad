-- ===== src/Resources/Verdict.antt =====
-- pylib/resources.py, `live_verdict` and `lowered_cap_warnings`: what the operator is told about the
-- limits. PSI values are in hundredths; a counter that could not be read counts as 0, as in the code.
use llm_env.Prelude.{
  ℕ, ◌*◌, ◌≤◌, ◌≡◌, Bool, true, ◌&&◌, ◌||◌, none, some, String, List, [], ◌∷◌, ltb, leb, lookup,
  if◌then◌else◌, arith,
}
use llm_env.Resources.Overrides.{Policy}

pub record Counters : Type 0 where
  pub oom_kill : ℕ
  pub max_events : ℕ
  pub peak : ℕ
  pub cap : ℕ  -- 0 where there is no ratio
  pub full_avg300 : ℕ
  pub some_avg300 : ℕ
  pub restart_pending : Bool

pub data Verdict : Type 0 where
  fine watch alert : Verdict

-- `(peak or 0) >= percent / 100` for the ratio of the peak to the cap.
abbrev reaches : ℕ → Counters → Bool
reaches percent c = ltb 0 c.cap && leb (percent * c.cap) (100 * c.peak)

unfoldable pub live_verdict : Counters → Verdict
live_verdict c =
    if ltb 0 c.oom_kill || reaches 92 c || leb 500 c.full_avg300
    then alert
    else if ltb 0 c.max_events || reaches 85 c || leb 1000 c.some_avg300 || c.restart_pending
    then watch
    else fine

-- The services whose memory cap is lowered, of those with a policy and a cap.
unfoldable pub lowered_caps : List (String × Policy) → List (String × Policy) → List String
lowered_caps policies [] = []
lowered_caps policies ((service, default) ∷ rest) =
    let later = lowered_caps policies rest in
    elim (lookup service policies) [
      | none ↦ later
      | some p ↦
          if ltb 0 p.memory_max_mib && ltb p.memory_max_mib default.memory_max_mib
          then service ∷ later
          else later
    ]

abbrev pub rank : Verdict → ℕ
rank fine = 0
rank watch = 1
rank alert = 2

-- Counters that are all at least as bad, under the same cap.
pub record IsWorse (c d : Counters) : Type 0 where
  pub oom_kill : c.oom_kill ≤ d.oom_kill
  pub max_events : c.max_events ≤ d.max_events
  pub peak : c.peak ≤ d.peak
  pub cap : c.cap ≡ d.cap
  pub full : c.full_avg300 ≤ d.full_avg300
  pub partial : c.some_avg300 ≤ d.some_avg300
  pub pending : c.restart_pending ≡ true → d.restart_pending ≡ true

-- Counters that are at least as bad, under the same cap, never get a milder verdict.
pub live_verdict_mono :
    (c d : Counters) → IsWorse c d → rank (live_verdict c) ≤ rank (live_verdict d)
unfolding live_verdict
live_verdict_mono c d w =
    ground (arith, w.oom_kill, w.max_events, w.peak, w.cap, w.full, w.partial, w.pending)
