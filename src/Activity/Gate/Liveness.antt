-- ===== src/Activity/Gate/Liveness.antt =====
-- The gate does open: an idle gateway with an advancing health clock is answered `ready`.
use llm_env.Prelude.{ℕ, ◌+◌, ◌*◌, ◌≤◌, ◌<◌, ◌≡◌, true, false, some, List, [], ◌∷◌, ◌++◌, arith, All}
use llm_env.Activity.Sample.{Class}
use llm_env.Activity.Gate.{Gate, Observation, Answer, ms_per_s, gens, init, step, run}

-- A gate whose window has been open since `q` and is not yet confirmed.
record IsOpen (mw dl q : ℕ) (gs : ℕ × ℕ) (g : Gate) : Type 0 where
  waits : g.min_wait ≡ mw
  ends : g.deadline ≡ dl
  since : g.quiet_since ≡ some q
  at_gens : g.quiet_gens ≡ some gs
  plain : g.resampling ≡ false
  advanced : g.advanced ≡ true

-- An idle observation before the deadline, at the generations `gs`.
abbrev pub IsIdleAt : ℕ → ℕ × ℕ → Observation → Type 0
IsIdleAt dl gs o = (o.class ≡ Class.idle) × (gens o ≡ gs) × (o.now < dl)

-- One that comes too early to end the wait.
abbrev pub IsWaiting : ℕ → ℕ → ℕ × ℕ → Observation → Type 0
IsWaiting dl until gs o = IsIdleAt dl gs o × (o.now < until)

opens :
    (mw dl t0 t1 : ℕ) (gs : ℕ × ℕ) (a b : Observation)
    → IsIdleAt dl gs a
    → IsIdleAt dl gs b
    → a.health_timestamp_ms ≡ some t0
    → b.health_timestamp_ms ≡ some t1
    → t0 < t1
    → IsOpen mw dl b.now gs (step (step (init mw dl) a).0 b).0
unfolding step init
opens mw dl t0 t1 gs a b ha hb ta tb lt = ground arith

waits-IsOpen :
    (mw dl q : ℕ) (gs : ℕ × ℕ) (g : Gate) (o : Observation)
    → IsOpen mw dl q gs g
    → IsWaiting dl (q + ms_per_s * mw) gs o
    → IsOpen mw dl q gs (step g o).0
unfolding step
waits-IsOpen mw dl q gs g o i w = ground arith

run_waits :
    (mw dl q : ℕ) (gs : ℕ × ℕ) (g : Gate) (x : Answer) (ws rest : List Observation)
    → IsOpen mw dl q gs g
    → All (IsWaiting dl (q + ms_per_s * mw) gs) ws
    → ((g' : Gate) (y : Answer) → IsOpen mw dl q gs g' → (run g' y rest).1 ≡ Answer.ready)
    → (run g x (ws ++ rest)).1 ≡ Answer.ready
unfolding run
run_waits mw dl q gs g x [] rest i h k = k g x i
run_waits mw dl q gs g x (o ∷ ws) rest i h k =
    run_waits mw dl q gs (step g o).0 (step g o).1 ws rest (waits-IsOpen mw dl q gs g o i h.0) h.1 k

confirms :
    (mw dl q : ℕ) (gs : ℕ × ℕ) (g : Gate) (c d : Observation)
    → IsOpen mw dl q gs g
    → IsIdleAt dl gs c
    → IsIdleAt dl gs d
    → q + ms_per_s * mw ≤ c.now
    → c.now ≤ d.now
    → (step (step g c).0 d).1 ≡ Answer.ready
unfolding step
confirms mw dl q gs g c d i hc hd late next = ground arith

-- A new gate that sees two idle observations with an advancing health timestamp, then idle ones at
-- the same generations, answers `ready` to the second observation at or after `min_wait` seconds,
-- if all come before the deadline.
pub idle_reaches-ready :
    (mw dl t0 t1 : ℕ) (gs : ℕ × ℕ) (a b c d : Observation) (ws : List Observation)
    → IsIdleAt dl gs a
    → IsIdleAt dl gs b
    → a.health_timestamp_ms ≡ some t0
    → b.health_timestamp_ms ≡ some t1
    → t0 < t1
    → All (IsWaiting dl (b.now + ms_per_s * mw) gs) ws
    → IsIdleAt dl gs c
    → IsIdleAt dl gs d
    → b.now + ms_per_s * mw ≤ c.now
    → c.now ≤ d.now
    → (run (init mw dl) Answer.wait (a ∷ b ∷ (ws ++ c ∷ d ∷ []))).1 ≡ Answer.ready
unfolding run
idle_reaches-ready mw dl t0 t1 gs a b c d ws ha hb ta tb lt hw hc hd late next =
    run_waits mw dl b.now gs _ (step (step (init mw dl) a).0 b).1 ws (c ∷ d ∷ [])
      (opens mw dl t0 t1 gs a b ha hb ta tb lt) hw
      (λ g y i. confirms mw dl b.now gs g c d i hc hd late next)
