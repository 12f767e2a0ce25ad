-- ===== src/Agent/Drain/Tests.antt =====
-- A drain at a limit of three bytes.
use llm_env.Prelude.{◌≡◌, ◌≤◌, refl, true, false, List, [], ◌∷◌, length, take, ltb}
use llm_env.Agent.Outcome.{Outcome}
use llm_env.Agent.Drain.{Read, init, step, drain, bytes_read, chunk, takes, refuses}
use llm_env.Agent.Drain.Prefix.{drain_bounded}
use llm_env.Agent.Drain.Reports.{Reports, drain-Reports}

abbrev pipe : List Read
pipe = chunk (1 ∷ 2 ∷ []) (takes 9) ∷ chunk (3 ∷ 4 ∷ []) (takes 9) ∷ chunk (5 ∷ []) refuses ∷ []

cut : (drain 3 Outcome.stderr_limit true pipe init).out ≡ 1 ∷ 2 ∷ 3 ∷ []
unfolding drain step init
cut = refl

short_write_fails :
    (drain 9 Outcome.stderr_limit true (chunk (1 ∷ 2 ∷ []) (takes 1) ∷ pipe) init).failed ≡ true
unfolding drain step init
short_write_fails = refl

drain-Reports_example : Reports Outcome.stderr_limit (drain 3 Outcome.stderr_limit true pipe init)
drain-Reports_example = drain-Reports Outcome.stderr_limit refl 3 true pipe

drain_bounded_example :
    let d = drain 3 Outcome.stderr_limit true pipe init in
    (d.out ≡ take d.stored_bytes (bytes_read pipe))
    × (d.stored_bytes ≡ length d.out)
    × (d.stored_bytes ≤ 3)
    × (d.failed ≡ false
        → (d.out ≡ take 3 (bytes_read pipe)) × (d.exceeded ≡ ltb 3 (length (bytes_read pipe))))
drain_bounded_example = drain_bounded 3 Outcome.stderr_limit true pipe
