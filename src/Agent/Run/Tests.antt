-- ===== src/Agent/Run/Tests.antt =====
-- Runs of an agent that ends by itself, and of one that has to be stopped.
use llm_env.Prelude.{◌≡◌, refl, sym, ◌∙◌, true, false, ◌⊎◌, List, [], ◌∷◌, any}
use llm_env.Prelude.Int.{pos}
use llm_env.Agent.Outcome.{Outcome}
use llm_env.Agent.Cleanup.{
  Poll, Look, Scope, Wait, Reap, StopScript, reap_local_launcher, stop_and_prove, sigterm, sigkill,
}
use llm_env.Agent.Cleanup.Proofs.{
  is_exited, is_empty, is_populated, IsProvedBy, stop_and_prove_sound, sigkill_last,
}
use llm_env.Agent.Run.{
  Script, Round, default_limits, found, absent, run_bounded_agent, main_loop, round, conclude,
  find_cgroup, make_result, close_outputs_and_make_result, exceed_maxima,
}
use llm_env.Agent.Run.Proofs.{outcome-proved, completed-Clean, Some, IsClean}

abbrev gone : Look
gone = record { poll = Poll.exited (pos 0); alive = false }

abbrev busy : Look
busy = record { poll = Poll.running; alive = true }

abbrev reap : Reap
reap = record {
  looks = busy ∷ gone ∷ [];
  late = Poll.running;
  terminated = Wait.ended;
  killed = Wait.ended;
  last = gone;
}

-- SIGTERM does not empty the scope, SIGKILL does.
abbrev stubborn : StopScript
stubborn = record {
  known = true;
  look = busy;
  scope = Scope.populated;
  term_sent = true;
  term = record { rounds = Scope.populated ∷ []; final = Scope.populated; reap = reap };
  kill_sent = true;
  kill = record { rounds = Scope.removing ∷ Scope.empty ∷ []; final = Scope.empty; reap = reap };
}

abbrev quiet : Look → Scope → Round
quiet l scope = record {
  queue = [];
  look = l;
  stream_failed = false;
  transcript_exceeded = false;
  stderr_exceeded = false;
  scope = scope;
}

abbrev script : List Round → Script
script rounds = record {
  has_command = true;
  limits = default_limits;
  started = true;
  lookups = absent Poll.running ∷ found ∷ [];
  has_pipes = true;
  threads_start = true;
  rounds = rounds;
  last_queue = [];
  stop = λ saved. stubborn;
  stream_failed = false;
  closed = true;
  final_poll = Poll.exited (pos 0);
}

abbrev done : List Round
done = quiet busy Scope.populated ∷ quiet gone Scope.removing ∷ quiet gone Scope.empty ∷ []

completes : (run_bounded_agent (script done)).outcome ≡ Outcome.completed
unfolding run_bounded_agent exceed_maxima find_cgroup main_loop round conclude make_result
    close_outputs_and_make_result
completes = refl

times_out : (run_bounded_agent (script (quiet busy Scope.populated ∷ []))).outcome ≡ Outcome.timeout
unfolding run_bounded_agent exceed_maxima find_cgroup main_loop round conclude make_result
    close_outputs_and_make_result stop_and_prove reap_local_launcher
times_out = refl

outcome-proved_example : (run_bounded_agent (script done)).cleanup_proved ≡ true
outcome-proved_example =
    outcome-proved (script done)
      (λ b. let c : Outcome.completed ≡ Outcome.boundary_failure = sym completes ∙ b in cc)

completed-Clean_example : Some IsClean done
completed-Clean_example = completed-Clean (script done) (refl, (refl, (refl, tt))) refl completes

stop_and_prove_sound_example :
    (true ≡ true)
    × (((is_exited busy.poll ≡ true) × (busy.alive ≡ false) × (is_empty Scope.populated ≡ true))
        ⊎ (IsProvedBy stubborn.term ⊎ IsProvedBy stubborn.kill))
unfolding stop_and_prove reap_local_launcher
stop_and_prove_sound_example = stop_and_prove_sound stubborn refl

sigkill_last_example :
    ((stop_and_prove stubborn).signals ≡ [])
    ⊎ (((stop_and_prove stubborn).signals ≡ sigterm ∷ [])
        ⊎ (((stop_and_prove stubborn).signals ≡ sigterm ∷ sigkill ∷ [])
            × (any is_empty stubborn.term.rounds ≡ false)
            × (is_populated stubborn.term.final ≡ true)))
sigkill_last_example = sigkill_last stubborn
