-- ===== src/Agent/Run.antt =====
-- pylib/agent_runner.py, `run_bounded_agent`: set up, find the cgroup, watch the queue, the deadline
-- and the process, then stop the scope and prove that it is empty. A script holds what every call
-- will answer; a list of rounds holds those that begin before the runtime deadline.
pub mod Proofs
mod Tests
use llm_env.Prelude.{
  ℕ, Bool, true, false, not, ◌&&◌, ◌||◌, Option, none, some, List, [], ◌∷◌, ltb, if◌then◌else◌,
}
use llm_env.Prelude.Int.{ℤ}
use llm_env.Agent.Outcome.{Outcome, is_boundary, next_event}
use llm_env.Agent.Cleanup.{
  Poll, Look, Scope, StopScript, Stopped, poll_process, execution_finished, cleanup_now,
  stop_and_prove,
}

-- `RunLimits`, the two durations in milliseconds.
pub record RunLimits : Type 0 where
  pub runtime : ℕ
  pub grace : ℕ
  pub stream_limit_bytes : ℕ

abbrev pub default_limits : RunLimits
default_limits = record { runtime = 300000; grace = 10000; stream_limit_bytes = 33554432 }

-- `limits` exceed the production maxima.
unfoldable pub exceed_maxima : RunLimits → Bool
exceed_maxima l =
    ltb default_limits.runtime l.runtime
    || ltb default_limits.grace l.grace
    || ltb default_limits.stream_limit_bytes l.stream_limit_bytes

-- `BoundedRunResult`; the byte counts are those of the two drain states.
pub record RunResult : Type 0 where
  pub outcome : Outcome
  pub exit_status : Option ℤ
  pub cleanup_proved : Bool

-- `_make_result`; `none` stands for no process.
unfoldable pub make_result : Outcome → Option Poll → Bool → RunResult
unfolding poll_process
make_result outcome none proved = record {
  outcome = outcome;
  exit_status = none;
  cleanup_proved = proved;
}
make_result outcome (some p) proved =
    let (status, poll_failed) = poll_process p in
    if poll_failed
    then record { outcome = Outcome.boundary_failure; exit_status = status; cleanup_proved = false }
    else record { outcome = outcome; exit_status = status; cleanup_proved = proved }

-- `_close_outputs_and_make_result`; `closed` is what `_close_streams` returns.
unfoldable pub close_outputs_and_make_result : Bool → Outcome → Option Poll → Bool → RunResult
close_outputs_and_make_result closed outcome p proved =
    make_result (if closed then outcome else Outcome.boundary_failure) p proved

-- One answer of `cgroup_path` in the lookup loop: found, absent (with the poll that follows), error.
pub data Lookup : Type 0 where
  found : Lookup
  absent : Poll → Lookup
  refused : Lookup

-- The lookup loop: whether the path was found, and `boundary_failed`. The end of the list is the
-- runtime deadline.
unfoldable pub find_cgroup : List Lookup → Bool × Bool
unfolding poll_process
find_cgroup [] = (false, false)
find_cgroup (found ∷ ls) = (true, false)
find_cgroup (refused ∷ ls) = (false, true)
find_cgroup (absent p ∷ ls) =
    let rest = find_cgroup ls in
    elim (poll_process p).1 [
      | true ↦ (false, true)
      | false ↦ elim (poll_process p).0 [ none ↦ rest | some status ↦ (false, true) ]
    ]

-- One round of the main loop: what the queue, the process, the threads, the drain states and the
-- cgroup show.
pub record Round : Type 0 where
  pub queue : List Outcome
  pub look : Look
  pub stream_failed : Bool  -- `transcript_state.failed or stderr_state.failed`
  pub transcript_exceeded : Bool
  pub stderr_exceeded : Bool
  pub scope : Scope

-- How the main loop ends: with a proved cleanup, or by a pending outcome and `boundary_failed`.
pub data Ended : Type 0 where
  finished : Ended
  pending : Outcome → Bool → Ended

-- The block under `if execution_finished`; `none` is another round.
unfoldable pub settle : Round → Option Ended
unfolding cleanup_now
settle r =
    if r.stream_failed
    then some (pending Outcome.boundary_failure true)
    else if r.transcript_exceeded
    then some (pending Outcome.transcript_limit false)
    else if r.stderr_exceeded
    then some (pending Outcome.stderr_limit false)
    else (let (proved, proof_failed) = cleanup_now true r.look r.scope in
        if proof_failed
        then some (pending Outcome.boundary_failure true)
        else if proved
        then some finished
        else none)

unfoldable pub round : Round → Option Ended
unfolding settle execution_finished next_event
round r = elim (next_event r.queue) [
  | some event ↦ some (pending event (is_boundary event))
  | none ↦
      let (done, poll_failed) = execution_finished r.look in
      if poll_failed
      then some (pending Outcome.boundary_failure true)
      else if done
      then settle r
      else none
]

-- The main loop. The round that reads the clock past the deadline looks at the queue first.
unfoldable pub main_loop : List Round → List Outcome → Ended
unfolding next_event
main_loop [] last_queue = elim (next_event last_queue) [
  | some event ↦ pending event (is_boundary event)
  | none ↦ pending Outcome.timeout false
]
main_loop (r ∷ rs) last_queue =
    let rest = main_loop rs last_queue in elim (round r) [ some e ↦ e | none ↦ rest ]

pub record Script : Type 0 where
  pub has_command : Bool
  pub limits : RunLimits
  pub started : Bool  -- the outputs opened and truncated, and the scope launched
  pub lookups : List Lookup
  pub has_pipes : Bool
  pub threads_start : Bool
  pub rounds : List Round
  pub last_queue : List Outcome
  pub stop : Bool → StopScript  -- given whether the cgroup path was saved
  pub stream_failed : Bool  -- at the end of the run
  pub closed : Bool
  pub final_poll : Poll

abbrev boundary : Script → Bool → RunResult
boundary s proved =
    close_outputs_and_make_result s.closed Outcome.boundary_failure (some s.final_poll) proved

-- The choice of `final_outcome`.
unfoldable pub final_outcome : Outcome → Bool → Stopped → Bool → Outcome
final_outcome event boundary_failed st stream_failed =
    if boundary_failed || st.failed || not st.proved || is_boundary event || stream_failed
    then Outcome.boundary_failure
    else event

unfoldable pub conclude : Script → Ended → RunResult
unfolding final_outcome
conclude s finished =
    close_outputs_and_make_result s.closed Outcome.completed (some s.final_poll) true
conclude s (pending event failed) =
    let st = stop_and_prove (record (s.stop true) { known = true }) in
    close_outputs_and_make_result s.closed (final_outcome event failed st s.stream_failed)
      (some s.final_poll) st.proved

unfoldable pub run_bounded_agent : Script → RunResult
unfolding conclude
run_bounded_agent s =
    if not s.has_command || exceed_maxima s.limits
    then make_result Outcome.boundary_failure none false
    else if not s.started
    then close_outputs_and_make_result s.closed Outcome.boundary_failure none false
    else (let (saved, lookup_failed) = find_cgroup s.lookups in
        let st = stop_and_prove (record (s.stop saved) { known = saved }) in
        if not s.has_pipes || not s.threads_start
        then boundary s st.proved
        else if not saved
        then boundary s (st.proved && not (lookup_failed || st.failed))
        else conclude s (main_loop s.rounds s.last_queue))
