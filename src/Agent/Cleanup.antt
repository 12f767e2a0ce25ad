-- ===== src/Agent/Cleanup.antt =====
-- pylib/agent_runner.py: the proof that a scope is empty, `_cleanup_now`, `_reap_local_launcher`,
-- `_wait_for_cleanup` and `_stop_and_prove`. What the process, the threads and the cgroup will answer
-- is given as a script; a list of answers holds those of the rounds before the deadline.
pub mod Proofs
use llm_env.Prelude.{
  Bool, true, false, not, ◌&&◌, ◌||◌, Option, none, some, List, [], ◌∷◌, is_some, if◌then◌else◌,
}
use llm_env.Prelude.Int.{ℤ}

-- One `process.poll()`.
pub data Poll : Type 0 where
  running : Poll
  exited : ℤ → Poll
  poll_error : Poll

-- `_poll_process`
unfoldable pub poll_process : Poll → Option ℤ × Bool
poll_process running = (none, false)
poll_process (exited status) = (some status, false)
poll_process poll_error = (none, true)

-- A poll, with whether a drain thread is still alive.
pub record Look : Type 0 where
  pub poll : Poll
  pub alive : Bool

-- `_execution_finished`
unfoldable pub execution_finished : Look → Bool × Bool
unfolding poll_process
execution_finished l =
    let (status, poll_failed) = poll_process l.poll in (is_some status && not l.alive, poll_failed)

-- One `backend.cgroup_empty(path)`: an answer, `_CgroupRemovalInProgress` or `BoundaryError`.
pub data Scope : Type 0 where
  empty populated removing broken : Scope

abbrev pub cgroup_proof : Scope → Bool × Bool
cgroup_proof empty = (true, false)
cgroup_proof populated = (false, false)
cgroup_proof removing = (false, false)
cgroup_proof broken = (false, true)

-- `_cleanup_now`; `known` is whether the cgroup path was saved.
unfoldable pub cleanup_now : Bool → Look → Scope → Bool × Bool
unfolding execution_finished
cleanup_now known l scope =
    let (finished, poll_failed) = execution_finished l in
    if poll_failed
    then (false, true)
    else if not finished
    then (false, false)
    else if not known
    then (false, true)
    else cgroup_proof scope

-- One `process.wait(timeout=grace_seconds)` after `terminate` or `kill`.
pub data Wait : Type 0 where
  ended expired wait_error : Wait

-- `_reap_local_launcher`: the looks before the deadline, and the steps after it.
pub record Reap : Type 0 where
  pub looks : List Look
  pub late : Poll
  pub terminated : Wait
  pub killed : Wait
  pub last : Look

abbrev reap_last : Look → Bool
reap_last l = let (finished, poll_failed) = execution_finished l in finished && not poll_failed

abbrev after_kill : Wait → Look → Bool
after_kill ended l = reap_last l
after_kill expired l = false
after_kill wait_error l = false

abbrev after_terminate : Wait → Wait → Look → Bool
after_terminate ended killed l = reap_last l
after_terminate expired killed l = after_kill killed l
after_terminate wait_error killed l = false

abbrev reap_late : Poll → Wait → Wait → Look → Bool
reap_late running terminated killed l = after_terminate terminated killed l
reap_late (exited status) terminated killed l = reap_last l
reap_late poll_error terminated killed l = false

reap_looks : List Look → Bool → Bool
unfolding execution_finished
reap_looks [] late = late
reap_looks (l ∷ ls) late =
    let rest = reap_looks ls late in
    let (finished, poll_failed) = execution_finished l in
    if poll_failed then false else if finished then true else rest

unfoldable pub reap_local_launcher : Reap → Bool
unfolding reap_looks execution_finished
reap_local_launcher r = reap_looks r.looks (reap_late r.late r.terminated r.killed r.last)

-- What `_wait_for_cleanup` returns.
pub record Waited : Type 0 where
  pub proved : Bool
  pub failed : Bool
  pub still_populated : Bool

-- The script of one `_wait_for_cleanup`: the rounds before the deadline, the last look after it,
-- and the reaping that follows an empty scope.
pub record WaitScript : Type 0 where
  pub rounds : List Scope
  pub final : Scope
  pub reap : Reap

abbrev reaped : Bool → Reap → Waited
reaped failed r =
    let done = reap_local_launcher r in
    record { proved = done; failed = failed || not done; still_populated = false }

abbrev last_look : Bool → Scope → Reap → Waited
last_look failed empty r = reaped failed r
last_look failed populated r = record { proved = false; failed = failed; still_populated = true }
last_look failed removing r = record { proved = false; failed = true; still_populated = false }
last_look failed broken r = record { proved = false; failed = true; still_populated = false }

wait_rounds : Bool → List Scope → Scope → Reap → Waited
wait_rounds failed [] final r = last_look failed final r
wait_rounds failed (empty ∷ rounds) final r = reaped failed r
wait_rounds failed (populated ∷ rounds) final r = wait_rounds failed rounds final r
wait_rounds failed (removing ∷ rounds) final r = wait_rounds failed rounds final r
wait_rounds failed (broken ∷ rounds) final r = wait_rounds true rounds final r

unfoldable pub wait_for_cleanup : Bool → WaitScript → Waited
unfolding wait_rounds
wait_for_cleanup known s =
    if known
    then wait_rounds false s.rounds s.final s.reap
    else record { proved = false; failed = true; still_populated = false }

pub data Signal : Type 0 where
  sigterm sigkill : Signal

-- The script of `_stop_and_prove`. With no saved path the code sends SIGTERM, waits for the process
-- and reaps it, and returns `(False, True)` whatever comes of these.
pub record StopScript : Type 0 where
  pub known : Bool
  pub look : Look
  pub scope : Scope
  pub term_sent : Bool
  pub term : WaitScript
  pub kill_sent : Bool
  pub kill : WaitScript

-- Its result, with the signals requested of the scope, the first one first.
pub record Stopped : Type 0 where
  pub proved : Bool
  pub failed : Bool
  pub signals : List Signal

unfoldable pub stop_and_prove : StopScript → Stopped
unfolding cleanup_now wait_for_cleanup
stop_and_prove s =
    let (proved, failed) = cleanup_now s.known s.look s.scope in
    if proved
    then record { proved = true; failed = failed; signals = [] }
    else if not s.known
    then record { proved = false; failed = true; signals = sigterm ∷ [] }
    else (let failed = failed || not s.term_sent in
        let t = wait_for_cleanup s.known s.term in
        let failed = failed || t.failed in
        if t.proved || not t.still_populated
        then record { proved = t.proved; failed = failed; signals = sigterm ∷ [] }
        else (let failed = failed || not s.kill_sent in
            let k = wait_for_cleanup s.known s.kill in
            record {
              proved = k.proved;
              failed = failed || k.failed || not k.proved;
              signals = sigterm ∷ sigkill ∷ [];
            }))
