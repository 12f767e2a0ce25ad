-- ===== src/Agent/Run/Proofs.antt =====
-- What the outcome of a bounded run vouches for.
use llm_env.Prelude.{
  ◌≡◌, ◌≢◌, refl, Bool, true, false, ◌⊎◌, inl, inr, ◌∙◌, ap, sym, All, not, ◌||◌, ◌&&◌, Option,
  none, some, List, [], ◌∷◌, arith, any, Option-cases,
}
use llm_env.Agent.Outcome.{Outcome, is_boundary, next_event, next_event_lem, head?}
use llm_env.Agent.Cleanup.{Poll, Stopped, stop_and_prove}
use llm_env.Agent.Cleanup.Proofs.{is_exited, is_empty}
use llm_env.Agent.Run.{
  Script, Round, Ended, finished, pending, RunResult, make_result, close_outputs_and_make_result,
  find_cgroup, round, main_loop, final_outcome, conclude, run_bounded_agent,
}

closed_outcome :
    (closed proved : Bool) (outcome : Outcome) (p : Option Poll)
    → (close_outputs_and_make_result closed outcome p proved).outcome ≢ Outcome.boundary_failure
    → (outcome ≢ Outcome.boundary_failure)
      × ((close_outputs_and_make_result closed outcome p proved).cleanup_proved ≡ proved)
      × ((close_outputs_and_make_result closed outcome p proved).outcome ≡ outcome)
unfolding close_outputs_and_make_result make_result
closed_outcome closed proved outcome none h = ground arith
closed_outcome closed proved outcome (some p) h = ground arith

boundary_stays :
    (closed proved : Bool) (p : Option Poll)
    → (close_outputs_and_make_result closed Outcome.boundary_failure p proved).outcome
      ≡ Outcome.boundary_failure
unfolding close_outputs_and_make_result make_result
boundary_stays closed proved none = ground arith
boundary_stays closed proved (some p) = ground arith

-- Any other outcome comes from the main loop.
reaches_loop :
    (s : Script)
    → (run_bounded_agent s).outcome ≢ Outcome.boundary_failure
    → run_bounded_agent s ≡ conclude s (main_loop s.rounds s.last_queue)
unfolding run_bounded_agent make_result
reaches_loop s h =
    let st =
      stop_and_prove
        (record (s.stop (find_cgroup s.lookups).0) { known = (find_cgroup s.lookups).0 }) in
    ground (
      arith,
      boundary_stays s.closed false none,
      boundary_stays s.closed st.proved (some s.final_poll),
      boundary_stays s.closed (st.proved && not ((find_cgroup s.lookups).1 || st.failed))
          (some s.final_poll),
    )

final_outcome-proved :
    (event : Outcome) (failed stream : Bool) (st : Stopped)
    → final_outcome event failed st stream ≢ Outcome.boundary_failure
    → (st.proved ≡ true) × (stream ≡ false) × (final_outcome event failed st stream ≡ event)
unfolding final_outcome
final_outcome-proved event failed stream st h = ground arith

conclude-proved :
    (s : Script) (e : Ended)
    → (conclude s e).outcome ≢ Outcome.boundary_failure
    → (conclude s e).cleanup_proved ≡ true
unfolding conclude
conclude-proved s finished h =
    (closed_outcome s.closed true Outcome.completed (some s.final_poll) h).1
conclude-proved s (pending event failed) h =
    let st = stop_and_prove (record (s.stop true) { known = true }) in
    let (plain, same, outcome) =
      closed_outcome s.closed st.proved (final_outcome event failed st s.stream_failed)
        (some s.final_poll) h in
    same ∙ (final_outcome-proved event failed s.stream_failed st plain).0

-- Whatever the calls of a run answer: an outcome other than the boundary failure (completed, timed
-- out, or a stream limit) comes with a proved cleanup.
pub outcome-proved :
    (s : Script)
    → (run_bounded_agent s).outcome ≢ Outcome.boundary_failure
    → (run_bounded_agent s).cleanup_proved ≡ true
outcome-proved s h =
    let e = reaches_loop s h in
    let h' : (conclude s (main_loop s.rounds s.last_queue)).outcome ≢ Outcome.boundary_failure =
      λ b. h (ap (λ (r : RunResult). r.outcome) e ∙ b) in
    ap (λ (r : RunResult). r.cleanup_proved) e
    ∙ conclude-proved s (main_loop s.rounds s.last_queue) h'

-- The round in which a run is found complete.
pub record IsClean (r : Round) : Type 0 where
  pub no_event : r.queue ≡ []
  pub exit : is_exited r.look.poll ≡ true
  pub drained : r.look.alive ≡ false
  pub intact : r.stream_failed ≡ false
  pub within : (r.transcript_exceeded || r.stderr_exceeded) ≡ false
  pub emptied : is_empty r.scope ≡ true

abbrev pub Some {ℓ} : {A : Type ℓ} → (A → Type 0) → List A → Type 0
Some P [] = ⊥
Some P (x ∷ xs) = P x ⊎ Some P xs

no_next : (events : List Outcome) → next_event events ≡ none → events ≡ []
no_next [] h = refl
no_next (e ∷ es) h = ground (arith, next_event_lem (e ∷ es))

round-IsClean : (r : Round) → round r ≡ some finished → IsClean r
unfolding round
round-IsClean r h = elim (Option-cases (next_event r.queue)) [
  | inl quiet ↦ record {
    no_event = no_next r.queue quiet;
    exit = ground arith;
    drained = ground arith;
    intact = ground arith;
    within = ground arith;
    emptied = ground arith;
  }
  | inr (e, some_event) ↦
      let f : some (pending e (is_boundary e)) ≡ some finished = rw (some_event, round) at h in cc
]

settled-finished :
    (rs : List Round) (q : List Outcome) → main_loop rs q ≡ finished → Some IsClean rs
unfolding main_loop
settled-finished [] q h = ground arith
settled-finished (r ∷ rs) q h = elim (Option-cases (round r)) [
  | inl again ↦ inr (settled-finished rs q (rw (again, main_loop) at h))
  | inr (e, ends) ↦
      let f : e ≡ finished = rw (ends, main_loop) at h in inl (round-IsClean r (ends ∙ ap some f))
]

abbrev pub is_completed : Outcome → Bool
is_completed Outcome.completed = true
is_completed _ = false

-- The drain threads put stream limits and boundary failures on the queue, nothing else.
abbrev pub IsQueue : List Outcome → Type 0
IsQueue events = any is_completed events ≡ false

next_not_completed :
    (events : List Outcome) → IsQueue events → next_event events ≢ some Outcome.completed
next_not_completed events h e = ground (arith, next_event_lem events, head_case events)
  where
    head_case :
        (es : List Outcome) → any is_completed es ≡ false → head? es ≢ some Outcome.completed
    head_case [] h = λ e. cc
    head_case (x ∷ xs) h = λ e. ground arith

round-not_completed :
    (r : Round) (b : Bool) → IsQueue r.queue → round r ≢ some (pending Outcome.completed b)
unfolding round
round-not_completed r b q h = elim (Option-cases (next_event r.queue)) [
  | inl quiet ↦ ground arith
  | inr (e, ev) ↦
      let f : some (pending e (is_boundary e)) ≡ some (pending Outcome.completed b) =
        rw (ev, round) at h in
      next_not_completed r.queue q (ev ∙ ap some (ground arith))
]

main_loop-not_completed :
    (rs : List Round) (last : List Outcome) (b : Bool)
    → All (λ (r : Round). IsQueue r.queue) rs
    → IsQueue last
    → main_loop rs last ≢ pending Outcome.completed b
unfolding main_loop
main_loop-not_completed [] last b qs q h = elim (Option-cases (next_event last)) [
  | inl quiet ↦ ground arith
  | inr (e, ev) ↦
      let f : pending e (is_boundary e) ≡ pending Outcome.completed b = rw (ev, main_loop) at h in
      next_not_completed last q (ev ∙ ap some (ground arith))
]
main_loop-not_completed (r ∷ rs) last b qs q h = elim (Option-cases (round r)) [
  | inl again ↦ main_loop-not_completed rs last b qs.1 q (rw (again, main_loop) at h)
  | inr (e, ends) ↦
      let f : e ≡ pending Outcome.completed b = rw (ends, main_loop) at h in
      round-not_completed r b qs.0 (ends ∙ ap some f)
]

conclude-finished :
    (s : Script) (e : Ended)
    → ((b : Bool) → e ≢ pending Outcome.completed b)
    → (conclude s e).outcome ≡ Outcome.completed
    → e ≡ finished
unfolding conclude
conclude-finished s finished n h = refl
conclude-finished s (pending event failed) n h =
    let st = stop_and_prove (record (s.stop true) { known = true }) in
    let ne : (conclude s (pending event failed)).outcome ≢ Outcome.boundary_failure =
      λ b. let c : Outcome.completed ≡ Outcome.boundary_failure = sym h ∙ b in cc in
    let (plain, same, outcome) =
      closed_outcome s.closed st.proved (final_outcome event failed st s.stream_failed)
        (some s.final_poll) ne in
    let (proved, intact, chosen) = final_outcome-proved event failed s.stream_failed st plain in
    let e : event ≡ Outcome.completed = sym chosen ∙ sym outcome ∙ h in
    absurd (n failed (ap (λ (o : Outcome). pending o failed) e))

-- If the queue only ever holds what the drain threads put there, then a run reported as completed
-- had a round before the deadline with an empty queue, an exited process, no drain thread alive, no
-- failed stream, no stream over its limit, and an empty cgroup.
pub completed-Clean :
    (s : Script)
    → All (λ (r : Round). IsQueue r.queue) s.rounds
    → IsQueue s.last_queue
    → (run_bounded_agent s).outcome ≡ Outcome.completed
    → Some IsClean s.rounds
completed-Clean s qs q h =
    let ne : (run_bounded_agent s).outcome ≢ Outcome.boundary_failure =
      λ b. let c : Outcome.completed ≡ Outcome.boundary_failure = sym h ∙ b in cc in
    let e = reaches_loop s ne in
    settled-finished s.rounds s.last_queue (
      conclude-finished s (main_loop s.rounds s.last_queue)
        (λ b. main_loop-not_completed s.rounds s.last_queue b qs q)
        (sym (ap (λ (r : RunResult). r.outcome) e) ∙ h))
