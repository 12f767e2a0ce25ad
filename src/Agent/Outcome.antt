-- ===== src/Agent/Outcome.antt =====
-- pylib/agent_runner.py: the outcomes of a run, and the queue on which the drain threads report.
use llm_env.Prelude.{
  ◌≡◌, refl, Bool, true, false, Option, none, some, List, [], ◌∷◌, if◌then◌else◌, any, or_else,
}

pub data Outcome : Type 0 where
  completed timeout transcript_limit stderr_limit boundary_failure : Outcome

abbrev pub is_boundary : Outcome → Bool
is_boundary Outcome.boundary_failure = true
is_boundary _ = false

-- The loop of `_next_event` over what is queued, with `selected`.
pub next_event_from : Option Outcome → List Outcome → Option Outcome
next_event_from selected [] = selected
next_event_from selected (event ∷ events) =
    let rest = next_event_from (some (or_else selected event)) events in
    if is_boundary event then some event else rest

unfoldable pub next_event : List Outcome → Option Outcome
unfolding next_event_from
next_event events = next_event_from none events

abbrev pub head? : List Outcome → Option Outcome
head? [] = none
head? (e ∷ es) = some e

next_event_from_selected :
    (first : Outcome) (events : List Outcome)
    → is_boundary first ≡ false
    → next_event_from (some first) events
      ≡ (if any is_boundary events then some Outcome.boundary_failure else some first)
unfolding next_event_from
next_event_from_selected first [] h = refl
next_event_from_selected first (Outcome.boundary_failure ∷ es) h = refl
next_event_from_selected first (Outcome.completed ∷ es) h = next_event_from_selected first es h
next_event_from_selected first (Outcome.timeout ∷ es) h = next_event_from_selected first es h
next_event_from_selected first (Outcome.transcript_limit ∷ es) h =
    next_event_from_selected first es h
next_event_from_selected first (Outcome.stderr_limit ∷ es) h = next_event_from_selected first es h

-- `_next_event` takes a boundary failure if one is queued anywhere, and else the oldest event.
pub next_event_lem :
    (events : List Outcome)
    → next_event events
      ≡ (if any is_boundary events then some Outcome.boundary_failure else head? events)
unfolding next_event
next_event_lem [] = refl
next_event_lem (Outcome.boundary_failure ∷ es) = refl
next_event_lem (Outcome.completed ∷ es) = next_event_from_selected Outcome.completed es refl
next_event_lem (Outcome.timeout ∷ es) = next_event_from_selected Outcome.timeout es refl
next_event_lem (Outcome.transcript_limit ∷ es) =
    next_event_from_selected Outcome.transcript_limit es refl
next_event_lem (Outcome.stderr_limit ∷ es) = next_event_from_selected Outcome.stderr_limit es refl
