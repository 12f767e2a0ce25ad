-- ===== src/Activity/Observer.antt =====
-- pylib/omniroute_observer.py, `observe_loop`: the collector and the gate together. A turn has the answers of its first round and of
-- the round that it takes when the gate wants the sample again. `stop` is the end of the list of turns.
pub mod Trusted
mod Tests
use llm_env.Prelude.{
  ℕ, ◌+◌, Bool, true, false, min, Option, none, some, List, [], ◌∷◌, if◌then◌else◌,
}
use llm_env.Deferral.{Reason}
use llm_env.Activity.Sample.{Sample, Class, classify}
use llm_env.Activity.Collector.{Setup, Collector, Round, new_collector, sample}
use llm_env.Activity.Gate.{Gate, Observation, Answer, init, step}

-- What the loop changes.
pub record Observer : Type 0 where
  pub collector : Collector
  pub gate : Gate

-- A sample that was taken, and the gate's answer to it.
pub record Look : Type 0 where
  pub observer : Observer
  pub seen : Sample
  pub verdict : Answer

pub record Turn : Type 0 where
  pub start : ℕ
  pub first : Round
  pub again : ℕ  -- the clock before the second round
  pub second : Round
  pub is_written : Bool

-- What is written to the file, with the sample.
pub record Entry : Type 0 where
  pub sequence : ℕ
  pub verdict : Answer
  pub reason : Option Reason  -- `none` is `deadline`
  pub seen : Sample

pub data End : Type 0 where
  stopped state_write_error : End

-- The arguments that `_verdict` hands to the gate.
unfoldable pub observation : Sample → Observation
observation s = record {
  now = s.sample_monotonic;
  class = classify s;
  arrival_generation = s.arrival_generation;
  row_generation = s.row_generation;
  health_timestamp_ms = s.health_timestamp_ms;
  reason = some s.reason;
}

-- A sample, and `_verdict`.
unfoldable pub look : Setup → Observer → Round → Look
unfolding observation
look u o r =
    let (collector, s) = sample u o.collector r in
    let (gate, answer) = step o.gate (observation s) in
    record { observer = record { collector = collector; gate = gate }; seen = s; verdict = answer }

abbrev pub is_resample : Answer → Bool
is_resample Answer.resample = true
is_resample _ = false

-- `min(start + 5, lifetime_end)`, in milliseconds
abbrev pub limited : ℕ → ℕ → Round → Round
limited start lifetime_end r = record r { deadline = min (start + 5000) lifetime_end }

-- The samples of a turn: one, or two if the gate asks for it.
unfoldable pub turn : Setup → ℕ → Observer → Turn → Look
unfolding look
turn u lifetime_end o t =
    let x = look u o (limited t.start lifetime_end t.first) in
    let y = look u x.observer (limited t.again lifetime_end t.second) in
    if is_resample x.verdict then y else x

abbrev pub reason_of : Look → Option Reason
reason_of x = elim x.verdict [ Answer.defer_deadline ↦ none | _ ↦ some x.seen.reason ]

abbrev pub entry_of : Look → Entry
entry_of x = record {
  sequence = x.seen.sequence;
  verdict = x.verdict;
  reason = reason_of x;
  seen = x.seen;
}

-- `write_private`, before the rest of the loop
abbrev pub write : Bool → Entry → List Entry × End → List Entry × End
write true e rest = (e ∷ rest.0, rest.1)
write false e rest = ([], End.state_write_error)

-- `observe_loop`: the entries that it writes, and how it ends.
unfoldable pub observe_loop : Setup → ℕ → Observer → List Turn → List Entry × End
unfolding turn
observe_loop u lifetime_end o [] = ([], End.stopped)
observe_loop u lifetime_end o (t ∷ ts) =
    let x = turn u lifetime_end o t in
    write t.is_written (entry_of x) (observe_loop u lifetime_end x.observer ts)

unfoldable pub new_observer : ℕ → ℕ → Observer
new_observer min_wait deadline = record { collector = new_collector; gate = init min_wait deadline }
