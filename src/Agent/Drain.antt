-- ===== src/Agent/Drain.antt =====
-- pylib/agent_runner.py, `_drain_stream`: a thread copies a pipe into a file, at most `limit` bytes,
-- and reads on so that the writer is never blocked.
pub mod Prefix
pub mod Reports
mod Tests
use llm_env.Prelude.{
  ℕ, ◌+◌, ◌-◌, Bool, true, false, not, ◌&&◌, ◌||◌, List, [], ◌∷◌, ◌++◌, length, take, ltb, ◌==◌,
  min, if◌then◌else◌,
}
use llm_env.Agent.Outcome.{Outcome}

-- What `destination.write(retained)` does: it takes at most so many of the bytes, as the raw file
-- interface documents, or it raises or would block.
pub data Write : Type 0 where
  takes : ℕ → Write
  refuses : Write

-- One `source.read`, with what the write after it will do. An empty chunk is the end of the pipe.
pub data Read : Type 0 where
  chunk : List ℕ → Write → Read
  fails : Read

-- `_DrainState`, the thread's `write_enabled`, the file's content and the events that were put.
pub record Drain : Type 0 where
  pub stored_bytes : ℕ
  pub exceeded : Bool
  pub failed : Bool
  pub write_enabled : Bool
  pub out : List ℕ
  pub events : List Outcome

unfoldable pub init : Drain
init = record {
  stored_bytes = 0;
  exceeded = false;
  failed = false;
  write_enabled = true;
  out = [];
  events = [];
}

-- `state.failed = True; events.put("boundary-failure")`
abbrev pub fail : Drain → Drain
fail d = record d { failed = true; events = d.events ++ Outcome.boundary_failure ∷ [] }

abbrev pub written : Write → List ℕ → ℕ
written refuses retained = 0
written (takes n) retained = min n (length retained)

abbrev is_empty : List ℕ → Bool
is_empty [] = true
is_empty (x ∷ xs) = false

-- The block under `if retained and write_enabled`.
unfoldable pub store : Drain → List ℕ → Write → Drain
store d retained w =
    if not (is_empty retained) && d.write_enabled
    then (let n = written w retained in
        let d' = record d { stored_bytes = d.stored_bytes + n; out = d.out ++ take n retained } in
        if n == length retained then d' else fail (record d' { write_enabled = false }))
    else d

-- The block under `if len(chunk) > remaining and not state.exceeded`.
unfoldable pub note_limit : Outcome → Drain → List ℕ → ℕ → Drain
note_limit limit_outcome d bytes remaining =
    if ltb remaining (length bytes) && not d.exceeded
    then record d { exceeded = true; events = d.events ++ limit_outcome ∷ [] }
    else d

unfoldable pub step : ℕ → Outcome → Drain → List ℕ → Write → Drain
unfolding store note_limit
step limit limit_outcome d bytes w =
    let remaining = limit - d.stored_bytes in
    note_limit limit_outcome (store d (take remaining bytes) w) bytes remaining

-- The loop; `close_ok` is whether `source.close()` in its `finally` succeeds.
unfoldable pub drain : ℕ → Outcome → Bool → List Read → Drain → Drain
drain limit limit_outcome close_ok [] d = if close_ok then d else fail d
drain limit limit_outcome close_ok (fails ∷ reads) d = if close_ok then fail d else fail (fail d)
drain limit limit_outcome close_ok (chunk [] w ∷ reads) d = if close_ok then d else fail d
drain limit limit_outcome close_ok (chunk (x ∷ xs) w ∷ reads) d =
    drain limit limit_outcome close_ok reads (step limit limit_outcome d (x ∷ xs) w)

-- The bytes that the loop reads, before the end of the pipe or a failing read.
abbrev pub bytes_read : List Read → List ℕ
bytes_read [] = []
bytes_read (fails ∷ reads) = []
bytes_read (chunk [] w ∷ reads) = []
bytes_read (chunk (x ∷ xs) w ∷ reads) = (x ∷ xs) ++ bytes_read reads
