-- ===== src/Lib.antt =====
-- llm-env: the decision logic of a local LLM stack (a Compose project with llm-server, the
-- OmniRoute gateway, remote-setup, System One and Phoenix) and of its operator tools. Paths are
-- from the repository's root.
--
-- The parts and their files:
-- - Prelude: names of the libraries, Boolean tests, lists, dicts keyed by texts, signed integers.
-- - Deferral: the closed set of reasons for which the OmniRoute updater puts an update off
--   (pylib/omniroute_update.py, `Reason`; pylib/omniroute_activity.py, `TRANSIENT_REASONS`).
-- - Json: JSON and YAML documents as Python holds them. Json.Dollar: dollar signs doubled and
--   halved in all their texts.
-- - Activity: pylib/omniroute_activity.py. Collector is `Collector.sample`, with the answers
--   of the journal, the health and history API and the call log (Logs) given for each round, read
--   through a profile (Profile, Documents). Sample and Gate: a sample is classified, and `IdleGate`
--   turns the classes into `ready`, `wait`, `resample` or a deferral. `step` is `IdleGate.step`,
--   split into the branch of an unknown sample and the rest. Observer is `observe_loop` of
--   pylib/omniroute_observer.py, which hands the samples of the one to the other.
-- - Update: pylib/omniroute_update.py. Reference: image ids and references. Image:
--   `resolve_image`, with the registry, the JSON parser and SHA-256 as parameters. Snapshot: the
--   comparison of two inventories of the containers, and `recheck`. Literal and Projection: the
--   service of the compose file that is written for the update, from the one that runs. Commit:
--   the loop of `verify_commit` over a list of looks (the clock, the inventory, the answers of the
--   API), one for each turn.
-- - Agent: pylib/agent_runner.py, the runner that keeps an agent in a systemd scope with bounded
--   output and a proved cleanup. Outcome: the queue of events. Drain: the thread that copies one
--   pipe to a file. Cleanup: the proof that the scope is empty. Run: `run_bounded_agent`.
--   What the operating system answers (a read, a write, a poll, the state of the cgroup) is a
--   script, an explicit list of answers, an argument of the definitions. A loop that ends at a
--   deadline is recursion on the list of the rounds it makes before it, and then its last look.
-- - Budget: pylib/budget.py, the KV-cache sizes and the VRAM budget.
-- - Gguf: pylib/gguf.py. Reader: a parser of the file's bytes, written as the code reads them.
--   Sizes: the sizes of the tensors from their offsets. Geometry: the attention layers for Budget.
-- - Resources: pylib/resources.py, the policies of the services, the overrides of the user and
--   what is left of the host for llm-server.
-- - Zai: pylib/zai_reset.py, the redeeming of weekly reset cards, with the answers of OmniRoute
--   given for each visit. A visit does not read the state file again: the state is carried along.
-- - Config: pylib/config.py, `enabled_models` and the functions that change which models are
--   enabled. A model is its alias, its flag, and the rest, which they only carry along. Config.Raw is
--   `validate_config` on the YAML document, with View, the configuration that such a document holds;
--   Config.Migrate is `migrate_config` on it, as a list of steps.
-- - Capacity: pylib/capacity.py, the limits that a capacity card lets a client use. Its sections are
--   records of what is read of them.
-- - Combos: pylib/omniroute_combos.py, the restoring of combos. The requests that a restore sends
--   are a list; `after` is what the server has once they are answered. Local: `ensure_local_combo` on
--   the JSON documents, with OmniRoute's own listing after a request as an argument.
-- - Interference: pylib/interference.py, the failures that `evaluate` finds around a model load;
--   latencies are whole microseconds.
--
-- Numbers: clock readings are whole milliseconds, CPU amounts thousandths of a core, memory whole
-- MiB or bytes, percentages whole numbers. Python's ints are unbounded, and so are the model's. A
-- float of an override is read to a thousandth.
--
-- Floats of a YAML document are texts, with their comparison an argument; texts are read as ASCII
-- where the source lowers or strips them.
--
-- Loops are recursion on the list they walk through, or on a count that was read before, so no fuel
-- is used. A loop that waits for a deadline walks through the list of what it sees in its turns.
--
-- Not modelled: the rendering of compose files and tables, subprocess calls (podman, systemctl,
-- nvidia-smi, skopeo), signals, HTTP, the reader of the journal and the files that an updater writes, the
-- preflight of an update, the reading and writing of the configuration file, the shell scripts, and
-- the tools built on top of these (llmenv.py, pylib/compose.py, pylib/phoenix_trial.py,
-- pylib/remote_setup.py).
pub mod Prelude
pub mod Deferral
pub mod Activity
pub mod Agent
pub mod Budget
pub mod Resources
pub mod Gguf
pub mod Zai
pub mod Config
pub mod Capacity
pub mod Combos
pub mod Interference
pub mod Json
pub mod Update
