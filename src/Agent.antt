-- ===== src/Agent.antt =====
-- pylib/agent_runner.py: one agent client inside a bounded systemd scope. `Drain` copies a pipe into
-- a bounded file, `Cleanup` proves that the scope is empty, `Run` is `run_bounded_agent`. Clocks,
-- processes and the cgroup file system are scripts: lists of what each call will return.
pub mod Outcome
pub mod Drain
pub mod Cleanup
pub mod Run
