-- ===== src/AgentAb.antt =====
-- bench/agent_ab.py: two harnesses on a sealed set of tasks. Loop has run_loop, Codex what run_codex
-- reads of a run, Plan the order of the runs, Arms the command line that is accepted, Runs the resumable cmd_run, Summary the verdicts of
-- cmd_summary, Sandbox the paths that a shell does not see, and Preflight the check of the sandbox before a run.
pub mod Loop
pub mod Codex
pub mod Plan
pub mod Arms
pub mod Runs
pub mod Summary
pub mod Preflight
pub mod Sandbox
mod Examples
