-- ===== src/Lib.antt =====
-- GPU-Lab: the operational Python code of a lab of two GPUs.
--
-- The program is a set of command-line tools. Each is modelled on its own, over the shared
-- helpers of Base: Python's dict (Base/Dict), the methods of str (Base/Text), sorted() and set()
-- on texts (Base/Sorting), what holds of the elements of a list (Base/Members), the operations on
-- float that antt lacks (Base/Floats, an interface), counters of runs (Base/Runs), the module re
-- for the patterns that occur (Base/Pattern, which lists the matches as backtracking tries them),
-- str.format and splitlines (Base/Format), and the module random (Base/Random: an interface with
-- a state and the laws that a choice is from the list, a sample a part of it with so many
-- elements, a number drawn between its bounds and a shuffle a permutation; a Draw passes the
-- state on).
--
-- Readings and Watchdog: training/watchdog.py, the guard of a training run. Readings has
-- target_temp and sample; Watchdog has main's loop as a machine: a Poll is what one round reads,
-- step is one round, watch the loop, on_term the signal handler. Breaches and Exits have the
-- proofs.
-- KernelDiff: kernels/compare.py. load, cascade and the three lists that main computes (only_in,
-- diffs, both_skip). Cascade and Partition have the proofs.
-- ConfigCheck: bin/check.py. Facts has what is read from bin/lab, Routes has check_litellm,
-- Scrapes the check of Prometheus, Machine the syntax of bin/lab, the files that have to parse,
-- the installed unit, the mounts of the laptop and the crate, Status the mounts of LiteLLM, all
-- lines and the exit status. Quiet, Facts/Read, Routes/Sound, Scrapes/Live, Machine/Quiet,
-- Status/Sections and Status/Deployable have the proofs.
--
-- RunCompare: bench/compare.py. values, check_paired, the counts of pair, mcnemar_exact and
-- flips. Sign, Rows, Pairs and Flips have the proofs.
-- AgentAb: bench/agent_ab.py. Loop has run_loop, as one round after the other over events; Codex
-- has what run_codex reads of a run; Plan has arms and plan; Arms has the options that main
-- accepts and what cmd_run reads of an arm; Sandbox has the list of hidden paths that sandbox_env
-- writes; Runs has done_keys and cmd_run, where what a run gives is a function of its slot;
-- Summary has the verdicts of cmd_summary, and Preflight what preflight reads in the output of
-- its probe. Their child modules Bounds, Answered, Once, Accepted, Hidden, Resume, Passes,
-- Majority and Walls have the proofs. A run that is killed is an attempt that gives nothing.
--
-- ResearchEval: bench/research_eval.py. Commands has allowed_argv, with shlex.split written out;
-- Items has split_think, execute and run_item, whose loop over range(max_calls + 1) is a
-- recursion on the calls that are left. Requests has the retries of post, Tokens has has_token,
-- grounded_token and the pattern for a flag, Instructions instruction_ok, Live the scores of live
-- questions and alerts, Score that of questions about flags, and Score/Others those about traps,
-- missing tools and no tool. Commands/Harmless, Items/Safe, Tokens/Occurs and Score/Grounded have
-- the proofs. What parse_tool_call and the patterns for prose find in a text are arguments, and
-- so are the pages that a line names, what Prometheus measured and what promtool says.
--
-- DatasetAudit: training/audit_dataset.py. Samples has the JSON of a sample and the schema gate,
-- Gates the other gates and run_full_audit; a gate gives a Verdict, where crash is an exception
-- that is no DatasetAuditError. Passes, Grounding, Commands and Certified have the proofs.
--
-- Generator: training/dataset_generator.py and training/clippy_harvest.py, which make the records
-- that the audit reads. Help has extract_flags_from_help and the window of a help text, Records
-- the builders of trajectories, Specs, Traps and WebSpecs the tables, Cli and Refusals the
-- generators of the two kinds of sample, Build the assembly of a data set for one domain or both;
-- Clippy, Harvest and Lints have the records about compiler lints. Audited, Judged and Passing
-- prove that the audit of DatasetAudit passes what is built; Window, Extracted, Built, Domains,
-- Harvested, Grouped and Lints have the other proofs. The random choices are those of
-- Base/Random, and what a command prints is an argument.
--
-- Training: training/tools.py, training/dataset.py, training/augment_research.py, and of
-- training/qlora.py the functions encode and collate. Tools has the table of tools, Dataset the
-- cache of a data set, Encode the masking of the tokens and the padding of a batch;
-- Encode/Trained has the proof about the masks. Augment has the records that augment_research.py
-- reads and adds: Fallbacks those whose lookup fails, Compose those with two options, Answers the
-- ordinary answers and the asserted traps, Marks the new data set and its marks for thinking.
-- Fallbacks/Honest, Answers/Numbers, Marks/Places and Marks/Augmented have the proofs. What man
-- prints, the file of Dolly and the rounding of the fraction are arguments.
--
-- AdapterVerify: training/verify.py. _degenerate and the verdict of main; Degenerate and Proven
-- have the proofs.
--
-- Exporter: monitoring/gpu_exporter.py. sample, render and the poller; Served has the proofs.
-- Sensors has system_metrics, over the files of the machine, and do_GET. Numbers are opaque
-- there.
--
-- State is passed explicitly, exceptions are `none`, and what subprocesses, files and the clock
-- give is an argument. Each loop is a recursion on the list that it walks or on a number that
-- bounds it, as the tries of post. Two have fuel: the digits of a number in Base/Format, which
-- are at most as many as the number and one, and Encode, the number of tokens: each round of its
-- loop takes one token or more, since a header is not empty, and Trained proves that all tokens
-- are read. Floats are an interface with one law, that a comparison with NaN is false. The
-- wording of messages and all printing is left out.
--
-- Not modelled: of bench/research_eval.py the building of its items, the rules that it reads from
-- an answer, and the rates; the ramp report; the benchmark probes, which time servers; the
-- training itself, which is that of torch, transformers and trl; and the shell and Rust code.
pub mod AdapterVerify
pub mod AgentAb
pub mod Base
pub mod ConfigCheck
pub mod DatasetAudit
pub mod Exporter
pub mod Generator
pub mod KernelDiff
pub mod Readings
pub mod ResearchEval
pub mod RunCompare
pub mod Training
pub mod Watchdog
