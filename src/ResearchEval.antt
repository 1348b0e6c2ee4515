-- ===== src/ResearchEval.antt =====
-- bench/research_eval.py: a model answers questions about command-line tools, and may read their
-- documentation. Commands has allowed_argv, Items has split_think, execute and run_item, Requests
-- has post, Tokens, Instructions, Live and Score have the scoring of the answers.
pub mod Commands
pub mod Items
pub mod Requests
pub mod Tokens
pub mod Instructions
pub mod Live
pub mod Score
mod Examples
mod ScoreExamples
