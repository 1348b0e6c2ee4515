-- ===== src/Generator.antt =====
-- training/dataset_generator.py: the training samples built from the help texts of tools, from
-- invented flags, from the web and from clippy.
pub mod Help
pub mod Records
pub mod Cli
pub mod Refusals
pub mod Audited
pub mod Judged
pub mod Passing
pub mod Clippy
pub mod Harvest
pub mod Harvested
pub mod Grouped
pub mod Lints
pub mod Build
pub mod Built
pub mod Domains
pub mod Specs
pub mod Traps
pub mod WebSpecs
pub mod Window
pub mod Extracted
pub mod Draws
mod Examples
mod LintExamples
