-- ===== src/DatasetAudit.antt =====
-- training/audit_dataset.py: the gates that a dataset passes before training. A sample is the JSON
-- object read from the file, as far as the gates look at it.
pub mod Samples
pub mod Gates
pub mod Passes
pub mod Grounding
pub mod Commands
pub mod Certified
mod Examples
