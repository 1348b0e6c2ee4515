-- ===== src/Training.antt =====
-- training/tools.py, dataset.py, augment_research.py and qlora.py: the tools, the cache of the dataset,
-- the records that are added to it, and the encoding of a record for training.
pub mod Tools
pub mod Dataset
pub mod Augment
pub mod Encode
mod Examples
