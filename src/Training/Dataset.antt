-- ===== src/Training/Dataset.antt =====
-- training/dataset.py: `build`, which keeps the dataset in a file. The file is passed on as a state;
-- a JSON file that was written is read back as it was.
use gpu_lab.Base.{ℕ}
use gpu_lab.Base.{Option, none, some, List, leb, length, if◌then◌else◌}
use gpu_lab.Base.{nat_eq, string_eq}
use gpu_lab.Base.Random.{Random}

-- The file at DATASET_CACHE_PATH: absent, not JSON, or records.
pub data Cache (R : Type 0) : Type 0 where
  absent : Cache R
  unreadable : Cache R
  written : List R → Cache R

module _ (r : Random) {R : Type 0} where
  -- random.Random(seed).shuffle(records)
  abbrev pub shuffled : ℕ → List R → List R
  shuffled seed records = (r.shuffle records (r.seeded seed)).0

  -- The records of the file, if it is there, readable and holds fifty or more.
  unfoldable pub cached_records : Cache R → Option (List R)
  cached_records absent = none
  cached_records unreadable = none
  cached_records (written records) = if leb 50 (length records) then some records else none

  -- `build` without a path, given what the generator builds: none is an exception.
  unfoldable pub build_cached : ℕ → Option (List R) → Cache R → Option (List R) × Cache R
  unfolding cached_records
  build_cached seed generated cache = elim (cached_records cache) [
    | some records ↦ (some (shuffled seed records), cache)
    | none ↦ elim generated [
      | none ↦ (none, cache)
      | some records ↦ (some records, written records)
    ]
  ]

  -- `build` with the path of a file with records, or without one.
  unfoldable pub build :
      ℕ → Option (Option (List R)) → Option (List R) → Cache R → Option (List R) × Cache R
  unfolding build_cached
  build seed path generated cache = elim path [
    | none ↦ build_cached seed generated cache
    | some none ↦ (none, cache)
    | some (some records) ↦ (some (shuffled seed records), cache)
  ]
