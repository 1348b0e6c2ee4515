-- ===== src/Generator/WebSpecs.antt =====
-- training/dataset_generator.py: the questions for the web with what the search shows.
use gpu_lab.Base.{List, [], ◌∷◌}
use gpu_lab.Generator.Specs.{WebSpec, web}

abbrev pub web_specs : List WebSpec
web_specs =
    web
      "What is the recommended timeout configuration in sqlx for SQLite connection pools to prevent database locked errors?"
      "sqlx sqlite busy_timeout pool configuration documentation"
      "In sqlx, SQLite connection options provide `.busy_timeout(Duration::from_secs(5))` on `SqliteConnectOptions`. Setting a busy_timeout allows queries waiting on a lock to retry rather than failing immediately with 'database is locked'."
      "Based on online documentation for `sqlx::sqlite::SqliteConnectOptions`, you configure `SqliteConnectOptions::new().busy_timeout(std::time::Duration::from_secs(5))`. This ensures that when the SQLite database file is locked by a concurrent write, sqlx retries until the timeout expires instead of throwing an immediate 'database is locked' error."
    ∷ web "How do you specify multiple GPU architectures in an nvcc gencode compiler flag?"
        "nvcc gencode syntax multiple architectures compute sm"
        "nvcc uses `-gencode arch=compute_XX,code=sm_XX` pairs. For example, to compile for both Ampere (sm_86) and Blackwell (sm_120), you pass `-gencode arch=compute_86,code=sm_86 -gencode arch=compute_120,code=sm_120`."
        "According to NVIDIA CUDA Compiler Driver NVCC documentation, you specify `-gencode arch=compute_XX,code=sm_XX` repeatedly for each target architecture. For instance: `-gencode arch=compute_86,code=sm_86 -gencode arch=compute_120,code=sm_120`. This generates distinct native machine cubins for both architectures without relying on generic JIT PTX."
    ∷ web
        "What is the vLLM engine parameter to set the fraction of GPU memory allocated to the KV cache in Python?"
        "vllm EngineArgs gpu_memory_utilization python api"
        "vLLM's `EngineArgs` and `AsyncEngineArgs` take `gpu_memory_utilization: float = 0.90` which defines the fraction of GPU memory reserved for model execution and the KV cache."
        "Based on the `vllm.EngineArgs` specification, the parameter is `gpu_memory_utilization` (a float between 0.0 and 1.0, defaulting to 0.90). This controls the total fraction of physical GPU memory reserved for the model weights and the dynamic KV cache pool."
    ∷ web "In tokio, how do you construct a multi-threaded runtime with 4 worker threads?"
        "tokio runtime Builder multi_thread worker_threads rust documentation"
        "In tokio, use `tokio::runtime::Builder::new_multi_thread().worker_threads(4).enable_all().build()`. The `worker_threads` method configures the size of the worker pool."
        "According to tokio documentation for `tokio::runtime::Builder`, you create a multi-threaded runtime using `tokio::runtime::Builder::new_multi_thread().worker_threads(4).enable_all().build().unwrap()`. The `.worker_threads(4)` call explicitly bounds the worker thread pool."
    ∷ web "How do you configure PEFT LoraConfig to target all linear layers automatically?"
        "peft LoraConfig target_modules all-linear huggingface"
        "In PEFT `LoraConfig`, setting `target_modules='all-linear'` automatically matches all Linear projection layers across attention and MLP in transformer models."
        "According to Hugging Face PEFT documentation, you can set `target_modules='all-linear'` in `LoraConfig`. This tells PEFT to automatically inspect the model architecture and attach adapters to every linear layer without manually specifying module names."
    ∷ web "In PyTorch, how do you specify non-blocking tensor transfer to CUDA streams?"
        "pytorch tensor to device non_blocking cuda stream"
        "In PyTorch, pass `non_blocking=True` to `.to('cuda', non_blocking=True)`. This allows host-to-device transfers from pinned CPU memory to overlap asynchronously with host computation."
        "Based on the PyTorch tensor documentation, you pass `tensor.to(device, non_blocking=True)`. When the source tensor is stored in pinned CPU memory (page-locked), this enables asynchronous host-to-device copy that overlaps with CPU execution."
    ∷ []

abbrev pub sysdiag_web_specs : List WebSpec
sysdiag_web_specs =
    web "What BPF map type should I use in bpftrace to aggregate a histogram of syscall latency?"
      "bpftrace hist() builtin map aggregation documentation"
      "bpftrace provides `hist()` and `lhist()` aggregation functions. `@latency = hist(nsecs - @start[tid])` builds a power-of-two histogram, printed automatically when the program exits."
      "Based on the bpftrace reference guide, use the `hist()` aggregation: `@latency = hist(nsecs - @start[tid]);`. It builds power-of-two buckets and bpftrace prints the histogram on exit, so no explicit print is needed."
    ∷ web
        "In nftables, what is the correct syntax for an atomic ruleset replacement without dropping packets?"
        "nftables atomic ruleset replacement nft -f flush ruleset documentation"
        "nftables applies a whole file atomically: `nft -f ruleset.nft` where the file begins with `flush ruleset`. The kernel commits the transaction in one step, so no window exists where the ruleset is empty."
        "Based on the nftables documentation, put `flush ruleset` at the top of your rules file and apply it with `nft -f ruleset.nft`. nftables commits the entire file as a single transaction, so there is no intermediate state in which packets are unfiltered."
    ∷ web
        "How do I make perf resolve symbols for a stripped binary that has a separate debuginfo file?"
        "perf symbol resolution separate debuginfo build-id debuginfod documentation"
        "perf resolves symbols through the build-id cache. `perf buildid-cache --add ./binary` registers it, and debuginfod (DEBUGINFOD_URLS) can fetch matching debuginfo automatically."
        "Based on the perf documentation, register the binary with `perf buildid-cache --add ./binary`, which lets perf match the recorded build-id to the separate debuginfo. Setting `DEBUGINFOD_URLS` additionally allows perf to fetch matching debuginfo on demand."
    ∷ []

abbrev pub rust_web_specs : List WebSpec
rust_web_specs =
    web "Does clippy::pedantic need to be enabled per-crate or can I set it in Cargo.toml?"
      "clippy lint configuration Cargo.toml lints table workspace documentation"
      "Since Rust 1.74 the `[lints.clippy]` table in Cargo.toml configures lints per package, and `[workspace.lints]` plus `lints.workspace = true` shares one set across a workspace. Command-line `-W clippy::pedantic` applies only to that invocation."
      "Based on the Cargo documentation, use the `[lints.clippy]` table in Cargo.toml (Rust 1.74+): `[lints.clippy]\\npedantic = { level = \"warn\", priority = -1 }`. For a workspace, define `[workspace.lints]` once and set `lints.workspace = true` in each member. Passing `-W clippy::pedantic` on the command line affects only that run and is not persisted."
    ∷ web
        "What is the difference between clippy's MachineApplicable and MaybeIncorrect suggestions?"
        "rustc suggestion applicability MachineApplicable MaybeIncorrect documentation"
        "Applicability is an enum on each suggestion: `MachineApplicable` can be applied automatically by `cargo clippy --fix`, `MaybeIncorrect` may not preserve behaviour, `HasPlaceholders` contains snippets to fill in, and `Unspecified` makes no claim."
        "Based on the rustc documentation, applicability marks how safe a suggestion is to apply automatically. `MachineApplicable` is safe for `cargo clippy --fix`; `MaybeIncorrect` is a plausible fix that may change behaviour and needs review; `HasPlaceholders` leaves snippets for you to complete. Only `MachineApplicable` suggestions are applied by `--fix` without `--allow-dirty` style overrides."
    ∷ []
