-- ===== src/Generator/Traps.antt =====
-- training/dataset_generator.py: the invented flags, and the templates of the questions.
use gpu_lab.Base.{String, List, [], ◌∷◌}
use gpu_lab.Generator.Specs.{TrapSpec, trap}

abbrev pub trap_specs : List TrapSpec
trap_specs =
    trap "cargo build" "--gpu-acceleration" "cargo build --help" "GPU acceleration"
    ∷ trap "cargo check" "--fast-mode" "cargo check --help" "fast mode"
    ∷ trap "cargo test" "--instant" "cargo test --help" "instant test execution"
    ∷ trap "cargo clippy" "--auto-rewrite" "cargo clippy --help" "automatic rewriting of all lints"
    ∷ trap "cargo clean" "--delete-source-code" "cargo clean --help" "deleting source code"
    ∷ trap "git commit" "--instant-push" "git commit -h" "committing and pushing in one step"
    ∷ trap "git log" "--show-diff-inline-always" "git log -h" "inline diff display"
    ∷ trap "git status" "--cleanup-dirty" "git status -h" "cleaning up dirty working files"
    ∷ trap "git reset" "--revert-everything-unconditionally" "git reset -h"
        "unconditional reversion of everything"
    ∷ trap "docker run" "--unlimited-ram" "docker run --help" "unlimited RAM without memory limits"
    ∷ trap "docker build" "--skip-safety-checks" "docker build --help" "skipping safety checks"
    ∷ trap "docker stop" "--kill-node-power" "docker stop --help" "killing host node power"
    ∷ trap "nvidia-smi" "--boost-clock-extreme" "nvidia-smi --help" "extreme clock boost"
    ∷ trap "systemctl" "--force-delete-unit" "systemctl --help" "force deletion of service units"
    ∷ trap "pytest" "--ignore-all-syntax-errors" "pytest --help" "ignoring syntax errors"
    ∷ trap "curl" "--auto-retry-infinite" "curl --help" "infinite automatic retries"
    ∷ trap "pip" "--force-install-everything" "pip --help"
        "installing without dependency resolution"
    ∷ trap "tar" "--quantum-compress" "tar --help" "quantum compression algorithm"
    ∷ []

abbrev pub sysdiag_trap_specs : List TrapSpec
sysdiag_trap_specs =
    trap "strace" "--follow-threads-deep" "strace --help" "deep thread following"
    ∷ trap "strace" "--auto-decode-structs" "strace --help" "automatic struct decoding"
    ∷ trap "bpftrace" "--jit-optimize" "bpftrace --help" "JIT optimisation of probes"
    ∷ trap "gdb" "--auto-fix-segfault" "gdb --help" "automatic segfault repair"
    ∷ trap "objdump" "--decompile-to-c" "objdump --help" "decompilation to C source"
    ∷ trap "readelf" "--repair-headers" "readelf --help" "repairing malformed ELF headers"
    ∷ trap "nm" "--resolve-dynamic-always" "nm --help" "unconditional dynamic resolution"
    ∷ trap "ss" "--live-throughput" "ss --help" "live per-socket throughput"
    ∷ trap "nft" "--auto-flush-stale" "nft --help" "automatic flushing of stale rules"
    ∷ trap "iptables" "--optimize-chains" "iptables --help" "automatic chain optimisation"
    ∷ trap "nmcli" "--force-reconnect-all" "nmcli --help" "forcing reconnection of every device"
    ∷ []

abbrev pub cli_prompt_templates : List String
cli_prompt_templates =
    "What is the option in {tool} to {desc}?" ∷ "How do I {desc} using {tool}?"
    ∷ "In {tool}, what flag controls {desc}?" ∷ "What does the {flag} flag do in {tool}?"
    ∷ "Can you tell me the syntax for {flag} in {tool}?"
    ∷ "I need to {desc}. Which command-line option in {tool} should I use?" ∷ []

abbrev pub trap_prompt_templates : List String
trap_prompt_templates =
    "Does {tool} support the {fake_flag} option for {fake_desc}?"
    ∷ "How do I use the {fake_flag} flag in {tool}?" ∷ "What does {fake_flag} do in {tool}?"
    ∷ "Can I pass {fake_flag} to {tool} when running it?" ∷ []

abbrev pub rust_trap_lints : List (String × String)
rust_trap_lints =
    ("clippy::auto_vectorize", "automatic loop vectorisation")
    ∷ ("clippy::infer_lifetimes", "automatic lifetime inference")
    ∷ ("clippy::optimize_allocations", "allocation optimisation")
    ∷ ("clippy::detect_data_race", "data race detection")
    ∷ ("clippy::suggest_parallel_iter", "suggesting rayon parallel iterators")
    ∷ ("clippy::unsafe_audit", "auditing unsafe blocks")
    ∷ ("clippy::async_deadlock", "async deadlock detection")
    ∷ ("clippy::memory_leak_check", "leak detection")
    ∷ []
