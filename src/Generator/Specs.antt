-- ===== src/Generator/Specs.antt =====
-- training/dataset_generator.py: the tables from which the samples of each domain are built.
use gpu_lab.Base.{String, List, [], ◌∷◌}

-- The rows of the tables.
pub record CliSpec : Type 0 where
  pub tool_name : String
  pub help_cmd : String
  pub tool_desc : String

pub record TrapSpec : Type 0 where
  pub tool_name : String
  pub fake_flag : String
  pub help_cmd : String
  pub fake_desc : String

pub record WebSpec : Type 0 where
  pub query : String
  pub search_term : String
  pub snippet : String
  pub answer : String

abbrev pub cli : String → String → String → CliSpec
cli tool cmd desc = record { tool_name = tool; help_cmd = cmd; tool_desc = desc }

abbrev pub trap : String → String → String → String → TrapSpec
trap tool flag cmd desc = record {
  tool_name = tool;
  fake_flag = flag;
  help_cmd = cmd;
  fake_desc = desc;
}

abbrev pub web : String → String → String → String → WebSpec
web q term text a = record { query = q; search_term = term; snippet = text; answer = a }

abbrev pub cli_specs : List CliSpec
cli_specs =
    cli "cargo" "cargo --help" "Cargo build tool"
    ∷ cli "cargo build" "cargo build --help" "Compile local packages"
    ∷ cli "cargo test" "cargo test --help" "Execute unit and integration tests"
    ∷ cli "cargo check" "cargo check --help"
        "Check a package for syntax/type errors without building"
    ∷ cli "cargo clippy" "cargo clippy --help" "Run Rust lints"
    ∷ cli "cargo doc" "cargo doc --help" "Build package documentation"
    ∷ cli "cargo bench" "cargo bench --help" "Execute benchmarks"
    ∷ cli "cargo clean" "cargo clean --help" "Remove artifacts that cargo has generated in the past"
    ∷ cli "cargo tree" "cargo tree --help" "Display a tree visualization of a dependency graph"
    ∷ cli "cargo update" "cargo update --help" "Update dependencies listed in Cargo.lock"
    ∷ cli "git log" "git log -h" "View commit history"
    ∷ cli "git diff" "git diff -h" "Show changes between commits or working tree"
    ∷ cli "git commit" "git commit -h" "Record changes to the repository"
    ∷ cli "git status" "git status -h" "Show working tree status"
    ∷ cli "git checkout" "git checkout -h" "Switch branches or restore files"
    ∷ cli "git branch" "git branch -h" "List, create, or delete branches"
    ∷ cli "git stash" "git stash -h" "Stash changes in a dirty working directory"
    ∷ cli "git fetch" "git fetch -h" "Download objects and refs from another repository"
    ∷ cli "git rebase" "git rebase -h" "Reapply commits on top of another base tip"
    ∷ cli "git reset" "git reset -h" "Reset current HEAD to the specified state"
    ∷ cli "git show" "git show -h" "Show various types of objects"
    ∷ cli "git remote" "git remote -h" "Manage set of tracked repositories"
    ∷ cli "git tag" "git tag -h" "Create, list, delete or verify a tag object"
    ∷ cli "docker run" "docker run --help" "Run a command in a new container"
    ∷ cli "docker build" "docker build --help" "Build an image from a Dockerfile"
    ∷ cli "docker images" "docker images --help" "List images"
    ∷ cli "docker ps" "docker ps --help" "List containers"
    ∷ cli "docker stop" "docker stop --help" "Stop one or more running containers"
    ∷ cli "docker exec" "docker exec --help" "Execute a command in a running container"
    ∷ cli "docker compose" "docker compose --help" "Docker Compose multi-container management"
    ∷ cli "docker volume" "docker volume --help" "Manage Docker volumes"
    ∷ cli "docker network" "docker network --help" "Manage Docker networks"
    ∷ cli "nvidia-smi" "nvidia-smi --help" "NVIDIA System Management Interface"
    ∷ cli "systemctl" "systemctl --help" "Control the systemd system and service manager"
    ∷ cli "journalctl" "journalctl --help" "Query the systemd journal"
    ∷ cli "rg" "rg --help" "Ripgrep fast line-oriented search"
    ∷ cli "pytest" "pytest --help" "Python test runner"
    ∷ cli "python3" "python3 -h" "Python interpreter"
    ∷ cli "curl" "curl --help" "Command line tool for transferring data with URLs"
    ∷ cli "pip" "pip --help" "Python package installer"
    ∷ cli "tar" "tar --help" "Archive utility"
    ∷ cli "find" "find --help" "Search for files in a directory hierarchy"
    ∷ cli "grep" "grep --help" "Print lines that match patterns"
    ∷ cli "df" "df --help" "Report file system disk space usage"
    ∷ cli "free" "free --help" "Display amount of free and used memory in the system"
    ∷ cli "ip address" "ip address help" "IPv4/IPv6 address management"
    ∷ cli "ip link" "ip link help" "Network device configuration"
    ∷ []

abbrev pub sysdiag_cli_specs : List CliSpec
sysdiag_cli_specs =
    cli "strace" "strace --help" "Trace system calls and signals"
    ∷ cli "bpftrace" "bpftrace --help" "High-level tracing language for eBPF"
    ∷ cli "gdb" "gdb --help" "The GNU debugger"
    ∷ cli "objdump" "objdump --help" "Display information from object files"
    ∷ cli "readelf" "readelf --help" "Display information about ELF files"
    ∷ cli "nm" "nm --help" "List symbols from object files"
    ∷ cli "ss" "ss --help" "Investigate sockets"
    ∷ cli "nft" "nft --help" "nftables packet filtering administration"
    ∷ cli "iptables" "iptables --help" "Administer IPv4 packet filter rules"
    ∷ cli "nmcli" "nmcli --help" "Command-line tool for NetworkManager"
    ∷ []
