-- ===== src/Lib.antt =====
-- pypipegraph2 runs a graph of jobs: a program builds jobs and their dependencies
-- (python/pypipegraph2/jobs.py, graph.py), and each round of PyPipeGraph.run makes a Runner
-- (runner.py) that prunes the graph, asks the Rust engine which jobs are ready, and runs them in
-- threads that share a CoreLock (parallel.py). What a job returns are the hashes of its outputs;
-- the engine keeps them as the history and asks history_comparisons.py whether a change matters
-- to a dependent job. The files here follow these parts:
--
-- Prelude, Exec: the names shared, Python's dicts and sets, and methods that may raise.
-- Enums: enums.py and job_status.py. JobClass: the classes of jobs.py.
-- CoreLock: parallel.py, with each `with self.lock:` block of CoreLock as one step of one thread,
--   and what it refines (CoreLock/Refinement).
-- Digraph: what graph.py and runner.py take from networkx, as an interface (Digraph/Edges is an
--   instance), and the recursion over neighbours (Digraph/Walk).
-- Pruning: Runner._apply_pruning. The fuel is the depth to which Python recurses; one more than
--   the number of nodes is enough on an acyclic graph, and this is proved.
-- Registry: PyPipeGraph.add, add_edge and find_job_from_file, _dedup_job and Job.depends_on, and
--   _resolve_dependency_callbacks (Registry/Resolve), whose fuel is the recursion limit; where
--   callables only give callables of a smaller rank, one more than the highest is enough.
-- Filenames: _normalize_path, _validate_files_argument, __getitem__ and the ids of jobs.py. pathlib
--   is the interface Paths. Filenames/Unplaced has __init__, get_input and __getitem__ of
--   SharedMultiFileGeneratingJob as far as they are about its files.
-- Files: hashers.py and the file system, over a digest that stands for xxhash.
-- Jobs: run, cleanup and compare_hashes of the file jobs (Jobs/MultiFile, Jobs/Temp) and of the
--   invariants and loading jobs (Jobs/Invariants). A callback is a function on the file system
--   with the way its process ends; fork, pipes and captured output are not modelled.
-- Cached: the cached loading jobs and PlotJob of jobs.py, over pickle as the interface Pickle.
-- Functions: _handle_function_dependency and the creation of function invariants in jobs.py; a
--   function is its name, its code and its closure.
-- Closure: extract_closure of jobs.py. Python's repr and sorted are the interface Reprs.
-- Shared: SharedMultiFileGeneratingJob.run and _cleanup of jobs.py: Shared/Entries has the folders'
--   entries, Shared/Naming _derive_output_name and _hash_hashes, Shared/Keeps, Safety, Placed and
--   Retry the proofs. A job of Shared has the keys that the two compute as fields. The lock files
--   are left out: runs come one after the other.
-- Logs: _cleanup_logs, _cleanup_errors and _link_latest (Logs/Latest) of graph.py.
-- History: _save_history, _load_history and _convert_old_history of graph.py, over a codec that
--   stands for json, gzip and pickle; an interrupt comes inside the try of the loop
--   (one while the file is opened or closed is left out).
-- Ppg1: ppg1_compatibility.py: the attributes that replace_ppg1 swaps, cores_needed and
--   _ignore_code_changes (Ppg1/Adaptors), and _wrap_func_if_no_output_file_params
--   (Ppg1/Wrapping).
-- Globals: __init__.py: new with the arguments it remembers, inside_ppg and
--   _with_changed_global_pipegraph. The constructor of a PyPipeGraph is the interface Graphs.
-- Console: interactive.py: the typed line (Console/Line), the keys and the commands.
-- Launch: Runner.__init__ with modify_dag, and build_evaluator of runner.py.
-- Runner: the two locked blocks of Runner._executing_thread, what runs between them, how a
--   round writes its outcomes, and any number of threads that take turns (Runner/Steps). The Rust
--   engine (src/*.rs) is the interface Engine, whose answers are arbitrary.
-- Session: PyPipeGraph._run, over an interface for what a Runner does in a round and whether the
--   saving of the history is interrupted. max_runs is structural: five, lowered before each
--   turn, leaves four rounds. Session/Around has what surrounds the rounds: the flag
--   `running`, signals, and the restart.
-- Comparisons: history_comparisons.py. Selection: _prune_unrelated and _prune_but.
-- Outcomes: the end of Runner.run. Unique: util.assert_uniqueness_of_object.
-- Samples: concrete runs.
--
-- Not modelled: the Rust engine, notebook jobs, the rendering of plots, the other wrappers of
-- ppg1's job classes, tracebacks, logging, what signal handlers do, terminal modes, and process
-- handling.
-- Times are whole seconds as hash_file stores them. A Path is the string it prints as.
pub mod Prelude
pub mod Exec
pub mod Enums
pub mod JobClass
pub mod CoreLock
pub mod Digraph
pub mod Pruning
pub mod Registry
pub mod Files
pub mod Filenames
pub mod Jobs
pub mod Functions
pub mod Closure
pub mod Cached
pub mod Shared
pub mod Logs
pub mod History
pub mod Ppg1
pub mod Globals
pub mod Console
pub mod Launch
pub mod Runner
pub mod Session
pub mod Comparisons
pub mod Selection
pub mod Outcomes
pub mod Unique
pub mod Samples
