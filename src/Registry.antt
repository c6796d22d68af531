-- ===== src/Registry.antt =====
-- python/pypipegraph2/graph.py, PyPipeGraph.add, find_job, add_edge and has_edge, and
-- jobs.py, _dedup_job and Job.depends_on: the graph that the jobs build while they are created.
pub mod Graph
pub mod Depends
pub mod Invariant
pub mod Conflict
pub mod Resolve
pub use Graph.*
pub use Depends.*
