-- ===== src/Samples.antt =====
-- Concrete runs of the models, and the theorems at them.
pub mod Locks
pub mod Graphs
pub mod Files
pub mod Runs
pub mod Ends
pub mod Folders
pub mod Asked
pub mod Upkeep
pub mod Restarts
pub mod Launches
pub mod Named
pub mod Plots
pub mod Around
pub mod Shares
pub mod Closures
use pypipegraph.Prelude.{String, arith, eq_iff, false, ◌==◌, ◌≡◌, ◌≢◌}

pub different : (a b : String) → (a == b) ≡ false → a ≢ b
different a b h e = ground (arith, eq_iff a b, h, e)
