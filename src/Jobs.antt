-- ===== src/Jobs.antt =====
-- python/pypipegraph2/jobs.py: what each class of job does when it runs.
pub mod MultiFile
pub mod Temp
pub mod Invariants
