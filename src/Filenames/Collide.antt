-- ===== src/Filenames/Collide.antt =====
-- jobs.py, _validate_files_argument and Job.__new__: ids of different files that are the same.
use text.Mathlib.TextLemmas.{append_assoc as text_assoc}
use pypipegraph.Digraph.{Digraph}
use pypipegraph.JobClass.{JobClass}
