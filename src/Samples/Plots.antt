-- ===== src/Samples/Plots.antt =====
-- A number that is pickled as the number after it, and plots.
use pypipegraph.Cached.{
  LoadError, Pickle, PlotGraph, PlotPaths, cache_job, create_cache, create_table, load_attribute,
  plot_job, redefining_error,
}
use pypipegraph.Cached.Loads.{cached_attribute_loaded}
use pypipegraph.Cached.Once.{once_cached}
use pypipegraph.Enums.{single_core}
use pypipegraph.Exec.{Result, raise, return}
use pypipegraph.Files.{FileSystem, file_hash, store}
use pypipegraph.Jobs.MultiFile.{JobException, run_multi_file}
use pypipegraph.Prelude.{
  Option, [], ap, arith, concat, false, none, refl, some, suc, true, ℕ, ◌-◌, ◌∷◌, ◌≡◌, ◌⊎◌,
}
use pypipegraph.Samples.Files.{numbers}

abbrev numbers_pickled : Pickle numbers
numbers_pickled = record {
  Value = ℕ;
  dumps = λ n. suc n;
  loads = λ n. return (n - 1);
  hash_bytes = λ n. "hash";
  nothing_written = 0;
}

reads_back : (v : ℕ) → ◌≡◌ {A = Result LoadError ℕ} (return (suc v - 1)) (return v)
reads_back v = ap return (omega arith)

cached_attribute_loaded_example :
    ((◌≡◌ {A = Option ℕ} (some 4) none)
      × (e : JobException) × ((run_multi_file numbers
            (cache_job numbers numbers_pickled "cache" single_core (some 4) 9)
            []
            (λ path. none)).0
          ≡ raise e))
    ⊎ ((v : ℕ) × (some 4 ≡ some v)
        × (fs' : FileSystem numbers) × (run_multi_file numbers
              (cache_job numbers numbers_pickled "cache" single_core (some 4) 9)
              []
              (λ path. none)
            ≡ (
              return (
                  ("cache", store (file_hash numbers (record { content = suc v; mtime = 9 })))
                  ∷ []),
              fs',
            ))
        × (load_attribute numbers numbers_pickled (λ n. "n") "cache" fs' ≡ return (v, "hash")))
cached_attribute_loaded_example =
    cached_attribute_loaded numbers numbers_pickled (λ n. "n") "cache" single_core (some 4) 9 []
      (λ path. none) reads_back (λ v. omega arith)

abbrev plot_paths : PlotPaths
plot_paths = record {
  suffix = λ path. ".png";
  join_path = λ dir path. concat dir (concat "/" path);
  with_suffix = λ path suffix. concat path suffix;
  normal = λ path. path;
}

abbrev no_plots : PlotGraph
no_plots = record { job_ids = []; dependencies = [] }

abbrev one_plot : PlotGraph
one_plot = (plot_job plot_paths "a.png" "cache" true true no_plots).1

one_plot_made : plot_job plot_paths "a.png" "cache" true true no_plots ≡ (return tt, one_plot)
unfolding plot_job create_cache create_table
one_plot_made = refl

once_cached_example :
    (plot_job plot_paths "a.png" "cache" false false one_plot).0 ≡ raise redefining_error
once_cached_example =
    once_cached plot_paths "a.png" "cache" true false no_plots one_plot one_plot refl one_plot_made
      (λ x h. h)
