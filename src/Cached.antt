-- ===== src/Cached.antt =====
-- jobs.py, CachedDataLoadingJob, CachedAttributeLoadingJob and PlotJob: a job that pickles what a
-- function returns into a file, and jobs that load it. pickle is the record `Pickle`; what rendering
-- a plot or writing a table gives is a parameter. Paths are those of `PlotPaths`.
pub mod Loads
pub mod Once
use pypipegraph.Enums.{Resources}
use pypipegraph.Exec.{Exec, Result, modify, raise, return, throw_if, ◌>>=◌, ◌>>◌}
use pypipegraph.Files.{FileSystem, Hashing}
use pypipegraph.Jobs.MultiFile.{Callback, FileJob, exited, finished}
use pypipegraph.Prelude.{
  Bool, List, Option, String, [], add, concat, contains, false, if◌then◌else◌, none, not, some,
  true, ℕ, ◌==◌, ◌>>?◌, ◌||◌, ◌∷◌,
}

pub data LoadError : Type 0 where
  file_not_found_error unpickling_error other_pickle_error : LoadError
  -- what the load function raises
  load_function_error : LoadError

pub record Pickle (H : Hashing) : Type 1 where
  pub Value : Type 0
  pub dumps : Value → H.Content
  -- with the error of a broken pickle, or another one, as for a file with nothing in it
  pub loads : H.Content → Result LoadError Value
  pub hash_bytes : H.Content → String
  -- a file that has been opened for writing
  pub nothing_written : H.Content

-- What _hash_object is given: a value, or a ValuePlusHash around it.
pub data Loadable (V : Type 0) : Type 0 where
  plain : V → Loadable V
  value_plus_hash : V → (hexdigest : String) → Loadable V

-- The object and its hash, where the hash of plain values is a parameter.
unfoldable pub hash_object : {V : Type 0} → (V → String) → Loadable V → V × String
hash_object hash (plain v) = (v, hash v)
hash_object hash (value_plus_hash v hexdigest) = (v, hexdigest)

module _ (H : Hashing) (P : Pickle H) where
  open P use {Value, dumps, loads, hash_bytes, nothing_written}

  unfoldable pub write_file : String → H.Content → (now : ℕ) → FileSystem H → FileSystem H
  write_file path content now fs other =
      if path == other then some (record { content = content; mtime = now }) else fs other

  -- do_cache, in the process that the job starts: the file is opened before the function is called,
  -- which may raise (none).
  unfoldable pub do_cache : String → (calc : Option Value) → (now : ℕ) → Callback H
  do_cache filename none now fs = (exited 1 true, write_file filename nothing_written now fs)
  do_cache filename (some v) now fs = (finished, write_file filename (dumps v) now fs)

  -- The FileGeneratingJob that both functions create.
  abbrev pub cache_job : String → Resources → (calc : Option Value) → (now : ℕ) → FileJob H
  cache_job filename resources calc now = record {
    files = filename ∷ [];
    resources = resources;
    empty_ok = false;
    generating_function = do_cache filename calc now;
  }

  -- open, read and pickle.loads
  unfoldable pub read_cache : String → FileSystem H → Result LoadError (Value × H.Content)
  read_cache filename fs = elim (fs filename) [
    | none ↦ raise file_not_found_error
    | some f ↦ elim (loads f.content) [ raise e ↦ raise e | return v ↦ return (v, f.content) ]
  ]

  abbrev pub attribute_of :
      (Value → String) → Result LoadError (Value × H.Content) → Result LoadError (Value × String)
  attribute_of hash (raise e) = raise e
  attribute_of hash (return (v, raw)) =
      return (hash_object hash (value_plus_hash v (hash_bytes raw)))

  -- The run of the AttributeLoadingJob of CachedAttributeLoadingJob: the attribute and the hash.
  unfoldable pub load_attribute :
      (Value → String) → String → FileSystem H → Result LoadError (Value × String)
  unfolding read_cache hash_object
  load_attribute hash filename fs = attribute_of hash (read_cache filename fs)

  -- The run of the DataLoadingJob of CachedDataLoadingJob: what the load function has done to the
  -- program, and the hash of the raw bytes.
  abbrev pub apply_load :
      {W : Type 0}
      → (Value → W → Option W)
      → W
      → Result LoadError (Value × H.Content)
      → Result LoadError (W × String)
  apply_load load_function w (raise e) = raise e
  apply_load load_function w (return (v, raw)) = elim (load_function v w) [
    | none ↦ raise load_function_error
    | some w' ↦ return (w', hash_bytes raw)
  ]

  unfoldable pub load_data :
      {W : Type 0}
      → String
      → (Value → W → Option W)
      → W
      → FileSystem H
      → Result LoadError (W × String)
  unfolding read_cache
  load_data filename load_function w fs = apply_load load_function w (read_cache filename fs)

  -- plot_job.data_, which is calculated where there is none; `none` is the function's exception
  unfoldable pub plot_data : Option Value → (calc : Option Value) → Option Value
  plot_data none calc = calc
  plot_data (some v) calc = some v

  -- do_plot, which renders into the output
  unfoldable pub do_plot :
      (render : Value → Option H.Content) (data_ calc : Option Value) → Option H.Content
  unfolding plot_data
  do_plot render data_ calc = plot_data data_ calc >>? λ v. render v

  -- dump_table
  unfoldable pub dump_table :
      (to_csv : Value → Option H.Content) (data_ calc : Option Value) → Option H.Content
  unfolding plot_data
  dump_table to_csv data_ calc = plot_data data_ calc >>? λ v. to_csv v

pub record PlotPaths : Type 0 where
  pub suffix : String → String
  -- cache_dir / name, and the name with another suffix
  pub join_path : String → String → String
  pub with_suffix : String → String → String
  -- a path as a job has it, after _normalize_path
  pub normal : String → String

pub data PlotError : Type 0 where
  suffix_error redefining_error : PlotError

-- The ids of the graph's jobs and who depends on whom, as far as PlotJob adds to them.
pub record PlotGraph : Type 0 where
  pub job_ids : List String
  -- the job that depends comes first
  pub dependencies : List (String × String)

abbrev pub add_plot_job : String → PlotGraph → PlotGraph
add_plot_job job_id g = record g { job_ids = add job_id g.job_ids }

abbrev pub add_dependency : String → String → PlotGraph → PlotGraph
add_dependency job_id upstream_id g = record g {
  dependencies = (job_id, upstream_id) ∷ g.dependencies;
}

module _ (Q : PlotPaths) where
  abbrev pub cache_filename : (cache_dir output_filename : String) → String
  cache_filename cache_dir output_filename = Q.join_path cache_dir (Q.normal output_filename)

  abbrev pub table_filename : (output_filename : String) → String
  table_filename output_filename =
      Q.with_suffix (Q.normal output_filename) (concat (Q.suffix (Q.normal output_filename)) ".tsv")

  abbrev pub is_allowed : String → Bool
  is_allowed suffix = suffix == ".png" || suffix == ".pdf" || suffix == ".svg"

  -- The plot job and its ParameterInvariant.
  unfoldable pub create_plot : String → PlotGraph → PlotGraph
  create_plot plot_id g =
      add_dependency plot_id (concat (concat "PI" plot_id) "_render")
        (add_plot_job (concat (concat "PI" plot_id) "_render") (add_plot_job plot_id g))

  -- With cache_calc, the two jobs of CachedAttributeLoadingJob: the file's under its normal path.
  -- Without, the test for the path as it was put together.
  unfoldable pub create_cache :
      (cache_calc : Bool) (cache_id plot_id : String) → Exec PlotGraph PlotError Unit
  create_cache true cache_id plot_id g = (
    return tt,
    add_dependency plot_id (concat "load_" (Q.normal cache_id)) (
        add_dependency (concat "load_" (Q.normal cache_id)) (Q.normal cache_id)
          (add_plot_job (concat "load_" (Q.normal cache_id)) (add_plot_job (Q.normal cache_id) g))),
  )
  create_cache false cache_id plot_id g =
      if contains g.job_ids cache_id then (raise redefining_error, g) else (return tt, g)

  unfoldable pub create_table :
      (create cache_calc : Bool) (table_id cache_id : String) → Exec PlotGraph PlotError Unit
  create_table true true table_id cache_id g = (
    return tt,
    add_dependency (Q.normal table_id) (concat "load_" (Q.normal cache_id))
        (add_plot_job (Q.normal table_id) g),
  )
  create_table true false table_id cache_id g = (return tt, add_plot_job (Q.normal table_id) g)
  create_table false cache_calc table_id cache_id g =
      if contains g.job_ids table_id then (raise redefining_error, g) else (return tt, g)

  -- PlotJob, for jobs whose functions are not followed.
  unfoldable pub plot_job :
      (output_filename cache_dir : String) (cache_calc create : Bool)
      → Exec PlotGraph PlotError Unit
  unfolding create_cache create_table create_plot
  plot_job output_filename cache_dir cache_calc create = do
    throw_if (not (is_allowed (Q.suffix output_filename))) suffix_error
    modify (create_plot (Q.normal output_filename))
    create_cache cache_calc (cache_filename cache_dir output_filename) (Q.normal output_filename)
    create_table create cache_calc (table_filename output_filename)
        (cache_filename cache_dir output_filename)
