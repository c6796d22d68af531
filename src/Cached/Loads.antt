-- ===== src/Cached/Loads.antt =====
-- jobs.py, CachedAttributeLoadingJob, CachedDataLoadingJob and PlotJob: what is loaded is what was
-- calculated.
use pypipegraph.Cached.{
  Pickle, cache_job, do_cache, hash_object, load_attribute, read_cache, write_file,
}
use pypipegraph.Enums.{Resources, is_external}
use pypipegraph.Exec.{raise, return}
use pypipegraph.Files.{File, FileSystem, Hashing, StoredHash, file_hash, hash_file, store}
use pypipegraph.Jobs.MultiFile.{
  FileJob, JobException, check_outputs, conclude, conclude_here, empty_ones, exited, generate,
  hash_all, job_error, missing, run_multi_file, user_exception,
}
use pypipegraph.Jobs.MultiFile.Correct.{run_calls_callback, without}
use pypipegraph.Prelude.{
  Bool, Dict, Option, String, [], ap, arith, eq_refl, false, if◌then◌else◌, inl, inr, insert, none,
  refl, some, true, ℕ, ◌<◌, ◌∙◌, ◌∷◌, ◌≡◌, ◌⊎◌,
}

module _ (H : Hashing) (P : Pickle H) where
  open P use {Value, dumps, loads, hash_bytes}

  -- The file as it is after the cache job.
  abbrev cached_file : Value → ℕ → File H
  cached_file v now = record { content = dumps v; mtime = now }

  written :
      (filename : String) (v : Value) (now : ℕ) (fs : FileSystem H)
      → write_file H P filename (dumps v) now fs filename ≡ some (cached_file v now)
  unfolding write_file
  written filename v now fs = rw (eq_refl filename) refl

  generate-cache_job :
      (filename : String) (resources : Resources) (v : Value) (now : ℕ) (fs : FileSystem H)
      → generate H (cache_job H P filename resources (some v) now) fs
        ≡ (return tt, write_file H P filename (dumps v) now fs)
  unfolding generate do_cache conclude conclude_here
  generate-cache_job filename resources v now fs = ground arith

  check_outputs-cache_job :
      (job : FileJob H) (filename : String) (f : File H) (fs : FileSystem H)
      → job.files ≡ filename ∷ []
      → fs filename ≡ some f
      → 0 < H.size_of f.content
      → check_outputs H job fs ≡ (return tt, fs)
  unfolding check_outputs missing empty_ones
  check_outputs-cache_job job filename f fs shape there some_bytes =
      rw (shape, there) (ground (arith, some_bytes))

  hash_all-cache_job :
      (filename : String) (f : File H) (fs : FileSystem H)
      → fs filename ≡ some f
      → hash_all H (filename ∷ []) [] fs ≡ (return ((filename, store (file_hash H f)) ∷ []), fs)
  unfolding hash_all hash_file insert
  hash_all-cache_job filename f fs there = rw (there, hash_all) refl

  -- The cache job, when the function returns.
  run_cache_job :
      (filename : String) (resources : Resources) (v : Value) (now : ℕ) (hist : Dict StoredHash)
      (fs : FileSystem H)
      → 0 < H.size_of (dumps v)
      → (fs' : FileSystem H) × (run_multi_file H
            (cache_job H P filename resources (some v) now)
            hist
            fs
          ≡ (return ((filename, store (file_hash H (cached_file v now))) ∷ []), fs'))
        × (fs' filename ≡ some (cached_file v now))
  run_cache_job filename resources v now hist fs some_bytes =
      let job = cache_job H P filename resources (some v) now in
      let clean = without H job.files fs in
      let fs' = write_file H P filename (dumps v) now clean in
      let there = written filename v now clean in
      (
        fs',
        run_calls_callback H job hist fs filename [] refl
            ∙ rw
                (
                  generate-cache_job filename resources v now clean,
                  check_outputs-cache_job job filename (cached_file v now) fs' refl there
                      some_bytes,
                  hash_all-cache_job filename (cached_file v now) fs' there,
                )
                refl,
        there,
      )

  conclude-failed :
      (b : Bool) (fs : FileSystem H)
      → (e : JobException) × ((if b
            then conclude H (exited 1 true) fs
            else conclude_here H (exited 1 true) fs)
          ≡ (raise e, fs))
  unfolding conclude conclude_here
  conclude-failed true fs = (job_error, refl)
  conclude-failed false fs = (user_exception, refl)

  -- The cache job, when the function raises.
  cache_job_raises :
      (filename : String) (resources : Resources) (now : ℕ) (hist : Dict StoredHash)
      (fs : FileSystem H)
      → (e : JobException) × ((run_multi_file H
            (cache_job H P filename resources none now)
            hist
            fs).0
          ≡ raise e)
  unfolding generate do_cache
  cache_job_raises filename resources now hist fs =
      let job = cache_job H P filename resources none now in
      let clean = without H job.files fs in
      let (e, broke) =
        conclude-failed (is_external resources)
          (write_file H P filename P.nothing_written now clean) in
      let stopped : run_multi_file H job hist fs
          ≡ (raise e, write_file H P filename P.nothing_written now clean) =
        run_calls_callback H job hist fs filename [] refl ∙ rw broke refl in
      (e, ap (λ r. r.0) stopped)

  load_attribute_lem :
      (hash : Value → String) (filename : String) (v : Value) (now : ℕ) (fs : FileSystem H)
      → fs filename ≡ some (cached_file v now)
      → loads (dumps v) ≡ return v
      → load_attribute H P hash filename fs ≡ return (v, hash_bytes (dumps v))
  unfolding load_attribute read_cache hash_object
  load_attribute_lem hash filename v now fs there unpickles =
      rw (there, load_attribute, read_cache) (rw unpickles refl)

  -- CachedAttributeLoadingJob: where the function that is cached raises, so does the run of the cache
  -- job. Where it returns a value (whose pickle is not empty and is read back as that value), the
  -- cache job returns the hash of its file, and the job that loads sets the attribute to that very
  -- value and reports the hash of the pickle, whatever was on disk before.
  pub cached_attribute_loaded :
      (hash : Value → String) (filename : String) (resources : Resources) (calc : Option Value)
      (now : ℕ) (hist : Dict StoredHash) (fs : FileSystem H)
      → ((v : Value) → loads (dumps v) ≡ return v)
      → ((v : Value) → 0 < H.size_of (dumps v))
      → ((calc ≡ none)
          × (e : JobException) × ((run_multi_file H
                (cache_job H P filename resources calc now)
                hist
                fs).0
              ≡ raise e))
        ⊎ ((v : Value) × (calc ≡ some v)
            × (fs' : FileSystem H) × (run_multi_file H
                  (cache_job H P filename resources calc now)
                  hist
                  fs
                ≡ (return ((filename, store (file_hash H (cached_file v now))) ∷ []), fs'))
            × (load_attribute H P hash filename fs' ≡ return (v, hash_bytes (dumps v))))
  cached_attribute_loaded hash filename resources none now hist fs unpickles some_bytes =
      let (e, raised) = cache_job_raises filename resources now hist fs in inl (refl, e, raised)
  cached_attribute_loaded hash filename resources (some v) now hist fs unpickles some_bytes =
      let (fs', ran, there) = run_cache_job filename resources v now hist fs (some_bytes v) in
      inr (v, refl, fs', ran, load_attribute_lem hash filename v now fs' there (unpickles v))
