-- ===== src/Cached/Once.antt =====
-- jobs.py, PlotJob: once cached, always cached, and so for the table.
use pypipegraph.Cached.{
  PlotError, PlotGraph, PlotPaths, cache_filename, create_cache, create_plot, create_table,
  is_allowed, plot_job, redefining_error, suffix_error, table_filename,
}
use pypipegraph.Exec.{Result, raise, return, ◌>>=◌}
use pypipegraph.Prelude.{
  Bool, Bool-cases, String, add, ap, arith, concat, contains, contains-add, eq_refl, false, inl,
  inr, refl, sym, true, ◌∙◌, ◌≡◌,
}

contains-create_plot :
    (Q : PlotPaths) (plot_id x : String) (g : PlotGraph)
    → contains g.job_ids x ≡ true
    → contains (create_plot Q plot_id g).job_ids x ≡ true
unfolding create_plot
contains-create_plot Q plot_id x g h = ground (
  arith,
  h,
  contains-add (concat (concat "PI" plot_id) "_render") x (add plot_id g.job_ids),
  contains-add plot_id x g.job_ids,
)

impossible :
    (s t : PlotGraph) (r : Result PlotError (Unit {0}) × PlotGraph)
    → r ≡ (raise suffix_error, s)
    → r ≡ (return tt, t)
    → ⊥
impossible s t r e f = ground (arith, e, f)

module _ (Q : PlotPaths) where
  -- A call that returns passed the test of the suffix.
  suffix_passed :
      (output_filename cache_dir : String) (cache_calc create : Bool) (g h : PlotGraph)
      → plot_job Q output_filename cache_dir cache_calc create g ≡ (return tt, h)
      → is_allowed Q (Q.suffix output_filename) ≡ true
  unfolding plot_job
  suffix_passed output_filename cache_dir cache_calc create g h returned =
      elim (Bool-cases (is_allowed Q (Q.suffix output_filename))) [
        | inl allowed ↦ allowed
        | inr refused ↦ absurd (
            impossible g h (plot_job Q output_filename cache_dir cache_calc create g)
              (rw (refused, plot_job) refl) returned)
      ]

  table_kept :
      (create cache_calc : Bool) (table_id cache_id x : String) (g : PlotGraph)
      → contains g.job_ids x ≡ true
      → contains (create_table Q create cache_calc table_id cache_id g).1.job_ids x ≡ true
  unfolding create_table
  table_kept true true table_id cache_id x g h =
      ground (arith, h, contains-add (Q.normal table_id) x g.job_ids)
  table_kept true false table_id cache_id x g h =
      ground (arith, h, contains-add (Q.normal table_id) x g.job_ids)
  table_kept false cache_calc table_id cache_id x g h = ground (arith, h)

  -- PlotJob after the test of the suffix.
  after_suffix :
      (output_filename cache_dir : String) (cache_calc create : Bool) (g : PlotGraph)
      → is_allowed Q (Q.suffix output_filename) ≡ true
      → plot_job Q output_filename cache_dir cache_calc create g
        ≡ (create_cache Q cache_calc
                (cache_filename Q cache_dir output_filename)
                (Q.normal output_filename)
              >>= λ _.
                  create_table Q create cache_calc
                    (table_filename Q output_filename)
                    (cache_filename Q cache_dir output_filename))
            (create_plot Q (Q.normal output_filename) g)
  unfolding plot_job
  after_suffix output_filename cache_dir cache_calc create g allowed = rw allowed refl

  cache_there :
      (cache_id plot_id : String) (g : PlotGraph)
      → Q.normal cache_id ≡ cache_id
      → contains (create_cache Q true cache_id plot_id g).1.job_ids cache_id ≡ true
  unfolding create_cache
  cache_there cache_id plot_id g is_normal = rw is_normal (
      ground (
        arith,
        contains-add (concat "load_" cache_id) cache_id (add cache_id g.job_ids),
        contains-add cache_id cache_id g.job_ids,
        eq_refl cache_id,
      ))

  -- Where the path of the cache is normal as it is put together (its directory is not written with
  -- "..", and no symlink leads out of it): once a call of PlotJob has cached a plot, each later call
  -- for that file that does not cache raises the ValueError of the redefinition, however many jobs
  -- came in between: in that graph the cache's job is there to be found.
  pub once_cached :
      (output_filename cache_dir : String) (create create' : Bool) (g h later : PlotGraph)
      → Q.normal (cache_filename Q cache_dir output_filename)
        ≡ cache_filename Q cache_dir output_filename
      → plot_job Q output_filename cache_dir true create g ≡ (return tt, h)
      → ((x : String) → contains h.job_ids x ≡ true → contains later.job_ids x ≡ true)
      → (plot_job Q output_filename cache_dir false create' later).0 ≡ raise redefining_error
  unfolding create_cache create_table contains
  once_cached output_filename cache_dir create create' g h later is_normal returned more =
      let cache_id = cache_filename Q cache_dir output_filename in
      let plot_id = Q.normal output_filename in
      let allowed = suffix_passed output_filename cache_dir true create g h returned in
      let cached_graph = create_plot Q plot_id g in
      let there : contains h.job_ids cache_id ≡ true =
        ap (λ r. contains r.1.job_ids cache_id)
          (sym returned ∙ after_suffix output_filename cache_dir true create g allowed)
        ∙ table_kept create true (table_filename Q output_filename) cache_id cache_id
            (create_cache Q true cache_id plot_id cached_graph).1
            (cache_there cache_id plot_id cached_graph is_normal) in
      let found = contains-create_plot Q plot_id cache_id later (more cache_id there) in
      ap (λ r. r.0) (after_suffix output_filename cache_dir false create' later allowed)
      ∙ refused (create_plot Q plot_id later) found
    where
      refused :
          (s : PlotGraph)
          → contains s.job_ids (cache_filename Q cache_dir output_filename) ≡ true
          → ((create_cache Q false
                  (cache_filename Q cache_dir output_filename)
                  (Q.normal output_filename)
                >>= λ _.
                    create_table Q create' false
                      (table_filename Q output_filename)
                      (cache_filename Q cache_dir output_filename))
              s).0
            ≡ raise redefining_error
      refused s found = rw found refl
