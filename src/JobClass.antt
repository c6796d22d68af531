-- ===== src/JobClass.antt =====
-- python/pypipegraph2/jobs.py: the classes of jobs, and what each is to the engine.
use pypipegraph.Prelude.{Bool, false, true}

pub data JobClass : Type 0 where
  multi_file_generating_job file_generating_job : JobClass
  multi_temp_file_generating_job temp_file_generating_job : JobClass
  shared_multi_file_generating_job : JobClass
  function_invariant file_invariant notebook_invariant parameter_invariant : JobClass
  -- ppg1_compatibility.FileInvariant
  compat_file_invariant : JobClass
  data_loading_job attribute_loading_job job_generating_job : JobClass

pub data EvalJobKind : Type 0 where
  output ephemeral always : EvalJobKind

-- The class attribute `eval_job_kind`.
unfoldable pub eval_job_kind : JobClass → EvalJobKind
eval_job_kind multi_file_generating_job = output
eval_job_kind file_generating_job = output
eval_job_kind shared_multi_file_generating_job = output
eval_job_kind multi_temp_file_generating_job = ephemeral
eval_job_kind temp_file_generating_job = ephemeral
eval_job_kind data_loading_job = ephemeral
eval_job_kind attribute_loading_job = ephemeral
eval_job_kind _ = always

-- isinstance(job, _InvariantMixin)
unfoldable pub is_invariant : JobClass → Bool
is_invariant function_invariant = true
is_invariant file_invariant = true
is_invariant notebook_invariant = true
is_invariant parameter_invariant = true
is_invariant compat_file_invariant = true
is_invariant _ = false

unfoldable pub JobClass-discrete : Discrete JobClass
JobClass-discrete = hlevel
