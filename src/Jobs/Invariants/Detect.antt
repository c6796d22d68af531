-- ===== src/Jobs/Invariants/Detect.antt =====
-- jobs.py: which changes the invariants report.
use pypipegraph.Exec.{return}
use pypipegraph.Files.{
  File, FileHash, FileSystem, Hashing, StoredHash, compare_file_hashes, file_hash, same_stat, store,
}
use pypipegraph.Jobs.Invariants.{
  FunctionHash, FunctionNow, closure_of, compare_function_hashes, dis_and_source, fresh_dis,
  line_unchanged, look_at_file, look_at_hashes, run_file_invariant, run_function_invariant,
  run_job_generating, same_line, source_file_of, version_in,
}
use pypipegraph.Prelude.{
  Bool-cases, Dict, Option, Option-cases, String, [], arith, eq_refl, false, inl, inr, lookup, none,
  refl, some, true, ℕ, ◌&&◌, ◌==◌, ◌||◌, ◌∷◌, ◌≡◌, ◌≢◌, ◌⊎◌,
}

module _ (H : Hashing) where
  -- A FileInvariant whose file exists, on a history with an entry for it, reports a change (that
  -- is, its new entry compares unequal to the old) exactly if the file's time or size is not as
  -- recorded and its digest is another. It changes no file.
  file_change_detected :
      (out : String) (hist : Dict StoredHash) (fs : FileSystem H) (f : File H) (old : StoredHash)
      (digest : String)
      → fs out ≡ some f
      → lookup out hist ≡ some old
      → old.stored_hash ≡ some digest
      → (res : Dict StoredHash) × (new : StoredHash) × (run_file_invariant H out hist fs
          ≡ (return res, fs))
        × (lookup out res ≡ some new)
        × (compare_file_hashes old new
            ≡ some (same_stat (file_hash H f) old || H.hexdigest f.content == digest))
  unfolding run_file_invariant compare_file_hashes
  file_change_detected out [] fs f old digest there found known = absurd (unfold lookup in cc found)
  file_change_detected out (h ∷ hist) fs f old digest there found known =
      elim (Bool-cases (same_stat (file_hash H f) old)) [
        | inl same ↦ (h ∷ hist, old, ground arith, found, ground (arith, eq_refl digest))
        | inr other ↦ (
          (out, store (file_hash H f)) ∷ [],
          store (file_hash H f),
          ground arith,
          unfold lookup in ground (arith, eq_refl out),
          unfold store in ground arith,
        )
      ]

look_again :
    (f : Option FileHash) (h : Option StoredHash)
    → (look_at_hashes f h).0 ≡ true
    → (look_at_hashes f (look_at_hashes f h).1).0 ≡ true
look_again none h e = e
look_again (some f) none e = absurd (ground arith)
look_again (some f) (some old) e = ground arith

same_line_refl : (n : Option ℕ) → same_line n n ≡ true
same_line_refl none = refl
same_line_refl (some n) = ground arith

dis_cases :
    (now : FunctionNow) (hist : Option FunctionHash) (v : Option (String × String))
    → ((look_at_file now hist).0 ≡ true) ⊎ ((dis_and_source now hist v).0 ≡ fresh_dis now)
unfolding dis_and_source
dis_cases now hist none = inr refl
dis_cases now hist (some (dis, closure)) = elim (Bool-cases (look_at_file now hist).0) [
  | inl same ↦ inl same
  | inr other ↦ inr (ground arith)
]

look_again_at :
    (now : FunctionNow) (hist : Option FunctionHash)
    → (look_at_file now hist).0 ≡ true
    → (look_at_file now (some (run_function_invariant now hist))).0 ≡ true
unfolding look_at_file run_function_invariant
look_again_at now hist same = look_again now.file (source_file_of hist) same

line_again :
    (now : FunctionNow) (hist : Option FunctionHash)
    → line_unchanged now (some (run_function_invariant now hist)) ≡ true
unfolding run_function_invariant
line_again now hist = same_line_refl now.line_no

version_again :
    (now : FunctionNow) (hist : Option FunctionHash)
    → version_in now (some (run_function_invariant now hist))
      ≡ some ((dis_and_source now hist (version_in now hist)).0, closure_of now)
unfolding run_function_invariant lookup
version_again now hist = ground (arith, eq_refl now.python_version)

dis_kept :
    (now : FunctionNow) (hist : Option FunctionHash) (v : String × String)
    → v.0 ≡ (dis_and_source now hist (version_in now hist)).0
    → (dis_and_source now (some (run_function_invariant now hist)) (some v)).0 ≡ v.0
dis_kept now hist (dis, closure) e = elim (dis_cases now hist (version_in now hist)) [
  | inl same ↦
      unfold dis_and_source in ground (arith, look_again_at now hist same, line_again now hist)
  | inr fresh ↦
      elim (dis_cases now (some (run_function_invariant now hist)) (some (dis, closure))) [
        | inl again ↦ unfold dis_and_source in ground (arith, again, line_again now hist)
        | inr fresh' ↦ cc (e, fresh, fresh')
      ]
]

compare_versions :
    (python_version : String) (old new : FunctionHash) (v w : String × String)
    → lookup python_version old.versions ≡ some v
    → lookup python_version new.versions ≡ some w
    → v.0 ≡ w.0
    → v.1 ≡ w.1
    → compare_function_hashes python_version old new ≡ true
unfolding compare_function_hashes
compare_versions python_version old new (d, c) (d', c') eo en ed ec =
    ground (arith, eq_refl d, eq_refl c)

-- Running a FunctionInvariant again on what it stored, with nothing changed, reports no change,
-- whatever the first run started from.
function_rerun_equal :
    (now : FunctionNow) (hist : Option FunctionHash)
    → compare_function_hashes now.python_version
        (run_function_invariant now hist)
        (run_function_invariant now (some (run_function_invariant now hist)))
      ≡ true
function_rerun_equal now hist =
    let first = run_function_invariant now hist in
    let v : String × String = ((dis_and_source now hist (version_in now hist)).0, closure_of now) in
    let kept = dis_kept now hist v refl in
    let found = version_again now hist in
    let again = version_again now (some first) in
    compare_versions now.python_version first (run_function_invariant now (some first)) v
      ((dis_and_source now (some first) (version_in now (some first))).0, closure_of now) found
      again (rw (found, kept)) refl

-- A Python function whose source file or first line is not as recorded is compared by what it
-- is now: no change is reported exactly if bytecode and closure are those recorded for this
-- Python version.
function_change_detected :
    (now : FunctionNow) (old : FunctionHash) (dis closure : String)
    → now.is_python_function ≡ true
    → lookup now.python_version old.versions ≡ some (dis, closure)
    → ((look_at_file now (some old)).0 && line_unchanged now (some old)) ≡ false
    → compare_function_hashes now.python_version old (run_function_invariant now (some old))
      ≡ (now.dis_now == dis && now.closure_now == closure)
unfolding compare_function_hashes run_function_invariant lookup dis_and_source fresh_dis
function_change_detected now old dis closure python found moved =
    ground (arith, eq_refl now.python_version)

-- Every run of a JobGeneratingJob reports another value than the history has.
job_generating_changes :
    (out : String) (hist : Dict ℕ) → lookup out (run_job_generating out hist) ≢ lookup out hist
unfolding run_job_generating
job_generating_changes out hist h = elim (Option-cases (lookup out hist)) [
  | inl n ↦ absurd (unfold lookup in ground (arith, eq_refl out))
  | inr n ↦ absurd (unfold lookup in ground (arith, eq_refl out))
]
