-- ===== src/Shared/Retry.antt =====
-- A job whose build failed, run again, and builds that give different outputs.
use pypipegraph.Closure.{checked}
use pypipegraph.Exec.{Result, bind-return, pure, raise, return, ◌>>=◌, ◌>>◌}
use pypipegraph.Files.{FileSystem, Hashing, StoredHash}
use pypipegraph.Jobs.MultiFile.{JobException, run_multi_file}
use pypipegraph.Prelude.{
  Bool-cases, Dict, Option, String, ap, arith, eq_iff, false, inl, inr, is_empty, lookup, none,
  refl, some, sym, true, ◌≡◌, ◌≢◌,
}
use pypipegraph.Shared.{
  SharedDir, SharedJob, Sharing, after_build, build_output, check_missing, find_or_build,
  finish_shared, found, link_entry, link_input, run_shared, store_build,
}
use pypipegraph.Shared.Entries.{
  InputEntry, all_of, any_of, build_failed, is_plain, link, no_link, two_outputs,
}

module _ {H : Hashing} where
  -- A run of a job of at least one file that starts with `building` set does not return.
  building_never_returns :
      (j : SharedJob H) (s s' : SharedDir H) (res : Dict StoredHash)
      → s.building ≡ true
      → is_empty j.job.files ≡ false
      → run_shared j s ≢ (return res, s')
  unfolding run_shared
  building_never_returns j s s' res on full h =
      elim (Bool-cases (is_plain (lookup j.by_input_key s.by_input))) [
        | inl no_symlink ↦ absurd (ground arith)
        | inr fine ↦
            let (built, t, found_it, h1) =
              bind-return (find_or_build j)
                (λ built. check_missing j s.building >> finish_shared j built) s s' res
                (ground arith) in
            let (u, t1, checked, h2) =
              bind-return (check_missing j s.building) (λ _. finish_shared j built) t s' res h1 in
            absurd (ground arith)
      ]

  after_build-failed :
      (j : SharedJob H) (r : Result JobException (Dict StoredHash)) (f : FileSystem H)
      (s s' : SharedDir H) (e : JobException)
      → after_build j r f s ≡ (raise (build_failed e), s')
      → s'.building ≡ true
  unfolding link_input
  after_build-failed j (raise x) f s s' e h = ap (λ p. p.1.building) (sym h)
  after_build-failed j (return res) f s s' e h = absurd (
      never_linked j.by_input_key (j.hash_hashes res) res
        (store_build j.build_name (j.hash_hashes res) f s) s' e h)
    where
      split :
          (key k : String) (res : Dict StoredHash) (o : Option InputEntry) (t t' : SharedDir H)
          (e : JobException)
          → (link_entry key k o >>= λ _. pure res) t ≢ (raise (build_failed e), t')
      split key k res none t t' e h = absurd (ground arith)
      split key k res (some no_link) t t' e h = absurd (ground arith)
      split key k res (some (link other)) t t' e h = absurd (ground arith)

      never_linked :
          (key k : String) (res : Dict StoredHash) (t t' : SharedDir H) (e : JobException)
          → (link_input key k >>= λ _. pure res) t ≢ (raise (build_failed e), t')
      never_linked key k res t t' e = split key k res (lookup key t.by_input) t t' e

  find_or_build-failed :
      (j : SharedJob H) (s s' : SharedDir H) (e : JobException)
      → find_or_build j s ≡ (raise (build_failed e), s')
      → s'.building ≡ true
  unfolding find_or_build build_output
  find_or_build-failed j s s' e h = elim (Bool-cases (all_of (found j s) j.job.files)) [
    | inl full ↦ absurd (ground arith)
    | inr partial ↦ elim (Bool-cases (any_of (found j s) j.job.files)) [
      | inl some_there ↦ absurd (ground arith)
      | inr nothing ↦
          let (r, f) = run_multi_file H j.job j.historical_output (λ fn. none) in
          after_build-failed j r f s s' e (built (after_build j r f) (ground arith))
    ]
  ]
    where
      built :
          (m : Sharing H (Dict StoredHash))
          → (m >>= λ res. pure (some res)) s ≡ (raise (build_failed e), s')
          → m s ≡ (raise (build_failed e), s')
      built m h = ground arith

  -- The run that follows a failed build does not return: whatever job of at least one file runs
  -- next with the `building` that the failed build left, also the same job with a callback that
  -- now writes all its files. (If its build succeeds, that run resets `building` before it raises.)
  pub failed_build_sticks :
      (j again : SharedJob H) (s s' s'' : SharedDir H) (e : JobException) (res : Dict StoredHash)
      → find_or_build j s ≡ (raise (build_failed e), s')
      → is_empty again.job.files ≡ false
      → run_shared again s' ≢ (return res, s'')
  failed_build_sticks j again s s' s'' e res broke full =
      building_never_returns again s' s'' res (find_or_build-failed j s s' e broke) full

  link_input-refused :
      (key old new : String) (s : SharedDir H)
      → lookup key s.by_input ≡ some (link old)
      → old ≢ new
      → link_input key new s ≡ (raise two_outputs, s)
  unfolding link_input
  link_input-refused key old new s linked_to differs = rw linked_to (ground (arith, eq_iff old new))

  -- A build whose outputs hash to another key than the symlink for its inputs names raises
  -- two_outputs. The symlink stays as it is, and the new output is stored beside the old one.
  two_outputs_refused :
      (j : SharedJob H) (s : SharedDir H) (old : String) (res : Dict StoredHash)
      (folder : FileSystem H)
      → lookup j.by_input_key s.by_input ≡ some (link old)
      → all_of (found j s) j.job.files ≡ false
      → any_of (found j s) j.job.files ≡ false
      → run_multi_file H j.job j.historical_output (λ fn. none) ≡ (return res, folder)
      → old ≢ j.hash_hashes res
      → run_shared j s ≡ (raise two_outputs, store_build j.build_name (j.hash_hashes res) folder s)
  unfolding run_shared find_or_build build_output store_build
  two_outputs_refused j s old res folder linked_to partial nothing built differs =
      let stored : SharedDir H = store_build j.build_name (j.hash_hashes res) folder s in
      rw
        (
          linked_to,
          partial,
          nothing,
          built,
          link_input-refused j.by_input_key old (j.hash_hashes res) stored linked_to differs,
        )
        refl
