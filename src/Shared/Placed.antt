-- ===== src/Shared/Placed.antt =====
-- What is in the directory when a job returns.
use pypipegraph.Exec.{bind-return, expect, pure, return, return-injective, ◌>>=◌, ◌>>◌}
use pypipegraph.Files.{FileSystem, Hashing, StoredHash, exists}
use pypipegraph.Prelude.{
  Bool, Bool-cases, Dict, List, Option, String, [], ap, arith, contains, contains-cons_cases,
  eq_refl, false, inl, inr, is_empty, lookup, lookup-insert, none, refl, some, subst, sym, true,
  ◌∙◌, ◌∷◌, ◌≡◌,
}
use pypipegraph.Shared.{
  SharedDir, SharedJob, check_missing, clean_if, find_or_build, finish_shared, hash_outputs,
  holds_file, linked, log_local_usage, log_source, log_usage, log_use, output_hashes, report,
  run_shared, target, with_folder, write_source,
}
use pypipegraph.Shared.Entries.{InputEntry, all_of, is_plain, link, missing_entry, no_link}
use pypipegraph.Shared.Keeps.{IsHeld}
use pypipegraph.Shared.Safety.{clean_if-Keeps}

module _ {H : Hashing} where
  all_of-holds :
      (folder : FileSystem H) (fns : List String) (fn : String)
      → all_of (holds_file (some folder)) fns ≡ true
      → contains fns fn ≡ true
      → exists H fn folder ≡ true
  unfolding all_of contains
  all_of-holds folder [] fn h m = cc
  all_of-holds folder (x ∷ fns) fn h m =
      ground (arith, all_of-holds folder fns fn, contains-cons_cases x fn fns m)

  target-cases :
      (key : String) (s : SharedDir H) (fns : List String)
      → is_empty fns ≡ false
      → all_of (holds_file (target key s)) fns ≡ true
      → (k : String) × (folder : FileSystem H) × (lookup key s.by_input ≡ some (link k))
        × (lookup k s.done ≡ some folder)
        × (all_of (holds_file (some folder)) fns ≡ true)
  unfolding all_of
  target-cases key s [] full h = absurd (ground arith)
  target-cases key s (fn ∷ fns) full h = split (lookup key s.by_input) refl h
    where
      followed :
          (k : String) (o : Option (FileSystem H))
          → lookup key s.by_input ≡ some (link k)
          → lookup k s.done ≡ o
          → all_of (holds_file o) (fn ∷ fns) ≡ true
          → (k : String) × (folder : FileSystem H) × (lookup key s.by_input ≡ some (link k))
            × (lookup k s.done ≡ some folder)
            × (all_of (holds_file (some folder)) (fn ∷ fns) ≡ true)
      followed k none l e h = absurd (ground arith)
      followed k (some folder) l e h = (k, folder, l, e, h)

      split :
          (o : Option InputEntry)
          → lookup key s.by_input ≡ o
          → all_of (holds_file (linked o s.done)) (fn ∷ fns) ≡ true
          → (k : String) × (folder : FileSystem H) × (lookup key s.by_input ≡ some (link k))
            × (lookup k s.done ≡ some folder)
            × (all_of (holds_file (some folder)) (fn ∷ fns) ≡ true)
      split none e h = absurd (ground arith)
      split (some no_link) e h = absurd (ground arith)
      split (some (link k)) e h = followed k (lookup k s.done) e refl h

  check_missing-return :
      (j : SharedJob H) (was_building : Bool) (s s' : SharedDir H) (u : Unit)
      → check_missing j was_building s ≡ (return u, s')
      → (s' ≡ s) × (all_of (holds_file (target j.by_input_key s)) j.job.files ≡ true)
  check_missing-return j was_building s s' u h = ground arith

  log_source-return :
      (j : SharedJob H) (s t : SharedDir H) (u : Unit)
      → log_source j s ≡ (return u, t)
      → (t.by_input ≡ s.by_input) × (t.done ≡ s.done)
  log_source-return j s t u h = split (lookup j.usage_dir_hash s.sources) h
    where
      split :
          (o : Option String)
          → write_source j o s ≡ (return u, t)
          → (t.by_input ≡ s.by_input) × (t.done ≡ s.done)
      split none e = (sym (ap (λ p. p.1.by_input) e), sym (ap (λ p. p.1.done) e))
      split (some text) e = ground arith

  log_usage-return :
      (j : SharedJob H) (s s' : SharedDir H) (u : Unit)
      → log_usage j s ≡ (return u, s')
      → (s'.by_input ≡ s.by_input)
        × (s'.done ≡ s.done)
        × (lookup j.usage_dir_hash s'.uses ≡ some j.by_input_key)
  unfolding log_usage
  log_usage-return j s s' u h =
      let (a, t, e, f) = bind-return (log_source j) (λ _. log_use j) s s' u h in
      let (by_input_same, done_same) = log_source-return j s t a e in
      (
        sym (ap (λ p. p.1.by_input) f) ∙ by_input_same,
        sym (ap (λ p. p.1.done) f) ∙ done_same,
        ap (λ p. lookup j.usage_dir_hash p.1.uses) (sym f)
            ∙ ground (
              arith,
              lookup-insert j.usage_dir_hash j.usage_dir_hash j.by_input_key t.uses,
              eq_refl j.usage_dir_hash,
            ),
      )

  -- What the graph of a job is left with: the use, and an output that has all the files.
  pub record IsPlaced (j : SharedJob H) (s : SharedDir H) : Type 0 where
    pub output_key : String
    pub folder : FileSystem H
    pub kept : IsHeld j.usage_dir_hash j.by_input_key output_key folder s
    pub complete : (fn : String) → contains j.job.files fn ≡ true → exists H fn folder ≡ true

  hash_outputs-same :
      (j : SharedJob H) (built : Option (Dict StoredHash)) (s t : SharedDir H)
      (res : Dict StoredHash)
      → hash_outputs j built s ≡ (return res, t)
      → t ≡ s
  hash_outputs-same j built s t res h =
      split (output_hashes j built (target j.by_input_key s) j.job.files []) h
    where
      split : (o : Option (Dict StoredHash)) → expect missing_entry o s ≡ (return res, t) → t ≡ s
      split none e = absurd (ground arith)
      split (some x) e = ap (λ p. p.1) (sym e)

  finish_shared-IsPlaced :
      (j : SharedJob H) (built : Option (Dict StoredHash)) (s s' : SharedDir H)
      (res : Dict StoredHash)
      → is_empty j.job.files ≡ false
      → all_of (holds_file (target j.by_input_key s)) j.job.files ≡ true
      → finish_shared j built s ≡ (return res, s')
      → IsPlaced j s' × ((old : Dict StoredHash) × (res ≡ with_folder j old))
  unfolding finish_shared log_local_usage
  finish_shared-IsPlaced j built s s' res full all_there h =
      let (a, t, logged, h1) =
        bind-return (log_usage j) (λ _. hash_outputs j built >>= report j built) s s' res h in
      let (same_inputs, same_done, used) = log_usage-return j s t a logged in
      let (hashes, t1, hashed, h2) =
        bind-return (hash_outputs j built) (report j built) t s' res h1 in
      let (b, t2, cleaned, h3) =
        bind-return (clean_if j built) (λ _. log_local_usage j >> pure (with_folder j hashes)) t1 s'
          res h2 in
      let (k, folder, at_key, stored, holds) =
        target-cases j.by_input_key s j.job.files full all_there in
      let before : IsHeld j.usage_dir_hash j.by_input_key k folder t1 =
        subst (IsHeld j.usage_dir_hash j.by_input_key k folder)
          (sym (hash_outputs-same j built t t1 hashes hashed))
          (
            used,
            ap (lookup j.by_input_key) same_inputs ∙ at_key,
            ap (lookup k) same_done ∙ stored,
          ) in
      let after : IsHeld j.usage_dir_hash j.by_input_key k folder t2 =
        subst (λ p. IsHeld j.usage_dir_hash j.by_input_key k folder p.1) cleaned
          (clean_if-Keeps j.usage_dir_hash j.by_input_key k folder j built t1 before) in
      (
        record {
          output_key = k;
          folder = folder;
          kept = subst (λ p. IsHeld j.usage_dir_hash j.by_input_key k folder p.1) h3 after;
          complete = λ fn. all_of-holds folder j.job.files fn holds;
        },
        (
          hashes,
          sym (
              return-injective (return (with_folder j hashes)) (return res) (with_folder j hashes)
                res (ap (λ p. p.0) h3) refl refl),
        ),
      )

  folder_entry :
      (j : SharedJob H) (res old : Dict StoredHash)
      → res ≡ with_folder j old
      → (entry : StoredHash) × (lookup j.output_dir_prefix res ≡ some entry)
        × (entry.stored_hash ≡ some j.by_input_key)
  folder_entry j res old h =
      let entry : StoredHash = record {
        stored_hash = some j.by_input_key;
        stored_size = some 0;
        stored_mtime = some j.now;
      } in
      (
        entry,
        ap (lookup j.output_dir_prefix) h
            ∙ ground (
              arith,
              lookup-insert j.output_dir_prefix j.output_dir_prefix entry old,
              eq_refl j.output_dir_prefix,
            ),
        refl,
      )

  -- When the run of a job with at least one file returns, the graph is logged to use the symlink
  -- for the job's input key, that symlink points to a stored output, every file of the job
  -- exists in that output, also after the cleanup, and the hash that is reported for the folder
  -- itself is the input key.
  pub run_places_output :
      (j : SharedJob H) (s s' : SharedDir H) (res : Dict StoredHash)
      → is_empty j.job.files ≡ false
      → run_shared j s ≡ (return res, s')
      → IsPlaced j s'
        × ((entry : StoredHash) × (lookup j.output_dir_prefix res ≡ some entry)
            × (entry.stored_hash ≡ some j.by_input_key))
  unfolding run_shared
  run_places_output j s s' res full h =
      elim (Bool-cases (is_plain (lookup j.by_input_key s.by_input))) [
        | inl plain ↦ absurd (ground arith)
        | inr fine ↦
            let (built, t, found_it, h1) =
              bind-return (find_or_build j)
                (λ built. check_missing j s.building >> finish_shared j built) s s' res
                (ground arith) in
            let (u, t1, checked, h2) =
              bind-return (check_missing j s.building) (λ _. finish_shared j built) t s' res h1 in
            let (same, all_there) = check_missing-return j s.building t t1 u checked in
            let (placed, (old, last)) =
              finish_shared-IsPlaced j built t s' res full all_there
                (subst (λ x. finish_shared j built x ≡ (return res, s')) same h2) in
            (placed, folder_entry j res old last)
      ]
