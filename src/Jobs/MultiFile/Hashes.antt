-- ===== src/Jobs/MultiFile/Hashes.antt =====
-- jobs.py, MultiFileGeneratingJob.run: the hashes and the checks of the files made.
use pypipegraph.Exec.{return}
use pypipegraph.Files.{File, FileSystem, Hashing, StoredHash, file_hash, hash_file, store}
use pypipegraph.Jobs.MultiFile.{FileJob, empty_ones, hash_all}
use pypipegraph.Prelude.{
  Bool-cases, Dict, List, Option-cases, String, [], arith, contains, contains-cons_cases, eq_iff,
  false, inl, inr, insert, is_empty, lookup, lookup-insert, refl, some, subst, sym, true, ◌==◌, ◌∷◌,
  ◌≡◌, ◌≢◌, ◌⊎◌,
}

module _ (H : Hashing) where
  -- What a run that returned leaves for one of the job's files.
  pub record IsMade (job : FileJob H) (fs : FileSystem H) (res : Dict StoredHash) (path : String)
      : Type 0 where
    pub file : File H
    pub on_disk : fs path ≡ some file
    pub hashed : lookup path res ≡ some (store (file_hash H file))
    pub not_empty : job.empty_ok ≡ false → H.size_of file.content ≢ 0

  pub hash_all-lookup :
      (ofs : List String) (acc res : Dict StoredHash) (fs : FileSystem H) (path : String)
      → (hash_all H ofs acc fs).0 ≡ return res
      → ((contains ofs path ≡ true)
          × ((f : File H) × (fs path ≡ some f) × (lookup path res ≡ some (store (file_hash H f)))))
        ⊎ ((contains ofs path ≡ false) × (lookup path res ≡ lookup path acc))
  unfolding hash_all hash_file contains
  hash_all-lookup [] acc res fs path h = inr (refl, ground arith)
  hash_all-lookup (of ∷ ofs) acc res fs path h = elim (Option-cases (fs of)) [
    | inr gone ↦ absurd (ground arith)
    | inl (f, there) ↦
        elim (hash_all-lookup ofs (insert of (store (file_hash H f)) acc) res fs path
          (ground arith)) [
            | inl (m, made) ↦ inl (ground arith, made)
            | inr (m, kept) ↦ elim (Bool-cases (of == path)) [
              | inl same ↦ inl (
                ground arith,
                (
                  f,
                  subst (λ p. fs p ≡ some f) ((eq_iff of path).0 same) there,
                  ground (arith, lookup-insert of path (store (file_hash H f)) acc),
                ),
              )
              | inr other ↦
                  inr (
                    ground arith,
                    ground (arith, lookup-insert of path (store (file_hash H f)) acc),
                  )
            ]
          ]
  ]

  pub fs-hash_all :
      (ofs : List String) (acc : Dict StoredHash) (fs : FileSystem H)
      → (hash_all H ofs acc fs).1 ≡ fs
  unfolding hash_all
  fs-hash_all [] acc fs = refl
  fs-hash_all (of ∷ ofs) acc fs = elim (Option-cases (hash_file H of fs)) [
    | inr gone ↦ rw (gone, hash_all)
    | inl (h, there) ↦ rw (there, hash_all) (fs-hash_all ofs (insert of (store h) acc) fs)
  ]

  pub size-empty_ones :
      (ofs : List String) (fs : FileSystem H) (path : String) (f : File H)
      → is_empty (empty_ones H ofs fs) ≡ true
      → contains ofs path ≡ true
      → fs path ≡ some f
      → H.size_of f.content ≢ 0
  unfolding empty_ones contains
  size-empty_ones [] fs path f none_empty m there zero_size = cc
  size-empty_ones (of ∷ ofs) fs path f none_empty m there zero_size =
      elim (contains-cons_cases of path ofs m) [
        | inl same ↦
            let here_too = subst (λ p. fs p ≡ some f) (sym same) there in absurd (ground arith)
        | inr later ↦ size-empty_ones ofs fs path f (ground arith) later there zero_size
      ]
