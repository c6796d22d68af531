-- ===== src/Ppg1/Restored.antt =====
-- replace_ppg1 and unreplace_ppg1 undo one another.
pub mod Swapping
use pypipegraph.Ppg1.{
  Compat, Offered, delete_all, entry_names, put_back, replace_ppg1, replaced_modules, save_entries,
  set_entries, unreplace_ppg1,
}
use pypipegraph.Ppg1.Restored.Swapping.{
  IsReady, SameModules, Swapped, before, lookup-delete_all, lookup-put_back, lookup-save_entries,
  replace_modules_lem, save_entries-same,
}
use pypipegraph.Prelude.{
  Dict, Option, Option-cases, String, [], ap, arith, contains, contains-keys, false, has_key,
  if◌then◌else◌, inl, inr, is_some, keys, lookup, lookup-insert, none, refl, some, sym, true, ◌&&◌,
  ◌==◌, ◌∙◌, ◌≡◌,
}

module _ {Attr : Type 0} where
  put_back_all :
      (entries d : Dict Attr) (x : String)
      → lookup x (put_back (keys entries) entries d)
        ≡ (if has_key x entries then lookup x entries else lookup x d)
  put_back_all entries d x =
      ground (arith, lookup-put_back (keys entries) entries d x, contains-keys x entries)

  all_deleted : (d : Dict Attr) (x : String) → lookup x (delete_all (keys d) d) ≡ none
  all_deleted d x =
      ground (arith, lookup-delete_all (keys d) d x, contains-keys x d, Option-cases (lookup x d))

  entries_back :
      (entries d : Dict Attr) (x : String)
      → lookup x (put_back (keys entries) entries (delete_all (keys d) d)) ≡ lookup x entries
  entries_back entries d x = ground (
    arith,
    put_back_all entries (delete_all (keys d) d) x,
    all_deleted d x,
    Option-cases (lookup x entries),
  )

  all_saved :
      (s : Compat Attr) (x : String)
      → s.old_entries ≡ []
      → lookup x (save_entries (keys s.ppg1) s).old_entries ≡ lookup x s.ppg1
  unfolding lookup
  all_saved s x no_entries =
      (lookup-save_entries (keys s.ppg1) s x).1
      ∙ rw (contains-keys x s.ppg1, no_entries) (both (lookup x s.ppg1))
    where
      both : (o : Option Attr) → (if is_some o && is_some o then o else none) ≡ o
      both none = refl
      both (some v) = refl

  -- What unreplace_ppg1 makes of a replaced module.
  lookup-unreplace_ppg1 :
      (t : Compat Attr) (x : String) (m : Attr)
      → t.patched ≡ true
      → lookup "pypipegraph.testing" t.old_modules ≡ some m
      → (lookup x (unreplace_ppg1 t).ppg1
          ≡ (if "testing" == x then some m else lookup x t.old_entries))
        × (lookup x (unreplace_ppg1 t).sys_modules ≡ before t x)
        × ((unreplace_ppg1 t).patched ≡ false)
  unfolding unreplace_ppg1
  lookup-unreplace_ppg1 t x m on testing_module = (
    rw (on, testing_module)
        (lookup-insert "testing" x m
            (put_back (keys t.old_entries) t.old_entries (delete_all (keys t.ppg1) t.ppg1))
          ∙ ap (λ o. if "testing" == x then some m else o) (entries_back t.old_entries t.ppg1 x)),
    rw on (put_back_all t.old_modules t.sys_modules x),
    rw on refl,
  )

  before_swaps :
      (s t : Compat Attr) (x : String)
      → SameModules s t
      → s.old_modules ≡ []
      → before t x ≡ lookup x s.sys_modules
  unfolding lookup
  before_swaps s t x (same_sys, same_old, _) no_modules = rw (same_sys, same_old, no_modules) refl

  saved-IsReady :
      (s : Compat Attr)
      → IsReady replaced_modules s
      → IsReady replaced_modules (save_entries (keys s.ppg1) s)
  saved-IsReady s ready =
      let (same_sys, same_old, _) = save_entries-same (keys s.ppg1) s in
      record {
        loaded = λ x known. ap (has_key x) same_sys ∙ ready.loaded x known;
        fresh = λ x known. ap (has_key x) same_old ∙ ready.fresh x known;
      }

  -- The module that is put back as `testing`.
  testing_before :
      (r s : Compat Attr) (m : Attr)
      → before r "pypipegraph.testing" ≡ lookup "pypipegraph.testing" s.sys_modules
      → lookup "pypipegraph.testing" r.old_modules ≡ some m
      → some m ≡ lookup "pypipegraph.testing" s.sys_modules
  testing_before r s m told present = sym (rw present refl) ∙ told

  replace_ppg1-Swapped :
      (O : Offered Attr) (s : Compat Attr)
      (w : Swapped O replaced_modules (save_entries (keys s.ppg1) s))
      → s.patched ≡ false
      → replace_ppg1 O s
        ≡ some (record w.result { patched = true; ppg1 = set_entries O entry_names w.result.ppg1 })
  unfolding replace_ppg1
  replace_ppg1-Swapped O s w unpatched = ground (arith, w.returned_it)

  was_testing :
      (O : Offered Attr) (s : Compat Attr) (w : Swapped O replaced_modules s)
      → (m : Attr) × (lookup "pypipegraph.testing" w.result.old_modules ≡ some m)
  unfolding contains
  was_testing O s w = elim (Option-cases (lookup "pypipegraph.testing" w.result.old_modules)) [
    | inl known ↦ known
    | inr gone ↦ absurd (ground (arith, w.saved "pypipegraph.testing" refl))
  ]

  -- replace_ppg1 and unreplace_ppg1 undo one another, where ppg1 was not replaced before and the
  -- three modules that are swapped are loaded: replacing succeeds, and afterwards every module
  -- is the one that it was, and ppg1 has the attributes that it had, but for `testing`, which is
  -- the testing module.
  pub unreplace_ppg1-replace_ppg1 :
      (O : Offered Attr) (s : Compat Attr) (x : String)
      → s.patched ≡ false
      → s.old_entries ≡ []
      → s.old_modules ≡ []
      → IsReady replaced_modules s
      → (t : Compat Attr) × (replace_ppg1 O s ≡ some t)
        × (lookup x (unreplace_ppg1 t).ppg1 ≡ (
            if "testing" == x then lookup "pypipegraph.testing" s.sys_modules else lookup x s.ppg1))
        × (lookup x (unreplace_ppg1 t).sys_modules ≡ lookup x s.sys_modules)
        × ((unreplace_ppg1 t).patched ≡ false)
  unfolding contains
  unreplace_ppg1-replace_ppg1 O s x unpatched no_entries no_modules ready =
      let u = save_entries (keys s.ppg1) s in
      let same = save_entries-same (keys s.ppg1) s in
      let w =
        replace_modules_lem O replaced_modules u (refl, (refl, (refl, tt)))
          (saved-IsReady s ready) in
      let r = w.result in
      let t = record r { patched = true; ppg1 = set_entries O entry_names r.ppg1 } in
      let (m, present) = was_testing O u w in
      let (attributes, modules, off) = lookup-unreplace_ppg1 t x m refl present in
      let told : (y : String) → before r y ≡ lookup y s.sys_modules =
        λ y. w.told y ∙ before_swaps s u y same no_modules in
      (
        t,
        replace_ppg1-Swapped O s w unpatched,
        attributes
            ∙ ap (λ o. if "testing" == x then some m else o)
                (ap (lookup x) w.same_entries ∙ all_saved s x no_entries)
            ∙ ap (λ o. if "testing" == x then o else lookup x s.ppg1)
                (testing_before r s m (told "pypipegraph.testing") present),
        modules ∙ told x,
        off,
      )
