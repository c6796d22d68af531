-- ===== src/Ppg1/Restored/Swapping.antt =====
-- ppg1_compatibility.py, replace_ppg1: what it saves and swaps.
use pypipegraph.Ppg1.{
  Compat, Offered, delete_all, put_back, replace_modules, save_entries, save_value, swap_module,
}
use pypipegraph.Prelude.{
  AreDistinct, Dict, List, Option, Option-cases, String, [], arith, contains, contains-cons_cases,
  contains_here, contains_there, delete, eq_iff, false, has_key, if◌then◌else◌, inl, inr, insert,
  lookup, lookup-delete, lookup-insert, none, refl, some, true, ◌&&◌, ◌==◌, ◌||◌, ◌∙◌, ◌∷◌, ◌≡◌,
}

module _ {Attr : Type 0} where
  -- The modules are as they were.
  abbrev pub SameModules : Compat Attr → Compat Attr → Type 0
  SameModules s t =
      (t.sys_modules ≡ s.sys_modules) × (t.old_modules ≡ s.old_modules) × (t.patched ≡ s.patched)

  save_value-same :
      (y : String) (o : Option Attr) (s : Compat Attr) → SameModules s (save_value y o s)
  save_value-same y none s = (refl, refl, refl)
  save_value-same y (some v) s = (refl, refl, refl)

  pub save_entries-same : (xs : List String) (s : Compat Attr) → SameModules s (save_entries xs s)
  unfolding save_entries
  save_entries-same [] s = (refl, refl, refl)
  save_entries-same (y ∷ xs) s =
      let t = save_value y (lookup y s.ppg1) s in
      let (a, b, c) = save_entries-same xs t in
      let (a', b', c') = save_value-same y (lookup y s.ppg1) s in (a ∙ a', b ∙ b', c ∙ c')

  lookup-save_value :
      (y : String) (o : Option Attr) (s : Compat Attr) (x : String)
      → lookup y s.ppg1 ≡ o
      → (lookup x (save_value y o s).ppg1 ≡ (if y == x then none else lookup x s.ppg1))
        × (lookup x (save_value y o s).old_entries
            ≡ (if y == x && has_key x s.ppg1 then lookup x s.ppg1 else lookup x s.old_entries))
  lookup-save_value y none s x e = (ground (arith, eq_iff y x), ground (arith, eq_iff y x))
  lookup-save_value y (some v) s x e =
      (lookup-delete y x s.ppg1, ground (arith, lookup-insert y x v s.old_entries, eq_iff y x))

  pub lookup-save_entries :
      (xs : List String) (s : Compat Attr) (x : String)
      → (lookup x (save_entries xs s).ppg1 ≡ (if contains xs x then none else lookup x s.ppg1))
        × (lookup x (save_entries xs s).old_entries ≡ (
            if contains xs x && has_key x s.ppg1 then lookup x s.ppg1 else lookup x s.old_entries))
  unfolding save_entries contains
  lookup-save_entries [] s x = (refl, refl)
  lookup-save_entries (y ∷ xs) s x =
      let t = save_value y (lookup y s.ppg1) s in
      let (a, b) = lookup-save_entries xs t x in
      let (c, d) = lookup-save_value y (lookup y s.ppg1) s x refl in
      (ground (arith, a, c), ground (arith, b, c, d))

  pub lookup-put_back :
      (ks : List String) (entries d : Dict Attr) (x : String)
      → lookup x (put_back ks entries d)
        ≡ (if contains ks x && has_key x entries then lookup x entries else lookup x d)
  unfolding put_back contains
  lookup-put_back [] entries d x = refl
  lookup-put_back (k ∷ ks) entries d x = elim (Option-cases (lookup k entries)) [
    | inr gone ↦ ground (arith, lookup-put_back ks entries d x, eq_iff k x)
    | inl (v, present) ↦
        ground
          (arith, lookup-put_back ks entries (insert k v d) x, lookup-insert k x v d, eq_iff k x)
  ]

  pub lookup-delete_all :
      (xs : List String) (d : Dict Attr) (x : String)
      → lookup x (delete_all xs d) ≡ (if contains xs x then none else lookup x d)
  unfolding delete_all contains
  lookup-delete_all [] d x = refl
  lookup-delete_all (y ∷ xs) d x =
      ground (arith, lookup-delete_all xs (delete y d) x, lookup-delete y x d, eq_iff y x)

  -- The module that a name stood for before the swap.
  abbrev pub before : Compat Attr → String → Option Attr
  before s x = if has_key x s.old_modules then lookup x s.old_modules else lookup x s.sys_modules

  before-swap_module :
      (O : Offered Attr) (name : String) (m : Attr) (s : Compat Attr) (x : String)
      → lookup name s.sys_modules ≡ some m
      → has_key name s.old_modules ≡ false
      → before (swap_module O name m s) x ≡ before s x
  unfolding swap_module
  before-swap_module O name m s x e fresh = ground (
    arith,
    lookup-insert name x m s.old_modules,
    lookup-insert name x (O.new_module name) s.sys_modules,
    eq_iff name x,
  )

  swap_module-has_key :
      (O : Offered Attr) (name : String) (m : Attr) (s : Compat Attr) (x : String)
      → (has_key x s.old_modules || name == x) ≡ true
      → has_key x (swap_module O name m s).old_modules ≡ true
  unfolding swap_module
  swap_module-has_key O name m s x h =
      ground (arith, lookup-insert name x m s.old_modules, eq_iff name x)

  has_key-swap_module :
      (O : Offered Attr) (name : String) (m : Attr) (s : Compat Attr) (x : String)
      → (name == x) ≡ false
      → (has_key x (swap_module O name m s).old_modules ≡ has_key x s.old_modules)
        × (has_key x (swap_module O name m s).sys_modules ≡ has_key x s.sys_modules)
  unfolding swap_module
  has_key-swap_module O name m s x other = (
    ground (arith, lookup-insert name x m s.old_modules),
    ground (arith, lookup-insert name x (O.new_module name) s.sys_modules),
  )

  pub record IsReady (names : List String) (s : Compat Attr) : Type 0 where
    pub loaded : (x : String) → contains names x ≡ true → has_key x s.sys_modules ≡ true
    pub fresh : (x : String) → contains names x ≡ true → has_key x s.old_modules ≡ false

  -- The modules are swapped, and what each name stood for can be told.
  pub record Swapped (O : Offered Attr) (names : List String) (s : Compat Attr) : Type 0 where
    pub result : Compat Attr
    pub returned_it : replace_modules O names s ≡ some result
    pub same_ppg1 : result.ppg1 ≡ s.ppg1
    pub same_entries : result.old_entries ≡ s.old_entries
    pub told : (x : String) → before result x ≡ before s x
    pub saved : (x : String) → contains names x ≡ true → has_key x result.old_modules ≡ true
    pub still_saved :
        (x : String) → has_key x s.old_modules ≡ true → has_key x result.old_modules ≡ true

  swapped_ppg1 :
      (O : Offered Attr) (name : String) (m : Attr) (s : Compat Attr)
      → (swap_module O name m s).ppg1 ≡ s.ppg1
  unfolding swap_module
  swapped_ppg1 O name m s = refl

  swapped_entries :
      (O : Offered Attr) (name : String) (m : Attr) (s : Compat Attr)
      → (swap_module O name m s).old_entries ≡ s.old_entries
  unfolding swap_module
  swapped_entries O name m s = refl

  replace_modules-step :
      (O : Offered Attr) (name : String) (names : List String) (m : Attr) (s : Compat Attr)
      → lookup name s.sys_modules ≡ some m
      → replace_modules O (name ∷ names) s ≡ replace_modules O names (swap_module O name m s)
  unfolding replace_modules
  replace_modules-step O name names m s present = rw (present, replace_modules) refl

  pub replace_modules_lem :
      (O : Offered Attr) (names : List String) (s : Compat Attr)
      → AreDistinct names
      → IsReady names s
      → Swapped O names s
  unfolding replace_modules contains
  replace_modules_lem O [] s distinct ready = record {
    result = s;
    returned_it = refl;
    same_ppg1 = refl;
    same_entries = refl;
    told = λ x. refl;
    saved = λ x m. cc;
    still_saved = λ x m. m;
  }
  replace_modules_lem O (name ∷ names) s (unique, distinct) ready =
      elim (Option-cases (lookup name s.sys_modules)) [
        | inr gone ↦ absurd (ground (arith, ready.loaded name (contains_here name names)))
        | inl (m, present) ↦
            let t = swap_module O name m s in
            let differs : (x : String) → contains names x ≡ true → (name == x) ≡ false =
              λ x later. ground (arith, eq_iff name x, unique, later) in
            let rest = replace_modules_lem O names t distinct (record {
              loaded = λ x later.
                  (has_key-swap_module O name m s x (differs x later)).1
                  ∙ ready.loaded x (contains_there name x names later);
              fresh = λ x later.
                  (has_key-swap_module O name m s x (differs x later)).0
                  ∙ ready.fresh x (contains_there name x names later);
            }) in
            record {
              result = rest.result;
              returned_it = replace_modules-step O name names m s present ∙ rest.returned_it;
              same_ppg1 = rest.same_ppg1 ∙ swapped_ppg1 O name m s;
              same_entries = rest.same_entries ∙ swapped_entries O name m s;
              told = λ x.
                  rest.told x
                  ∙ before-swap_module O name m s x present
                      (ready.fresh name (contains_here name names));
              saved = λ x known. elim (contains-cons_cases name x names known) [
                | inl same ↦
                    rest.still_saved x
                      (swap_module-has_key O name m s x (ground (arith, eq_iff name x)))
                | inr later ↦ rest.saved x later
              ];
              still_saved = λ x known.
                  rest.still_saved x (swap_module-has_key O name m s x (ground (arith, known)));
            }
      ]
