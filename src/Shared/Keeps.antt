-- ===== src/Shared/Keeps.antt =====
-- What `_cleanup` leaves of the folders.
use pypipegraph.Exec.{Keeps, Result, raise, return}
use pypipegraph.Files.{FileSystem, Hashing}
use pypipegraph.Prelude.{
  Bool-cases, Dict, List, Option, String, [], arith, contains, contains-cons_cases, delete, eq_iff,
  if◌then◌else◌, inl, inr, lookup, lookup-delete, lookup-insert, none, refl, some, true, ◌==◌, ◌∙◌,
  ◌∷◌, ◌≡◌,
}
use pypipegraph.Shared.{
  SharedDir, SharedJob, clean_up, drop_unused, finish_drop, link_entry, link_input, store_build,
  target,
}
use pypipegraph.Shared.Entries.{
  InputEntry, SharedError, drop_inputs, keep_only, link, no_link, used_outputs, values,
}

pub contains-values :
    (d : Dict String) (u key : String) → lookup u d ≡ some key → contains (values d) key ≡ true
unfolding lookup values contains
contains-values [] u key h = cc
contains-values ((j, v) ∷ d) u key h =
    ground (arith, contains-values d u key, eq_iff j u, eq_iff v key)

pub lookup-keep_only :
    {V : Type 0} (used : List String) (k : String) (d : Dict V)
    → lookup k (keep_only used d) ≡ (if contains used k then lookup k d else none)
unfolding lookup keep_only
lookup-keep_only used k [] = ground arith
lookup-keep_only used k ((j, v) ∷ d) = ground (arith, lookup-keep_only used k d, eq_iff j k)

pub lookup-drop_inputs :
    (used : List String) (key : String) (d left : Dict InputEntry)
    → contains used key ≡ true
    → lookup key (drop_inputs used d left).1 ≡ lookup key left
unfolding drop_inputs
lookup-drop_inputs used key [] left h = refl
lookup-drop_inputs used key ((j, link k) ∷ d) left h = ground (
  arith,
  lookup-drop_inputs used key d left h,
  lookup-drop_inputs used key d (delete j left) h,
  lookup-delete j key left,
  eq_iff j key,
)
lookup-drop_inputs used key ((j, no_link) ∷ d) left h =
    ground (arith, lookup-drop_inputs used key d left h)

used_outputs-cons :
    (x : String) (ks : List String) (by_input : Dict InputEntry) (used : List String)
    → used_outputs (x ∷ ks) by_input ≡ return used
    → (k : String) × (rest : List String) × (lookup x by_input ≡ some (link k))
      × (used_outputs ks by_input ≡ return rest)
      × (used ≡ k ∷ rest)
unfolding used_outputs
used_outputs-cons x ks by_input used r =
    split (lookup x by_input) (used_outputs ks by_input) refl refl r
  where
    split :
        (o : Option InputEntry) (u : Result SharedError (List String))
        → lookup x by_input ≡ o
        → used_outputs ks by_input ≡ u
        → used_outputs (x ∷ ks) by_input ≡ return used
        → (k : String) × (rest : List String) × (lookup x by_input ≡ some (link k))
          × (used_outputs ks by_input ≡ return rest)
          × (used ≡ k ∷ rest)
    split (some (link k)) (return rest) e u h = (k, rest, e, u, ground arith)
    split (some (link k)) (raise f) e u h = absurd (ground arith)
    split (some no_link) w e u h = absurd (ground arith)
    split none w e u h = absurd (ground arith)

-- A symlink that some graph uses keeps its output.
pub contains-used_outputs :
    (ks : List String) (by_input : Dict InputEntry) (used : List String) (key k : String)
    → used_outputs ks by_input ≡ return used
    → contains ks key ≡ true
    → lookup key by_input ≡ some (link k)
    → contains used k ≡ true
unfolding contains
contains-used_outputs [] by_input used key k r h l = cc
contains-used_outputs (x ∷ ks) by_input used key k r h l =
    let (e, rest, at_x, went, same) = used_outputs-cons x ks by_input used r in
    elim (contains-cons_cases x key ks h) [
      | inl same_key ↦ ground (arith, eq_iff e k)
      | inr later ↦ ground (arith, contains-used_outputs ks by_input rest key k went later l)
    ]

module _ {H : Hashing} where
  -- A graph is logged as the user of a symlink, and symlink and output are there.
  abbrev pub IsHeld : String → String → String → FileSystem H → SharedDir H → Type 0
  IsHeld user key output_key folder s =
      (lookup user s.uses ≡ some key)
      × (lookup key s.by_input ≡ some (link output_key))
      × (lookup output_key s.done ≡ some folder)

module _ {H : Hashing} (user key output_key : String) (folder : FileSystem H) where
  pub store_build-Keeps :
      (build_name k : String) (f : FileSystem H) (s : SharedDir H)
      → IsHeld user key output_key folder s
      → IsHeld user key output_key folder (store_build build_name k f s)
  unfolding store_build
  store_build-Keeps build_name k f s (u, l, d) =
      (u, l, ground (arith, lookup-insert k output_key f s.done, eq_iff k output_key))

  pub link_input-Keeps :
      (k target : String) → Keeps (IsHeld user key output_key folder) (link_input k target)
  unfolding link_input
  link_input-Keeps k target s (u, l, d) = link_entry-Keeps (lookup k s.by_input) refl
    where
      link_entry-Keeps :
          (o : Option InputEntry)
          → lookup k s.by_input ≡ o
          → IsHeld user key output_key folder (link_entry k target o s).1
      link_entry-Keeps none e =
          (u, ground (arith, lookup-insert k key (link target) s.by_input, eq_iff k key), d)
      link_entry-Keeps (some no_link) e = (u, l, d)
      link_entry-Keeps (some (link other)) e = elim (Bool-cases (other == target)) [
        | inl same ↦ rw same (u, l, d)
        | inr differs ↦ rw differs (u, l, d)
      ]

  drop_unused-Keeps :
      (users : List String) (r : Result SharedError (List String)) (s : SharedDir H)
      → used_outputs users s.by_input ≡ r
      → contains users key ≡ true
      → IsHeld user key output_key folder s
      → IsHeld user key output_key folder (drop_unused users r s).1
  drop_unused-Keeps users (raise e) s r m hold = hold
  drop_unused-Keeps users (return used) s r m (u, l, d) =
      after (drop_inputs users s.by_input s.by_input)
        (lookup-drop_inputs users key s.by_input s.by_input m)
    where
      after :
          (left : Result SharedError (Unit {0}) × Dict InputEntry)
          → lookup key left.1 ≡ lookup key s.by_input
          → IsHeld user key output_key folder (finish_drop used left s).1
      after (raise e, left) same = (u, same ∙ l, d)
      after (return _, left) same = (
        u,
        same ∙ l,
        lookup-keep_only used output_key s.done
            ∙ rw (contains-used_outputs users s.by_input used key output_key r m l) d,
      )

  pub clean_up-Keeps : (j : SharedJob H) → Keeps (IsHeld user key output_key folder) (clean_up j)
  unfolding clean_up
  clean_up-Keeps j s hold = elim (Bool-cases j.remove_unused) [
    | inr off ↦ rw off hold
    | inl on ↦ rw on (
        drop_unused-Keeps (values s.uses) (used_outputs (values s.uses) s.by_input) s refl
          (contains-values s.uses user key hold.0) hold)
  ]
