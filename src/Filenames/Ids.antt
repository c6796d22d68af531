-- ===== src/Filenames/Ids.antt =====
-- jobs.py, Job.__new__: the id of a job does not depend on the order of its outputs.
use mathlib.Core.HLevel.{hedberg}
use mathlib.Core.List.{Perm, Permᴰ}
use mathlib.Core.Logic.{∥∥₁_elim}
use pypipegraph.Filenames.{insert_sorted, job_id_of, join, sorted_by}
use pypipegraph.Prelude.{
  Bool-cases, List, String, [], ap, arith, eq_iff, inl, inr, refl, subst, text_le, text_le-antisym,
  text_le-total, text_le_trans, ◌==◌, ◌∙◌, ◌∷◌, ◌≡◌,
}

insert-insert :
    (x y : String) (l : List String)
    → insert_sorted text_le x (insert_sorted text_le y l)
      ≡ insert_sorted text_le y (insert_sorted text_le x l)
unfolding insert_sorted
insert-insert x y [] = elim (Bool-cases (text_le x y)) [
  | inl xy ↦ elim (Bool-cases (text_le y x)) [
    | inl yx ↦
        subst
          (λ w.
            insert_sorted text_le x (insert_sorted text_le w [])
            ≡ insert_sorted text_le w (insert_sorted text_le x []))
          (text_le-antisym x y xy yx) refl
    | inr yx ↦ rw (xy, yx) refl
  ]
  | inr xy ↦ rw (xy, text_le-total x y xy) refl
]
insert-insert x y (z ∷ l) = elim (Bool-cases (text_le x z)) [
  | inl xz ↦ elim (Bool-cases (text_le y z)) [
    | inl yz ↦ elim (Bool-cases (text_le x y)) [
      | inl xy ↦ elim (Bool-cases (text_le y x)) [
        | inl yx ↦
            subst
              (λ w.
                insert_sorted text_le x (insert_sorted text_le w (z ∷ l))
                ≡ insert_sorted text_le w (insert_sorted text_le x (z ∷ l)))
              (text_le-antisym x y xy yx) refl
        | inr yx ↦ ground (arith, xz, yz, xy, yx)
      ]
      | inr xy ↦ ground (arith, xz, yz, xy, text_le-total x y xy)
    ]
    | inr yz ↦ elim (Bool-cases (text_le y x)) [
      | inl yx ↦ absurd (ground (arith, yz, text_le_trans y x z yx xz))
      | inr yx ↦ ground (arith, xz, yz, yx)
    ]
  ]
  | inr xz ↦ elim (Bool-cases (text_le y z)) [
    | inl yz ↦ elim (Bool-cases (text_le x y)) [
      | inl xy ↦ absurd (ground (arith, xz, text_le_trans x y z xy yz))
      | inr xy ↦ ground (arith, xz, yz, xy)
    ]
    | inr yz ↦ ground (arith, xz, yz, insert-insert x y l)
  ]
]

sorted_by-perm : {xs ys : List String} → Permᴰ xs ys → sorted_by text_le xs ≡ sorted_by text_le ys
unfolding sorted_by
sorted_by-perm Permᴰ.nil = refl
sorted_by-perm (Permᴰ.cons {a = a} {l₁ = xs} {l₂ = ys} e p) =
    ap (insert_sorted text_le a) (sorted_by-perm p)
    ∙ ap (λ b. insert_sorted text_le b (sorted_by text_le ys)) e
sorted_by-perm (Permᴰ.swap {a = a} {b = b} {l = l} e f) =
    insert-insert a b (sorted_by text_le l)
    ∙ (λ i. insert_sorted text_le (f i) (insert_sorted text_le (e i) (sorted_by text_le l)))
sorted_by-perm (Permᴰ.trans p q) = sorted_by-perm p ∙ sorted_by-perm q

texts-discrete : (s t : String) → Dec (s ≡ t)
texts-discrete s t = elim (Bool-cases (s == t)) [
  | inl same ↦ yes ((eq_iff s t).0 same)
  | inr other ↦ no (λ e. absurd (ground (arith, other, eq_iff s t, e)))
]

texts_are_set : IsSet String
texts_are_set = hedberg texts-discrete

-- Outputs that are given in another order make the same job id.
pub job_id_of_perm : {xs ys : List String} → Perm xs ys → job_id_of xs ≡ job_id_of ys
unfolding job_id_of
job_id_of_perm {xs} {ys} p =
    ∥∥₁_elim p (texts_are_set (job_id_of xs) (job_id_of ys))
      (λ d. ap (join ":::") (sorted_by-perm d))
