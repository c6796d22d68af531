-- ===== src/Logs/Latest.antt =====
-- graph.py, _link_latest, _link_logs and _link_errors: the symlink to the newest log or error folder.
use pypipegraph.Logs.{glob, insert_name, sorted}
use pypipegraph.Prelude.{
  Bool, Bool-cases, Dict, List, Option, Option-cases, String, [], arith, contains, contains-keys,
  delete, eq_iff, eq_refl, false, has_key, inl, inr, insert, keys, lookup, lookup-delete,
  lookup-insert, none, not, refl, some, subst, sym, text_le, text_le-total, text_le_trans, true,
  ◌&&◌, ◌==◌, ◌||◌, ◌∙◌, ◌∷◌, ◌≡◌, ◌⊎◌,
}
use pypipegraph.Shared.{found}

pub data LinkEntry : Type 0 where
  entry_itself : LinkEntry
  link_to : String → LinkEntry

-- files[-1], where there is one
unfoldable pub last_of : List String → Option String
last_of [] = none
last_of (x ∷ []) = some x
last_of (x ∷ y ∷ ys) = last_of (y ∷ ys)

abbrev pub link_last : String → Option String → Dict LinkEntry → Dict LinkEntry
link_last link_name none entries = entries
link_last link_name (some f) entries = insert link_name (link_to f) entries

-- On the entries of a directory.
unfoldable pub link_latest : (matches : String → Bool) → String → Dict LinkEntry → Dict LinkEntry
unfolding last_of sorted glob
link_latest matches link_name entries =
    let rest = delete link_name entries in
    link_last link_name (last_of (sorted (glob matches (keys rest)))) rest

-- _link_logs: the two patterns and the names of their links
unfoldable pub link_logs :
    (messages_log lookup_log_name : String → Bool) → Dict LinkEntry → Dict LinkEntry
unfolding link_latest
link_logs messages_log lookup_log_name entries =
    link_latest lookup_log_name "latest.lookup" (link_latest messages_log "latest.messages" entries)

abbrev IsAscending : List String → Type 0
IsAscending [] = Unit
IsAscending (x ∷ xs) = ((y : String) → contains xs y ≡ true → text_le x y ≡ true) × IsAscending xs

contains-insert_name :
    (x y : String) (l : List String) → contains (insert_name x l) y ≡ (x == y || contains l y)
unfolding contains insert_name
contains-insert_name x y [] = refl
contains-insert_name x y (z ∷ l) = ground (arith, contains-insert_name x y l)

contains-sorted : (l : List String) (y : String) → contains (sorted l) y ≡ contains l y
unfolding contains sorted
contains-sorted [] y = refl
contains-sorted (x ∷ l) y = ground (arith, contains-insert_name x y (sorted l), contains-sorted l y)

text_le_refl : (x : String) → text_le x x ≡ true
text_le_refl x = elim (Bool-cases (text_le x x)) [ inl h ↦ h | inr h ↦ text_le-total x x h ]

insert_name-IsAscending :
    (x : String) (l : List String) → IsAscending l → IsAscending (insert_name x l)
unfolding insert_name contains
insert_name-IsAscending x [] h = (λ y m. absurd (cc m), tt)
insert_name-IsAscending x (z ∷ l) (below, h) = elim (Bool-cases (text_le x z)) [
  | inl first ↦ rw first (first_below first, (below, h))
  | inr later ↦ rw later (
    λ y m. inserted_below later y (sym (contains-insert_name x y l) ∙ m),
    insert_name-IsAscending x l h,
  )
]
  where
    first_below : text_le x z ≡ true → (y : String) → contains (z ∷ l) y ≡ true → text_le x y ≡ true
    first_below first y m = elim (Bool-cases (z == y)) [
      | inl same ↦ subst (λ w. text_le x w ≡ true) ((eq_iff z y).0 same) first
      | inr other ↦ text_le_trans x z y first (below y (ground (arith, m, other)))
    ]

    inserted_below :
        text_le x z ≡ false → (y : String) → (x == y || contains l y) ≡ true → text_le z y ≡ true
    inserted_below later y m = elim (Bool-cases (x == y)) [
      | inl same ↦ subst (λ w. text_le z w ≡ true) ((eq_iff x y).0 same) (text_le-total x z later)
      | inr other ↦ below y (ground (arith, m, other))
    ]

sorted-IsAscending : (l : List String) → IsAscending (sorted l)
unfolding sorted
sorted-IsAscending [] = tt
sorted-IsAscending (x ∷ l) = insert_name-IsAscending x (sorted l) (sorted-IsAscending l)

last_of-greatest :
    (l : List String) (f : String)
    → IsAscending l
    → last_of l ≡ some f
    → (contains l f ≡ true) × ((y : String) → contains l y ≡ true → text_le y f ≡ true)
unfolding last_of contains
last_of-greatest [] f h e = absurd (ground (arith, e))
last_of-greatest (x ∷ []) f h e = (ground (arith, e, eq_refl x), λ y m. only y m)
  where
    only : (y : String) → (x == y || false) ≡ true → text_le y f ≡ true
    only y m =
        subst (λ w. text_le y w ≡ true) (ground (arith, e))
          (subst (λ w. text_le w x ≡ true) ((eq_iff x y).0 (ground (arith, m))) (text_le_refl x))
last_of-greatest (x ∷ z ∷ l) f (below, h) e =
    let (inside, above) = last_of-greatest (z ∷ l) f h e in
    (
      ground (arith, inside),
      λ y m. elim (Bool-cases (x == y)) [
        | inl same ↦ subst (λ w. text_le w f ≡ true) ((eq_iff x y).0 same) (below f inside)
        | inr other ↦ above y (ground (arith, m, other))
      ],
    )

last_of-none : (l : List String) (y : String) → last_of l ≡ none → contains l y ≡ false
unfolding last_of contains
last_of-none [] y e = refl
last_of-none (x ∷ []) y e = absurd (ground (arith, e))
last_of-none (x ∷ z ∷ l) y e = absurd (some_last z l e)
  where
    some_last : (z : String) (l : List String) → last_of (z ∷ l) ≡ none → ⊥
    some_last z [] e = ground (arith, e)
    some_last z (w ∷ l) e = some_last w l e

contains-glob :
    (matches : String → Bool) (names : List String) (x : String)
    → contains (glob matches names) x ≡ (matches x && contains names x)
unfolding contains glob
contains-glob matches [] x = ground arith
contains-glob matches (y ∷ names) x = elim (Bool-cases (y == x)) [
  | inl same ↦
      subst (λ w. contains (glob matches (y ∷ names)) w ≡ (matches w && contains (y ∷ names) w))
        ((eq_iff y x).0 same) (ground (arith, contains-glob matches names y, eq_refl y))
  | inr other ↦ ground (arith, contains-glob matches names x, other)
]

-- After _link_latest every other entry is as it was. The link leads to an entry of the directory that
-- matches the pattern and is not the link itself, and that no such entry comes after in the order of
-- names; there is no link if no such entry is there.
pub latest_is_greatest :
    (matches : String → Bool) (link_name : String) (entries : Dict LinkEntry)
    → ((x : String)
        → (link_name == x) ≡ false
        → lookup x (link_latest matches link_name entries) ≡ lookup x entries)
      × (((lookup link_name (link_latest matches link_name entries) ≡ none)
            × ((x : String) → matches x ≡ true → has_key x entries ≡ true → link_name ≡ x))
          ⊎ ((f : String) × (lookup link_name (link_latest matches link_name entries)
                ≡ some (link_to f))
              × (matches f ≡ true)
              × (has_key f entries ≡ true)
              × ((link_name == f) ≡ false)
              × ((x : String)
                  → matches x ≡ true
                  → has_key x entries ≡ true
                  → (link_name == x) ≡ false
                  → text_le x f ≡ true)))
unfolding link_latest
latest_is_greatest matches link_name entries =
    let rest = delete link_name entries in
    let files = sorted (glob matches (keys rest)) in
    let is_file : (x : String)
        → contains files x ≡ (matches x && (not (link_name == x) && has_key x entries)) =
      λ x.
        contains-sorted (glob matches (keys rest)) x
        ∙ contains-glob matches (keys rest) x
        ∙ ground (arith, contains-keys x rest, lookup-delete link_name x entries) in
    elim (Option-cases (last_of files)) [
      | inr nothing ↦ rw nothing (
        λ x other. lookup-delete link_name x entries ∙ rw other refl,
        inl (
          lookup-delete link_name link_name entries ∙ rw (eq_refl link_name) refl,
          λ x m there.
              (eq_iff link_name x).0
                (ground (arith, is_file x, last_of-none files x nothing, m, there)),
        ),
      )
      | inl (f, found) ↦
          let (inside, above) =
            last_of-greatest files f (sorted-IsAscending (glob matches (keys rest))) found in
          rw found (
            λ x other. ground (
              arith,
              lookup-insert link_name x (link_to f) rest,
              lookup-delete link_name x entries,
              other,
            ),
            inr (
              f,
              lookup-insert link_name link_name (link_to f) rest ∙ rw (eq_refl link_name) refl,
              ground (arith, is_file f, inside),
              ground (arith, is_file f, inside),
              ground (arith, is_file f, inside),
              λ x m there other. above x (ground (arith, is_file x, m, there, other)),
            ),
          )
    ]
