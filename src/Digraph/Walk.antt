-- ===== src/Digraph/Walk.antt =====
-- Unguarded depth-first recursion over a graph's successors or predecessors, as runner.py writes
-- it: every visit of a node visits all its neighbours again, with no set of nodes seen.
use pypipegraph.Prelude.{
  Bool, List, Option, String, [], arith, contains, contains-append_cases, contains-append_left,
  contains-append_right, contains-cons_cases, contains_here, contains_singleton, contains_there,
  inl, inr, none, refl, some, subst, suc, sym, true, zero, ℕ, ◌++◌, ◌<◌, ◌∙◌, ◌∷◌, ◌≡◌,
}

-- for x in xs: body(x), where the body may raise
unfoldable pub for_each {ℓ} : {S : Type ℓ} → (String → S → Option S) → List String → S → Option S
for_each body [] s = some s
for_each body (x ∷ xs) s = elim (body x s) [ none ↦ none | some s' ↦ for_each body xs s' ]

abbrev pub Neighbours : Type 0
Neighbours = String → Option (List String)

-- `none` is an exception: the fuel stands for Python's recursion limit, and a neighbour lookup
-- may raise.
unfoldable pub visit_from {ℓ} :
    {S : Type ℓ} → (String → S → S) → Neighbours → ℕ → String → S → Option S
visit_from visit neighbours zero u s = none
visit_from visit neighbours (suc fuel) u s = elim (neighbours u) [
  | none ↦ none
  | some vs ↦ for_each (visit_from visit neighbours fuel) vs (visit u s)
]

-- The neighbours are those that a Boolean relation on nodes says, for every node.
pub record Follows (neighbours : Neighbours) (node : String → Bool) (edge : String → String → Bool)
    : Type 0 where
  pub found :
      (u : String)
      → node u ≡ true
      → (vs : List String) × (neighbours u ≡ some vs) × ((v : String) → contains vs v ≡ edge u v)
  pub closed : (u v : String) → edge u v ≡ true → node v ≡ true

-- A walk along the edges, of any length.
pub data Leads (edge : String → String → Bool) : String → String → Type 0 where
  arrived : {u : String} → Leads edge u u
  along : {u v w : String} → edge u v ≡ true → Leads edge v w → Leads edge u w

pub Leads-trans :
    {edge : String → String → Bool} {u v w : String}
    → Leads edge u v
    → Leads edge v w
    → Leads edge u w
Leads-trans arrived q = q
Leads-trans (along e p) q = along e (Leads-trans p q)

-- `v` is one of `us` or is led to from one of them.
abbrev pub LeadsFrom : (String → String → Bool) → List String → String → Type 0
LeadsFrom edge us v = (u : String) × (contains us u ≡ true) × Leads edge u v

-- All visits in the order made.
unfoldable pub apply_all {ℓ} : {S : Type ℓ} → (String → S → S) → List String → S → S
apply_all visit [] s = s
apply_all visit (x ∷ xs) s = apply_all visit xs (visit x s)

apply_all-append {ℓ} :
    {S : Type ℓ} (visit : String → S → S) (xs ys : List String) (s : S)
    → apply_all visit (xs ++ ys) s ≡ apply_all visit ys (apply_all visit xs s)
unfolding apply_all
apply_all-append visit [] ys s = refl
apply_all-append visit (x ∷ xs) ys s = apply_all-append visit xs ys (visit x s)

-- What a recursion below some node or nodes did: it visited exactly the nodes led to.
pub record Visited {ℓ} {S : Type ℓ} (edge : String → String → Bool) (visit : String → S → S)
    (us : List String) (s : S) (result : Option S) : Type ℓ where
  pub trail : List String
  pub result_lem : result ≡ some (apply_all visit trail s)
  pub sound : (v : String) → contains trail v ≡ true → LeadsFrom edge us v
  pub complete : (v : String) → LeadsFrom edge us v → contains trail v ≡ true

module _ {ℓ} {S : Type ℓ} {edge : String → String → Bool} {visit : String → S → S} where
  Visited-nil : (s : S) → Visited edge visit [] s (some s)
  unfolding apply_all contains
  Visited-nil s = record {
    trail = [];
    result_lem = refl;
    sound = λ v h. cc;
    complete = λ v (u, m, l). cc;
  }

  Visited-append :
      (u : String) (us : List String) (s : S) (first : Option S) (rest : S → Option S)
      → Visited edge visit (u ∷ []) s first
      → ((s' : S) → Visited edge visit us s' (rest s'))
      → Visited edge visit (u ∷ us) s (elim first [ none ↦ none | some s' ↦ rest s' ])
  Visited-append u us s first rest one others =
      let s' = apply_all visit one.trail s in
      let two = others s' in
      record {
        trail = one.trail ++ two.trail;
        result_lem =
            ground
              (arith, one.result_lem, two.result_lem, apply_all-append visit one.trail two.trail s);
        sound = λ v h. elim (contains-append_cases one.trail two.trail v h) [
          | inl in_one ↦
              let (w, m, l) = one.sound v in_one in
              (
                u,
                contains_here u us,
                subst (λ x. Leads edge x v) (sym (contains_singleton u w m)) l,
              )
          | inr in_two ↦ let (w, m, l) = two.sound v in_two in (w, contains_there u w us m, l)
        ];
        complete = λ v (w, m, l). elim (contains-cons_cases u w us m) [
          | inl e ↦
              contains-append_left one.trail two.trail v
                (one.complete v (u, contains_here u [], subst (λ x. Leads edge x v) (sym e) l))
          | inr m' ↦ contains-append_right one.trail two.trail v (two.complete v (w, m', l))
        ];
      }

  -- A loop whose body visits what each item leads to.
  pub for_each-Visited :
      (body : String → S → Option S) (us : List String)
      → ((u : String) (s : S) → contains us u ≡ true → Visited edge visit (u ∷ []) s (body u s))
      → (s : S) → Visited edge visit us s (for_each body us s)
  unfolding for_each
  for_each-Visited body [] step s = Visited-nil s
  for_each-Visited body (u ∷ us) step s =
      Visited-append u us s (body u s) (for_each body us) (step u s (contains_here u us))
        (for_each-Visited body us (λ w t m. step w t (contains_there u w us m)))

  -- One node before all that its neighbours lead to.
  Visited-cons :
      (u : String) (vs : List String) (s : S) (result : Option S)
      → ((v : String) → contains vs v ≡ edge u v)
      → Visited edge visit vs (visit u s) result
      → Visited edge visit (u ∷ []) s result
  unfolding apply_all
  Visited-cons u vs s result edges below = record {
    trail = u ∷ below.trail;
    result_lem = below.result_lem;
    sound = λ v h. elim (contains-cons_cases u v below.trail h) [
      | inl e ↦ (u, contains_here u [], subst (Leads edge u) e arrived)
      | inr m ↦
          let (w, n, l) = below.sound v m in (u, contains_here u [], along (sym (edges w) ∙ n) l)
    ];
    complete = λ v (w, m, l). from w v (contains_singleton u w m) l;
  }
    where
      from_u : (v : String) → Leads edge u v → contains (u ∷ below.trail) v ≡ true
      from_u v arrived = contains_here u below.trail
      from_u v (along {v = w} e l) =
          contains_there u v below.trail (below.complete v (w, edges w ∙ e, l))

      from : (w v : String) → u ≡ w → Leads edge w v → contains (u ∷ below.trail) v ≡ true
      from w v e l = from_u v (subst (λ x. Leads edge x v) (sym e) l)

  -- With a measure that falls along every edge, fuel above it is enough: the recursion returns,
  -- and it visited exactly what `u` leads to.
  pub visit_from-Visited :
      {neighbours : Neighbours} {node : String → Bool}
      → Follows neighbours node edge
      → (measure : String → ℕ) → ((u v : String) → edge u v ≡ true → measure v < measure u)
      → (fuel : ℕ) (u : String) (s : S) → node u ≡ true
      → measure u < fuel
      → Visited edge visit (u ∷ []) s (visit_from visit neighbours fuel u s)
  unfolding visit_from
  visit_from-Visited follows measure falls zero u s is_node enough = absurd (omega arith)
  visit_from-Visited {neighbours} follows measure falls (suc fuel) u s is_node enough =
      let (vs, e, edges) = follows.found u is_node in
      rw (e, visit_from)
        (Visited-cons u vs s (for_each (visit_from visit neighbours fuel) vs (visit u s)) edges (
          for_each-Visited (visit_from visit neighbours fuel) vs
            (λ v t m.
              let uv = sym (edges v) ∙ m in
              visit_from-Visited follows measure falls fuel v t (follows.closed u v uv)
                (omega (arith, falls u v uv)))
            (visit u s)))
