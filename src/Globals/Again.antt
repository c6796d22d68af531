-- ===== src/Globals/Again.antt =====
-- python/pypipegraph2/__init__.py, new: a call that reuses all arguments of the call before.
use pypipegraph.Exec.{Result}
use pypipegraph.Globals.{
  Argument, Globals, Graphs, NewError, Value, chosen, default_arguments, install, is_trace_level,
  new, new_arguments, reuse_all, reuse_last_or_default, start_logging,
}
use pypipegraph.Prelude.{
  AreDistinct, Bool, Bool-cases, Dict, Option, String, [], ap, arith, contains, eq_iff, false, inl,
  inr, insert, keys, lookup, lookup-insert, none, refl, some, true, ◌==◌, ◌∙◌, ◌∷◌, ◌≡◌,
}

insert_same : (k : String) (v : Value) (d : Dict Value) → lookup k d ≡ some v → insert k v d ≡ d
unfolding lookup insert
insert_same k v [] h = absurd (ground arith)
insert_same k v ((j, w) ∷ d) h = elim (Bool-cases (j == k)) [
  | inl same ↦ ground (arith, h, same)
  | inr other ↦ rw other (ap (λ e. (j, w) ∷ e) (insert_same k v d (ground (arith, h, other))))
]

-- A name that is not asked for is remembered as before.
other_names :
    (defaults : Dict Value) (locs : String → Argument) (last : Dict Value) (x : String)
    → contains (keys defaults) x ≡ false
    → lookup x (new_arguments defaults locs last).1 ≡ lookup x last
unfolding new_arguments keys contains
other_names [] locs last x h = refl
other_names ((name, d) ∷ rest) locs last x h =
    let v = chosen name (locs name) d last in
    other_names rest locs (insert name v last) x (ground (arith, h))
    ∙ ground (arith, h, lookup-insert name x v last, eq_iff name x, eq_iff x name)

chosen_remembered :
    (name : String) (d v : Value) (later : Dict Value)
    → lookup name later ≡ some v
    → chosen name reuse_last_or_default d later ≡ v
unfolding chosen
chosen_remembered name d v later h = rw (h, chosen) refl

-- What one name adds to the arguments of the names after it.
abbrev next : String → Value → Dict Value × Dict Value → Dict Value × Dict Value
next name c p = ((name, c) ∷ p.0, p.1)

-- With a dict that remembers what the first call remembered, everything is chosen again.
chosen_again :
    (defaults : Dict Value) (locs : String → Argument) (last later : Dict Value)
    → AreDistinct (keys defaults)
    → ((x : String)
        → contains (keys defaults) x ≡ true
        → lookup x later ≡ lookup x (new_arguments defaults locs last).1)
    → new_arguments defaults reuse_all later ≡ ((new_arguments defaults locs last).0, later)
unfolding new_arguments keys contains chosen
chosen_again [] locs last later distinct same = refl
chosen_again ((name, d) ∷ rest) locs last later (unique, distinct) same =
    let v = chosen name (locs name) d last in
    let remembered : lookup name later ≡ some v =
      same name (ground (arith, eq_iff name name))
      ∙ other_names rest locs (insert name v last) name unique
      ∙ ground (arith, lookup-insert name name v last, eq_iff name name) in
    ap (λ c. next name c (new_arguments rest reuse_all (insert name c later)))
      (chosen_remembered name d v later remembered)
    ∙ ap (λ e. next name v (new_arguments rest reuse_all e)) (insert_same name v later remembered)
    ∙ ap (next name v) (
        chosen_again rest locs (insert name v last) later distinct
          (λ x known. same x (ground (arith, known))))

defaults-AreDistinct : AreDistinct (keys default_arguments)
unfolding keys contains
defaults-AreDistinct = (refl, (refl, (refl, (refl, (refl, (refl, (refl, (refl, tt))))))))

module _ {Graph : Type 0} where
  -- What `new` ends with, and what it remembers, read off the arguments that it has chosen.
  start_logging-ends :
      (O : Graphs Graph) (arguments : Dict Value) (trace : Option Bool) (s u : Globals Graph)
      → u.ppg1_compatibility_mode ≡ s.ppg1_compatibility_mode
      → ((start_logging O arguments trace u).0 ≡ (start_logging O arguments trace s).0)
        × ((start_logging O arguments trace u).1.last_new_arguments ≡ u.last_new_arguments)
  start_logging-ends O arguments none s u h = (refl, refl)
  start_logging-ends O arguments (some b) s u h = install-ends (O.py_pipe_graph arguments)
    where
      install-ends :
          (made : Option Graph)
          → ((install O made (record u { do_jobtrace_log = b })).0
              ≡ (install O made (record s { do_jobtrace_log = b })).0)
            × ((install O made (record u { do_jobtrace_log = b })).1.last_new_arguments
                ≡ u.last_new_arguments)
      install-ends none = (refl, refl)
      install-ends (some g) = (rw h refl, refl)

  -- A call of `new` that reuses all arguments, where `_last_new_arguments` is what an earlier
  -- call has left there, whether that call returned or raised, and ppg1 is replaced or not as it
  -- was then, ends as the earlier call did: it makes the same graph or raises the same exception;
  -- and it leaves `_last_new_arguments` as it is.
  pub new-new :
      (O : Graphs Graph) (locs : String → Argument) (s u : Globals Graph)
      → u.last_new_arguments ≡ (new O locs s).1.last_new_arguments
      → u.ppg1_compatibility_mode ≡ s.ppg1_compatibility_mode
      → ((new O reuse_all u).0 ≡ (new O locs s).0)
        × ((new O reuse_all u).1.last_new_arguments ≡ u.last_new_arguments)
  unfolding new
  new-new O locs s u remembers same_mode =
      let before = new_arguments default_arguments locs s.last_new_arguments in
      let run : (p : Dict Value × Dict Value) (t : Globals Graph)
          → Result NewError Graph × Globals Graph =
        λ p t.
          start_logging O p.0 (is_trace_level (lookup "log_level" p.0))
            (record t { last_new_arguments = p.1 }) in
      let kept =
        (start_logging-ends O before.0 (is_trace_level (lookup "log_level" before.0)) s
          (record s { last_new_arguments = before.1 }) refl).1 in
      let again =
        chosen_again default_arguments locs s.last_new_arguments u.last_new_arguments
          defaults-AreDistinct (λ x known. ap (lookup x) (remembers ∙ kept)) in
      let (same_end, same_last) =
        start_logging-ends O before.0 (is_trace_level (lookup "log_level" before.0))
          (record s { last_new_arguments = before.1 })
          (record u { last_new_arguments = u.last_new_arguments }) same_mode in
      (
        ap (λ p. (run p u).0) again ∙ same_end,
        ap (λ p. (run p u).1.last_new_arguments) again ∙ same_last,
      )
