-- ===== src/Samples/Ends.antt =====
-- The end of a run with one job pruned and one that ran, and names of objects.
use pypipegraph.Enums.{JobOutcome, pruned, skipped, success, upstream_failed}
use pypipegraph.Exec.{raise, return}
use pypipegraph.Outcomes.{job_outcomes_at_end, outcomes_at_end, record_all, skip_rest}
use pypipegraph.Prelude.{
  Dict, [], contains, has_key, if◌then◌else◌, insert, lookup, none, refl, some, ◌∷◌, ◌≡◌,
}
use pypipegraph.Unique.{
  assert_uniqueness_of_object, duplicate_object, in_any, make_all, name_stays_taken,
}

abbrev ran : Dict JobOutcome
ran = ("a", success) ∷ []

abbrev at_end : Dict JobOutcome
at_end = ("a", success) ∷ ("b", pruned) ∷ ("c", skipped) ∷ []

recorded_at_end : job_outcomes_at_end ("b" ∷ []) [] ("a" ∷ "b" ∷ "c" ∷ []) ran ≡ some at_end
unfolding job_outcomes_at_end record_all skip_rest insert lookup
recorded_at_end = refl

outcomes_at_end_example : lookup "c" at_end ≡ (
    if contains [] "c"
    then some upstream_failed
    else if contains ("b" ∷ []) "c"
    then some pruned
    else if has_key "c" ran
    then lookup "c" ran
    else if contains ("a" ∷ "b" ∷ "c" ∷ []) "c"
    then some skipped
    else none)
outcomes_at_end_example =
    outcomes_at_end ("b" ∷ []) [] ("a" ∷ "b" ∷ "c" ∷ []) ran at_end "c" recorded_at_end

first_genome : (assert_uniqueness_of_object "Genome" "human" [] []).0 ≡ return 0
unfolding assert_uniqueness_of_object in_any lookup contains
first_genome = refl

name_stays_taken_example :
    (assert_uniqueness_of_object "Genome" "human" ("Genes" ∷ []) (
      make_all
        (("Genome", "mouse", "Genes" ∷ []) ∷ [])
        (assert_uniqueness_of_object "Genome" "human" [] []).1)).0
    ≡ raise duplicate_object
name_stays_taken_example =
    name_stays_taken "Genome" "human" [] ("Genes" ∷ []) (("Genome", "mouse", "Genes" ∷ []) ∷ []) []
      0 first_genome
