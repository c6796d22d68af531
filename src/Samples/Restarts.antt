-- ===== src/Samples/Restarts.antt =====
-- A new graph with four cores, and another one with the arguments reused.
use pypipegraph.Globals.{
  Argument, Globals, Graphs, Value, chosen, default_arguments, given, is_trace_level, new,
  new_arguments, number, reuse_all, reuse_last_or_default,
}
use pypipegraph.Globals.Again.{new-new}
use pypipegraph.Prelude.{
  Dict, String, [], false, if◌then◌else◌, insert, lookup, none, refl, some, ◌==◌, ◌≡◌,
}

abbrev plain_graphs : Graphs (Dict Value)
plain_graphs = record { py_pipe_graph = λ arguments. some arguments; add_graph_comp = λ g. g }

abbrev at_import : Globals (Dict Value)
at_import = record {
  last_new_arguments = [];
  do_jobtrace_log = false;
  global_pipegraph = none;
  ppg1_compatibility_mode = false;
}

abbrev four_cores : String → Argument
four_cores name = if name == "cores" then given (number 4) else reuse_last_or_default

-- The graph has been dropped in between.
abbrev after_first : Globals (Dict Value)
after_first = record (new plain_graphs four_cores at_import).1 { global_pipegraph = none }

four_cores_remembered :
    lookup "cores" (new_arguments default_arguments four_cores []).1 ≡ some (number 4)
unfolding new_arguments chosen lookup insert
four_cores_remembered = refl

still_there :
    after_first.last_new_arguments ≡ (new plain_graphs four_cores at_import).1.last_new_arguments
still_there = refl

same_mode : after_first.ppg1_compatibility_mode ≡ at_import.ppg1_compatibility_mode
unfolding new is_trace_level lookup new_arguments chosen insert
same_mode = refl

new-new_example :
    ((new plain_graphs reuse_all after_first).0 ≡ (new plain_graphs four_cores at_import).0)
    × ((new plain_graphs reuse_all after_first).1.last_new_arguments
        ≡ after_first.last_new_arguments)
new-new_example = new-new plain_graphs four_cores at_import after_first still_there same_mode
