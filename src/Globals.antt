-- ===== src/Globals.antt =====
-- python/pypipegraph2/__init__.py: the arguments that `new` remembers, and the global pipegraph.
-- The constructor PyPipeGraph(**arguments) and `_add_graph_comp` are the record `Graphs`.
pub mod Again
use pypipegraph.Enums.{RunMode, console}
use pypipegraph.Exec.{Exec, raise, return}
use pypipegraph.Prelude.{
  Bool, Dict, Option, String, [], false, if◌then◌else◌, insert, is_some, leb, lookup, none, some,
  true, ℕ, ◌∷◌,
}

-- What the arguments of `new` may be: a number, a Boolean, the class ALL_CORES, a DirConfig by
-- its root, a RunMode, None.
pub data Value : Type 0 where
  number : ℕ → Value
  flag : Bool → Value
  all_cores_class no_value : Value
  dir_config : String → Value
  mode : RunMode → Value

pub data Argument : Type 0 where
  given : Value → Argument
  default reuse_last_or_default : Argument

pub data NewError : Type 0 where
  -- the comparison of `log_level` with 6
  type_error : NewError
  -- what the constructor raises
  graph_refused : NewError

-- the default of each parameter of `new`
abbrev pub reuse_all : String → Argument
reuse_all name = reuse_last_or_default

unfoldable pub chosen : String → Argument → Value → Dict Value → Value
chosen name (given v) default_value last = v
chosen name default default_value last = default_value
chosen name reuse_last_or_default default_value last = elim (lookup name last) [
  | none ↦ default_value
  | some v ↦ v
]

-- _last_or_default, with the dict _last_new_arguments that it writes
abbrev pub last_or_default : String → Argument → Value → Dict Value → Value × Dict Value
last_or_default name value default_value last =
    let result = chosen name value default_value last in (result, insert name result last)

-- the dict `arguments` for these names with their defaults
unfoldable pub new_arguments :
    Dict Value → (String → Argument) → Dict Value → Dict Value × Dict Value
new_arguments [] locs last = ([], last)
new_arguments ((name, default_arg) ∷ rest) locs last =
    let (v, last') = last_or_default name (locs name) default_arg last in
    let (arguments, last'') = new_arguments rest locs last' in ((name, v) ∷ arguments, last'')

abbrev pub default_arguments : Dict Value
default_arguments =
    ("cores", all_cores_class)
    ∷ ("dir_config", dir_config ".ppg")
    ∷ ("log_level", number 20)
    ∷ ("allow_short_filenames", flag false)
    ∷ ("run_mode", mode console)
    ∷ ("log_retention", number 3)
    ∷ ("prevent_absolute_paths", flag true)
    ∷ ("report_done_filter", number 1)
    ∷ []

-- arguments["log_level"] <= 6, where True and False are numbers; `none` is the TypeError
unfoldable pub is_trace_level : Option Value → Option Bool
is_trace_level (some (number n)) = some (leb n 6)
is_trace_level (some (flag b)) = some true
is_trace_level _ = none

module _ (Graph : Type 0) where
  pub record Graphs : Type 0 where
    -- `none` where it raises
    pub py_pipe_graph : Dict Value → Option Graph
    pub add_graph_comp : Graph → Graph

  pub record Globals : Type 0 where
    pub last_new_arguments : Dict Value
    pub do_jobtrace_log : Bool
    pub global_pipegraph : Option Graph
    pub ppg1_compatibility_mode : Bool

module _ {Graph : Type 0} where
  abbrev pub install : Graphs Graph → Option Graph → Exec (Globals Graph) NewError Graph
  install O none s = (raise graph_refused, s)
  install O (some made) s =
      let g = if s.ppg1_compatibility_mode then O.add_graph_comp made else made in
      (return g, record s { global_pipegraph = some g })

  abbrev pub start_logging :
      Graphs Graph → Dict Value → Option Bool → Exec (Globals Graph) NewError Graph
  start_logging O arguments none s = (raise type_error, s)
  start_logging O arguments (some trace) s =
      install O (O.py_pipe_graph arguments) (record s { do_jobtrace_log = trace })

  unfoldable pub new : Graphs Graph → (String → Argument) → Exec (Globals Graph) NewError Graph
  new O locs s =
      let (arguments, last) = new_arguments default_arguments locs s.last_new_arguments in
      start_logging O arguments (is_trace_level (lookup "log_level" arguments))
        (record s { last_new_arguments = last })

  abbrev pub inside_ppg : Globals Graph → Bool
  inside_ppg s = is_some s.global_pipegraph

  -- `with _with_changed_global_pipegraph(new):` around what `body` does
  unfoldable pub with_changed_global_pipegraph :
      {E A : Type 0} → Option Graph → Exec (Globals Graph) E A → Exec (Globals Graph) E A
  with_changed_global_pipegraph changed body s =
      let (r, t) = body (record s { global_pipegraph = changed }) in
      (r, record t { global_pipegraph = s.global_pipegraph })
