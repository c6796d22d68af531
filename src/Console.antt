-- ===== src/Console.antt =====
-- interactive.py: the line that is typed at the console of a run, and what its commands do to the
-- runner; runner.py, Runner.abort and Runner.stop. A key is a character's code.
pub mod Line
pub mod Stopping
pub mod Killing
use pypipegraph.Console.Line.{
  Command, abort, again, debug, die, help, kill, named_default, parse_line, reversed, stop,
  stop_and_again, unknown,
}
use pypipegraph.Enums.{Resources, is_external}
use pypipegraph.Prelude.{
  Bool, Dict, List, Option, String, [], false, if◌then◌else◌, is_empty, keys, leb, nat_eq, none,
  not, some, true, ℕ, ◌&&◌, ◌+◌, ◌||◌, ◌∷◌,
}

-- A job as the commands see it.
pub record ConsoleJob : Type 0 where
  pub job_number : ℕ
  pub resources : Resources
  pub in_flight : Bool

-- What the commands change on the runner.
pub record Effects : Type 0 where
  -- how often `runner.stop` and `runner.abort` were called
  pub stops : ℕ
  pub aborts : ℕ
  pub restart_afterwards : Bool
  -- `kill_if_running`, by job_id, the last first
  pub killed : List String

pub record Console : Type 0 where
  -- the characters of self._cmd, the last first
  pub cmd : List ℕ
  pub stopped : Bool
  pub effects : Effects

pub data KeyEnd : Type 0 where
  -- sys.exit(1) of `die`, which no handler here catches
  left_process : KeyEnd
  goes_on : KeyEnd

unfoldable pub is_printable : ℕ → Bool
is_printable value = leb 48 value && leb value 122 || nat_eq value 32

-- for job in self.runner.jobs.values(): if job.job_number == job_no: break
unfoldable pub find_number : ℕ → Dict ConsoleJob → Option (String × ConsoleJob)
find_number job_no [] = none
find_number job_no ((job_id, j) ∷ jobs) =
    let rest = find_number job_no jobs in
    if nat_eq j.job_number job_no then some (job_id, j) else rest

-- The job that `kill` kills, if any.
unfoldable pub kill_target : Option ℕ → Dict ConsoleJob → Option String
unfolding find_number is_external
kill_target none jobs = none
kill_target (some job_no) jobs = elim (find_number job_no jobs) [
  | none ↦ none
  | some (job_id, j) ↦
      if not j.in_flight then none else if not (is_external j.resources) then none else some job_id
]

unfoldable pub cmd_kill : Option ℕ → Dict ConsoleJob → Console → Console
unfolding kill_target
cmd_kill job_no jobs c = elim (kill_target job_no jobs) [
  | none ↦ c
  | some job_id ↦ record c { effects = record c.effects { killed = job_id ∷ c.effects.killed } }
]

unfoldable pub cmd_stop : Console → Console
cmd_stop c =
    if not c.stopped
    then record c { stopped = true; effects = record c.effects { stops = c.effects.stops + 1 } }
    else c

unfoldable pub cmd_abort : Console → Console
cmd_abort c = record c {
  stopped = true;
  effects = record c.effects { aborts = c.effects.aborts + 1 };
}

unfoldable pub cmd_again : Console → Console
cmd_again c = record c { effects = record c.effects { restart_afterwards = true } }

-- One line: the call, and the TypeError of `default` with an argument, which is caught.
unfoldable pub perform_command : Dict ConsoleJob → Command → Console → KeyEnd × Console
unfolding cmd_kill cmd_stop cmd_abort cmd_again
perform_command jobs help c = (goes_on, c)
perform_command jobs abort c = (goes_on, cmd_abort c)
perform_command jobs die c = (left_process, c)
perform_command jobs stop c = (goes_on, cmd_stop c)
perform_command jobs again c = (goes_on, cmd_again c)
perform_command jobs stop_and_again c = (goes_on, cmd_again (cmd_stop c))
perform_command jobs debug c = (goes_on, c)
perform_command jobs (kill job_no) c = (goes_on, cmd_kill job_no jobs c)
perform_command jobs named_default c = (goes_on, record c { cmd = [] })
perform_command jobs unknown c = (goes_on, c)

abbrev pub drop_last_typed : List ℕ → List ℕ
drop_last_typed [] = []
drop_last_typed (x ∷ xs) = xs

-- A key: ctrl-c, ctrl-z (which leaves the line), a character, backspace, return, any other.
unfoldable pub press : Dict ConsoleJob → ℕ → Console → KeyEnd × Console
unfolding is_printable reversed parse_line perform_command
press jobs value c =
    if nat_eq value 3
    then (goes_on, record c { cmd = [] })
    else if nat_eq value 26
    then (goes_on, c)
    else if is_printable value
    then (goes_on, record c { cmd = value ∷ c.cmd })
    else if nat_eq value 127
    then (goes_on, record c { cmd = drop_last_typed c.cmd })
    else if nat_eq value 10 || nat_eq value 13
    then if is_empty c.cmd
      then (goes_on, c)
      else perform_command jobs (parse_line (reversed c.cmd [])) (record c { cmd = [] })
    else (goes_on, c)

-- Keys one after the other, each with the jobs at that time.
unfoldable pub press_all : List (ℕ × Dict ConsoleJob) → Console → Console
unfolding press
press_all [] c = c
press_all ((value, jobs) ∷ keys) c =
    let (end, c') = press jobs value c in
    let rest = press_all keys c' in elim end [ left_process ↦ c' | goes_on ↦ rest ]

abbrev pub start_console : Console
start_console = record {
  cmd = [];
  stopped = false;
  effects = record { stops = 0; aborts = 0; restart_afterwards = false; killed = [] };
}
