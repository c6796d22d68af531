-- ===== src/Console/Stopping.antt =====
-- How often the console stops the runner.
-- Nothing reached the runner while the console is not stopped.
use pypipegraph.Console.{
  Console, ConsoleJob, KeyEnd, cmd_abort, cmd_again, cmd_kill, cmd_stop, drop_last_typed, goes_on,
  is_printable, kill_target, left_process, perform_command, press, press_all, start_console,
}
use pypipegraph.Console.Line.{
  Command, abort, again, debug, die, help, kill, named_default, parse_line, reversed, stop,
  stop_and_again, unknown,
}
use pypipegraph.Prelude.{
  Bool, Bool-cases, Dict, List, Option, String, [], arith, false, if◌then◌else◌, inl, inr, is_empty,
  nat_eq, none, refl, some, subst, sym, true, ℕ, ◌+◌, ◌||◌, ◌∷◌, ◌≡◌, ◌≤◌, ◌⊎◌,
}

record IsOnce (c : Console) : Type 0 where
  once : c.effects.stops ≤ 1
  first : c.stopped ≡ false → c.effects.stops ≡ 0

cmd_stop-IsOnce : (c : Console) → IsOnce c → IsOnce (cmd_stop c)
unfolding cmd_stop
cmd_stop-IsOnce c h =
    subst IsOnce (sym (stop_now (Bool-cases c.stopped))) (by_case (Bool-cases c.stopped))
  where
    next_console : (c.stopped ≡ true) ⊎ (c.stopped ≡ false) → Console
    next_console (inl on) = c
    next_console (inr off) = record c {
      stopped = true;
      effects = record c.effects { stops = c.effects.stops + 1 };
    }

    stop_now : (d : (c.stopped ≡ true) ⊎ (c.stopped ≡ false)) → cmd_stop c ≡ next_console d
    stop_now (inl on) = ground arith
    stop_now (inr off) = ground arith

    by_case : (d : (c.stopped ≡ true) ⊎ (c.stopped ≡ false)) → IsOnce (next_console d)
    by_case (inl on) = h
    by_case (inr off) = record {
      once = ground (arith, h.first off);
      first = λ e. absurd (ground arith);
    }

cmd_kill-IsOnce :
    (job_no : Option ℕ) (jobs : Dict ConsoleJob) (c : Console)
    → IsOnce c
    → IsOnce (cmd_kill job_no jobs c)
unfolding cmd_kill
cmd_kill-IsOnce job_no jobs c h = split (kill_target job_no jobs)
  where
    split :
        (o : Option String)
        → IsOnce (elim o [
          | none ↦ c
          | some job_id ↦ record c {
            effects = record c.effects { killed = job_id ∷ c.effects.killed };
          }
        ])
    split none = h
    split (some job_id) = record { once = h.once; first = h.first }

perform_command-IsOnce :
    (jobs : Dict ConsoleJob) (k : Command) (c : Console)
    → IsOnce c
    → IsOnce (perform_command jobs k c).1
unfolding perform_command cmd_abort cmd_again
perform_command-IsOnce jobs help c h = h
perform_command-IsOnce jobs abort c h = record { once = h.once; first = λ e. absurd (ground arith) }
perform_command-IsOnce jobs die c h = h
perform_command-IsOnce jobs stop c h = cmd_stop-IsOnce c h
perform_command-IsOnce jobs again c h = record { once = h.once; first = h.first }
perform_command-IsOnce jobs stop_and_again c h =
    let h' = cmd_stop-IsOnce c h in record { once = h'.once; first = h'.first }
perform_command-IsOnce jobs debug c h = h
perform_command-IsOnce jobs (kill job_no) c h = cmd_kill-IsOnce job_no jobs c h
perform_command-IsOnce jobs named_default c h = record { once = h.once; first = h.first }
perform_command-IsOnce jobs unknown c h = h

-- A line that changed, and nothing else.
typed-IsOnce : (line : List ℕ) (c : Console) → IsOnce c → IsOnce (record c { cmd = line })
typed-IsOnce line c h = record { once = h.once; first = h.first }

if-IsOnce :
    (b : Bool) (x y : KeyEnd × Console) → IsOnce x.1 → IsOnce y.1 → IsOnce (if b then x else y).1
if-IsOnce true x y h k = h
if-IsOnce false x y h k = k

press-IsOnce :
    (jobs : Dict ConsoleJob) (value : ℕ) (c : Console) → IsOnce c → IsOnce (press jobs value c).1
unfolding press
press-IsOnce jobs value c h = if-IsOnce (nat_eq value 3) _ _ (typed-IsOnce [] c h) (
    if-IsOnce (nat_eq value 26) _ _ h (
      if-IsOnce (is_printable value) _ _ (typed-IsOnce (value ∷ c.cmd) c h) (
        if-IsOnce (nat_eq value 127) _ _ (typed-IsOnce (drop_last_typed c.cmd) c h) (
          if-IsOnce (nat_eq value 10 || nat_eq value 13) _ _
            (if-IsOnce (is_empty c.cmd) _ _ h (
              perform_command-IsOnce jobs (parse_line (reversed c.cmd [])) (record c { cmd = [] })
                (typed-IsOnce [] c h)))
            h))))

press_all-IsOnce :
    (keys : List (ℕ × Dict ConsoleJob)) (c : Console) → IsOnce c → IsOnce (press_all keys c)
unfolding press_all
press_all-IsOnce [] c h = h
press_all-IsOnce ((value, jobs) ∷ rest) c h =
    split (press jobs value c) (press-IsOnce jobs value c h) (λ c'. press_all-IsOnce rest c')
  where
    split :
        (r : KeyEnd × Console)
        → IsOnce r.1
        → ((c' : Console) → IsOnce c' → IsOnce (press_all rest c'))
        → IsOnce (elim r.0 [ left_process ↦ r.1 | goes_on ↦ press_all rest r.1 ])
    split (left_process, c') h' later = h'
    split (goes_on, c') h' later = later c' h'

-- Whatever is typed, and whatever the jobs do meanwhile, the console calls `stop` of the runner at
-- most once.
pub stopped_once :
    (typed : List (ℕ × Dict ConsoleJob)) → (press_all typed start_console).effects.stops ≤ 1
stopped_once typed =
    (press_all-IsOnce typed start_console (record { once = omega arith; first = λ e. refl })).once
