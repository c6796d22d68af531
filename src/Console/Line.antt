-- ===== src/Console/Line.antt =====
-- interactive.py, ConsoleInteractive.loop: what a typed line asks for. Only the characters from "0" to
-- "z" and spaces can be typed.
use pypipegraph.Prelude.{
  Bool, List, Option, [], false, if◌then◌else◌, leb, nat_eq, none, some, true, ℕ, ◌&&◌, ◌*◌, ◌+◌,
  ◌-◌, ◌∷◌,
}

-- The commands that have a method, and a line that has none.
pub data Command : Type 0 where
  help abort die stop again stop_and_again debug : Command
  -- `_cmd_kill`, with the number, or none where `int(args)` raises
  kill : Option ℕ → Command
  -- `_cmd_default`, which takes no argument, and is found by its name
  named_default : Command
  unknown : Command

-- command[: command.find(" ")]
unfoldable pub command_of : List ℕ → List ℕ
command_of [] = []
command_of (x ∷ xs) = let rest = command_of xs in if nat_eq x 32 then [] else x ∷ rest

-- self.cmd[len(command) + 1 :]
unfoldable pub rest_of : List ℕ → List ℕ
rest_of [] = []
rest_of (x ∷ xs) = let rest = rest_of xs in if nat_eq x 32 then xs else rest

unfoldable pub skip_spaces : List ℕ → List ℕ
skip_spaces [] = []
skip_spaces (x ∷ xs) = let rest = skip_spaces xs in if nat_eq x 32 then rest else x ∷ xs

unfoldable pub reversed : List ℕ → List ℕ → List ℕ
reversed [] ys = ys
reversed (x ∷ xs) ys = reversed xs (x ∷ ys)

-- .strip()
unfoldable pub strip : List ℕ → List ℕ
unfolding skip_spaces reversed
strip xs = reversed (skip_spaces (reversed (skip_spaces xs) [])) []

-- int(args), from what was read: the number, and whether a digit came last. An underscore may stand
-- between two digits.
unfoldable pub read_int : ℕ → Bool → List ℕ → Option ℕ
read_int number digit [] = if digit then some number else none
read_int number digit (x ∷ xs) =
    let more = read_int (number * 10 + (x - 48)) true xs in
    let joined = read_int number false xs in
    if leb 48 x && leb x 57 then more else if nat_eq x 95 && digit then joined else none

unfoldable pub same_codes : List ℕ → List ℕ → Bool
same_codes [] [] = true
same_codes [] (y ∷ ys) = false
same_codes (x ∷ xs) [] = false
same_codes (x ∷ xs) (y ∷ ys) = nat_eq x y && same_codes xs ys

-- hasattr(self, "_cmd_" + command)
unfoldable pub method_of : List ℕ → List ℕ → Command
unfolding same_codes read_int
method_of command args =
    if same_codes command (104 ∷ 101 ∷ 108 ∷ 112 ∷ [])
    then help
    else if same_codes command (97 ∷ 98 ∷ 111 ∷ 114 ∷ 116 ∷ [])
    then abort
    else if same_codes command (100 ∷ 105 ∷ 101 ∷ [])
    then die
    else if same_codes command (115 ∷ 116 ∷ 111 ∷ 112 ∷ [])
    then stop
    else if same_codes command (97 ∷ 103 ∷ 97 ∷ 105 ∷ 110 ∷ [])
    then again
    else if same_codes command
        (115 ∷ 116 ∷ 111 ∷ 112 ∷ 95 ∷ 97 ∷ 110 ∷ 100 ∷ 95 ∷ 97 ∷ 103 ∷ 97 ∷ 105 ∷ 110 ∷ [])
    then stop_and_again
    else if same_codes command (107 ∷ 105 ∷ 108 ∷ 108 ∷ [])
    then kill (read_int 0 false args)
    else if same_codes command (100 ∷ 101 ∷ 98 ∷ 117 ∷ 103 ∷ [])
    then debug
    else if same_codes command (100 ∷ 101 ∷ 102 ∷ 97 ∷ 117 ∷ 108 ∷ 116 ∷ [])
    then named_default
    else unknown

unfoldable pub parse_line : List ℕ → Command
unfolding command_of rest_of strip method_of
parse_line line = method_of (command_of line) (strip (rest_of line))
