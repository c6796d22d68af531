-- ===== src/Prelude/Texts.antt =====
-- Texts: their order, and Python's concatenation and slices (by bytes, for the ASCII names here).
use Prim.Native.Nat.{ℕ, Ordering}
use Prim.Native.String.{String, compare, len, slice, ◌++◌}
use mathlib.Core.Bool.{Bool, true, false}

-- s <= t
abbrev pub text_le : String → String → Bool
text_le s t = elim (compare s t) [ Ordering.gt ↦ false | _ ↦ true ]

-- s + t
abbrev pub concat : String → String → String
concat s t = s ++ t

-- len(s)
abbrev pub text_length : String → ℕ
text_length s = len s

-- s[a:b]
abbrev pub substring : String → ℕ → ℕ → String
substring s a b = slice s a b
