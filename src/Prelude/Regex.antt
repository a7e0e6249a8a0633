-- ===== src/Prelude/Regex.antt =====
-- The regular expressions of the program, as tests on the code points of a text. They are anchored
-- at both ends; `$` without flags matches only at the end of the text.
use Prim.Native.Nat.{ℕ, zero, suc}
use Prim.Native.Char.{code}
use Prim.Native.String.{String}
use mathlib.Core.Bool.{Bool, true, false, ◌&&◌, ◌||◌}
use mathlib.Core.List.{List, [], ◌∷◌}
use geoflow_updater.Prelude.Tests.{leb, ◌==◌, if◌then◌else◌}

-- The code points of a text.
abbrev pub codes : String → List ℕ
codes String.[] = []
codes (String.◌∷◌ c s) = code c ∷ codes s

-- [0-9], [a-z], [A-Z], [a-f0-9].
unfoldable pub is_digit : ℕ → Bool
is_digit c = leb b'0' c && leb c b'9'

unfoldable pub is_lower : ℕ → Bool
is_lower c = leb b'a' c && leb c b'z'

unfoldable pub is_upper : ℕ → Bool
is_upper c = leb b'A' c && leb c b'Z'

unfoldable pub is_hex : ℕ → Bool
unfolding is_digit
is_hex c = is_digit c || (leb b'a' c && leb c b'f')

-- A pattern is a list of parts: a fixed number of characters of one class.
abbrev pub Class : Type 0
Class = ℕ → Bool

abbrev take_class : ℕ → Class → List ℕ → (List ℕ → Bool) → Bool
take_class zero p s k = k s
take_class (suc n) p [] k = false
take_class (suc n) p (c ∷ s) k = p c && take_class n p s k

abbrev at_end : List ℕ → Bool
at_end [] = true
at_end (_ ∷ _) = false

unfoldable pub matches : List (ℕ × Class) → List ℕ → Bool
matches [] s = at_end s
matches ((n, p) ∷ parts) s = take_class n p s (matches parts)

-- One character.
abbrev pub one : ℕ → ℕ × Class
one c = (1, λ x. x == c)

-- A pattern that ends in any text that passes a test.
unfoldable pub matches_then : (List ℕ → Bool) → List (ℕ × Class) → List ℕ → Bool
matches_then rest [] s = rest s
matches_then rest ((n, p) ∷ parts) s = take_class n p s (matches_then rest parts)

-- One or more characters of a class, and then what no further character of the class can start.
abbrev longest : Class → (List ℕ → Bool) → List ℕ → Bool
longest p rest [] = rest []
longest p rest (c ∷ s) = let more = longest p rest s in if p c then more else rest (c ∷ s)

abbrev pub some_of : Class → (List ℕ → Bool) → List ℕ → Bool
some_of p rest [] = false
some_of p rest (c ∷ s) = p c && longest p rest s

-- A text that the pattern begins with.
abbrev pub literal : List ℕ → (List ℕ → Bool) → List ℕ → Bool
literal [] rest s = rest s
literal (c ∷ cs) rest [] = false
literal (c ∷ cs) rest (x ∷ s) = x == c && literal cs rest s
