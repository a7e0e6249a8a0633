-- ===== src/Prelude/Decimal.antt =====
-- `strconv.ParseUint` in base 10 and `strings.TrimSpace`, on the code points of a text.
use Prim.Native.Nat.{ℕ, ◌+◌, ◌-◌, ◌*◌, ◌^◌}
use mathlib.Core.Bool.{Bool, ◌||◌, ◌&&◌}
use mathlib.Core.Option.{Option, none, some}
use mathlib.Core.List.{List, [], ◌∷◌, reverse}
use geoflow_updater.Prelude.Tests.{ltb, leb, ◌==◌, if◌then◌else◌}
use geoflow_updater.Prelude.Regex.{is_digit}

-- `unicode.IsSpace`.
is_space : ℕ → Bool
is_space c =
    (leb 9 c && leb c 13)
    || c == 32
    || c == 0x85
    || c == 0xa0
    || c == 0x1680
    || (leb 0x2000 c && leb c 0x200a)
    || c == 0x2028
    || c == 0x2029
    || c == 0x202f
    || c == 0x205f
    || c == 0x3000

skip_spaces : List ℕ → List ℕ
unfolding is_space
skip_spaces [] = []
skip_spaces (c ∷ s) = if is_space c then skip_spaces s else c ∷ s

unfoldable pub trim_space : List ℕ → List ℕ
unfolding skip_spaces
trim_space s = reverse (skip_spaces (reverse (skip_spaces s)))

-- The digits of a text that is only digits, with the value of those already read.
digits_value : ℕ → List ℕ → Option ℕ
unfolding is_digit
digits_value n [] = some n
digits_value n (c ∷ s) =
    let rest = digits_value (n * 10 + (c - b'0')) s in if is_digit c then rest else none

within_word : Option ℕ → Option ℕ
within_word none = none
within_word (some n) = if ltb n (2 ^ 64) then some n else none

-- A 64-bit number, or none where Go returns an error.
unfoldable pub parse_uint : List ℕ → Option ℕ
unfolding digits_value within_word
parse_uint [] = none
parse_uint (c ∷ s) = within_word (digits_value 0 (c ∷ s))
