-- ===== src/Prelude/Text.antt =====
-- Go's `error` as an optional message, and what `fmt.Errorf` and `errors.Join` make of messages.
use Prim.Native.String.{String, ◌++◌}
use mathlib.Core.Path.{◌≡◌, refl}
use native.Mathlib.Omega.{arith}
use mathlib.Core.List.{List, [], ◌∷◌}
use mathlib.Core.Option.{Option, none, some}

-- The pieces of a formatted message, one after the other.
abbrev pub concat : List String → String
concat [] = ""
concat (s ∷ rest) = s ++ concat rest

-- A `nil` error is `none`; any other is known by its message.
abbrev pub Error : Type 0
Error = Option String

-- The message of `errors.Join(a, e)` where `a` is not nil.
unfoldable pub joined : String → Error → String
joined a none = a
joined a (some b) = concat (a ∷ "\n" ∷ b ∷ [])

-- `errors.Join`: nil errors are dropped, the messages of the others stand on lines of their own.
unfoldable pub join : Error → Error → Error
join none e = e
join (some a) e = some (joined a e)

-- A joined error is nil only where all its parts are.
pub join-eq-none : (a b : Error) → join a b ≡ none → (a ≡ none) × (b ≡ none)
unfolding join
join-eq-none none none h = (refl, refl)
join-eq-none none (some b) h = absurd (ground arith)
join-eq-none (some a) b h = absurd (ground arith)
