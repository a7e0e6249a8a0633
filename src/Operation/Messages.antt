-- ===== src/Operation/Messages.antt =====
-- `boundedOperationMessage` of internal/operation/manager.go. A text is a list of code points, each
-- of which has an encoding, so that `ToValidUTF8` leaves it as it is.
use Prim.Native.Char.{Char, code}
use geoflow_updater.Prelude.{ℕ, ◌+◌, ◌-◌, ◌≤◌, ◌<◌, ◌⊎◌, ◌≡◌, String, leb, ltb, if◌then◌else◌}

-- The bytes of the UTF-8 encoding of a code point.
abbrev pub encoded_bytes : ℕ → ℕ
encoded_bytes c = if ltb c 128 then 1 else if ltb c 2048 then 2 else if ltb c 65536 then 3 else 4

unfoldable pub byte_length : String → ℕ
byte_length String.[] = 0
byte_length (String.◌∷◌ c s) = encoded_bytes (code c) + byte_length s

-- The whole code points within the first bytes of a text.
unfoldable pub cut : ℕ → String → String
cut room String.[] = String.[]
cut room (String.◌∷◌ c s) =
    let rest = cut (room - encoded_bytes (code c)) s in
    if leb (encoded_bytes (code c)) room then String.◌∷◌ c rest else String.[]

abbrev pub maximum_bytes : ℕ
maximum_bytes = 4096

unfoldable pub bounded_operation_message : String → String
unfolding byte_length cut
bounded_operation_message s = if leb (byte_length s) maximum_bytes then s else cut maximum_bytes s

-- One text and then another.
unfoldable pub followed : String → String → String
followed String.[] t = t
followed (String.◌∷◌ c s) t = String.◌∷◌ c (followed s t)

-- What is left of a text within a room.
abbrev pub IsCut : ℕ → String → String → Type 0
IsCut room s t =
    (rest : String) × (followed t rest ≡ s)
    × (byte_length t ≤ room)
    × ((rest ≡ "") ⊎ (room < byte_length t + 4))
