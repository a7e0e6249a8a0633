-- ===== src/Coordination/Patterns.antt =====
-- The identity patterns of internal/coordination/store.go.
use geoflow_updater.Prelude.{String, Bool, false, ◌&&◌, ◌||◌, [], ◌∷◌, length, all, leb, ◌==◌}
use geoflow_updater.Prelude.Regex.{codes, is_digit, is_lower, is_upper, is_hex, Class, matches, one}

is_word : Class
unfolding is_digit is_lower is_upper
is_word c = is_upper c || is_lower c || is_digit c

is_word_mark : Class
unfolding is_word
is_word_mark c = is_word c || c == b'.' || c == b'_' || c == b'-'

-- `identifier`: a letter or digit, then 7 to 127 characters of a wider class.
unfoldable pub identifier : String → Bool
unfolding is_word_mark
identifier s = elim (codes s) [
  | [] ↦ false
  | c ∷ rest ↦ is_word c && leb 7 (length rest) && leb (length rest) 127 && all is_word_mark rest
]

unfoldable pub hex32 : String → Bool
unfolding is_hex matches
hex32 s = matches ((32, is_hex) ∷ []) (codes s)

unfoldable pub hex64 : String → Bool
unfolding is_hex matches
hex64 s = matches ((64, is_hex) ∷ []) (codes s)

unfoldable pub uuid : String → Bool
unfolding is_hex matches
uuid s =
    matches
      ((8, is_hex)
        ∷ one b'-'
        ∷ (4, is_hex)
        ∷ one b'-'
        ∷ (4, is_hex)
        ∷ one b'-'
        ∷ (4, is_hex)
        ∷ one b'-'
        ∷ (12, is_hex)
        ∷ [])
      (codes s)

unfoldable pub op_id : String → Bool
unfolding is_digit is_hex matches
op_id s =
    matches
      ((8, is_digit)
        ∷ one b'T'
        ∷ (6, is_digit)
        ∷ one b'.'
        ∷ (9, is_digit)
        ∷ one b'Z'
        ∷ one b'-'
        ∷ (16, is_hex)
        ∷ [])
      (codes s)

unfoldable pub point_id : String → Bool
unfolding is_digit is_hex matches
point_id s =
    matches ((8, is_digit) ∷ one b'T' ∷ (6, is_digit) ∷ one b'Z' ∷ one b'-' ∷ (8, is_hex) ∷ [])
      (codes s)
