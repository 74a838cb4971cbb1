-- ===== src/Auth/Names.antt =====
-- validName and validPattern of auth.go, over the bytes of the string. The source ranges over
-- runes: up to the first byte outside ASCII those are the bytes, and there both ways reject.
pub mod Rules
use kes.Prelude.{
  ℕ, suc, ◌-◌, Bool, true, false, ◌&&◌, ◌||◌, [], ◌∷◌, arith, ltb, leb, ◌==◌, if◌then◌else◌, length,
  Text, text_beq, text_eq,
}

-- r >= '0' && r <= '9', and the other two ranges, and '_'
unfoldable pub word_char : ℕ → Bool
word_char r =
    (leb b'0' r && leb r b'9')
    || (leb b'A' r && leb r b'Z')
    || (leb b'a' r && leb r b'z')
    || r == b'_'

-- The switch of validName at the byte `r` with index `i`; `n` is the last index.
unfoldable pub name_case : ℕ → ℕ → ℕ → Bool
name_case n i r = word_char r || (r == b'-' && ltb 0 i && ltb i n)

-- The switch of validPattern.
unfoldable pub pattern_case : ℕ → ℕ → ℕ → Bool
pattern_case n i r = word_char r || (r == b'-' && ltb 0 i && ltb i n) || (r == b'*' && i == n)

-- for i, r := range s { switch { ...; default: return false } }
unfoldable pub every_case : (ℕ → ℕ → Bool) → ℕ → Text → Bool
every_case ok_at i [] = true
every_case ok_at i (r ∷ s) = ok_at i r && every_case ok_at (suc i) s

abbrev pub max_length : ℕ
max_length = 80

unfoldable pub valid_name : Text → Bool
valid_name s =
    if text_beq s [] || text_beq s (b'_' ∷ []) || ltb max_length (length s)
    then false
    else every_case (name_case (length s - 1)) 0 s

unfoldable pub valid_pattern : Text → Bool
valid_pattern s =
    if text_beq s (b'*' ∷ [])
    then true
    else if text_beq s (b'_' ∷ []) || ltb max_length (length s)
    then false
    else every_case (pattern_case (length s - 1)) 0 s
