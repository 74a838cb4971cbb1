-- ===== src/Conf/Texts.antt =====
-- What kesconf uses of Go's packages strings and strconv, and of the arithmetic of int, on texts of
-- bytes in UTF-8.
use kes.Prelude.{
  ℕ, zero, suc, ◌+◌, ◌-◌, ◌*◌, ◌%◌, ◌^◌, Bool, true, false, not, ◌&&◌, Option, none, some, List, [],
  ◌∷◌, ◌++◌, map, ltb, leb, ◌==◌, if◌then◌else◌, ℤ, pos, negsuc, length, drop, Text, has_prefix,
}
use mathlib.Core.List.{reverse}

-- Letters that are not ASCII stay as they are, but for the one letter whose capital is ASCII and in
-- the name of a level: ı, which is 0xc4 0xb1. No test of kesconf tells the others apart.
abbrev pub upper : ℕ → ℕ
upper c = if leb 97 c && leb c 122 then c - 32 else c

unfoldable pub to_upper : Text → Text
to_upper [] = []
to_upper (c ∷ []) = upper c ∷ []
to_upper (c ∷ d ∷ s) =
    let rest = to_upper (d ∷ s) in
    if c == 0xc4 && d == 0xb1 then b'I' ∷ drop 1 rest else upper c ∷ rest

-- No letter outside ASCII becomes one of "on" or "off".
abbrev pub lower : ℕ → ℕ
lower c = if leb 65 c && leb c 90 then c + 32 else c

abbrev pub to_lower : Text → Text
to_lower = map lower

-- Unicode's white space.
abbrev pub white_space : List Text
white_space =
    map (λ (c : ℕ). c ∷ []) (9 ∷ 10 ∷ 11 ∷ 12 ∷ 13 ∷ 32 ∷ [])
    ++ map (λ (c : ℕ). 0xc2 ∷ c ∷ []) (0x85 ∷ 0xa0 ∷ [])
    ++ (0xe1 ∷ 0x9a ∷ 0x80 ∷ [])
      ∷ (0xe2 ∷ 0x81 ∷ 0x9f ∷ [])
      ∷ (0xe3 ∷ 0x80 ∷ 0x80 ∷ [])
      ∷ map (λ (c : ℕ). 0xe2 ∷ 0x80 ∷ c ∷ [])
          (0x80 ∷ 0x81 ∷ 0x82 ∷ 0x83 ∷ 0x84 ∷ 0x85 ∷ 0x86 ∷ 0x87 ∷ 0x88 ∷ 0x89 ∷ 0x8a ∷ 0xa8 ∷ 0xa9
            ∷ 0xaf ∷ [])

-- The length of the first of the texts that `s` starts with.
abbrev starts_with : List Text → Text → Option ℕ
starts_with [] s = none
starts_with (p ∷ ps) s =
    let rest = starts_with ps s in if has_prefix p s then some (length p) else rest

unfoldable pub trim_left : List Text → ℕ → Text → Text
trim_left spaces zero s = s
trim_left spaces (suc fuel) s = elim (starts_with spaces s) [
  | none ↦ s
  | some n ↦ trim_left spaces fuel (drop n s)
]

-- strings.TrimSpace; the text is shorter after each cut, so its length is fuel enough.
unfoldable pub trim_space : Text → Text
trim_space s =
    let left = trim_left white_space (length s) s in
    reverse (trim_left (map reverse white_space) (length left) (reverse left))

-- strings.HasSuffix(s, suffix), with the suffix first.
abbrev pub has_suffix : Text → Text → Bool
has_suffix suffix s = has_prefix (reverse suffix) (reverse s)

-- strings.Cut at one byte.
abbrev pub cut : ℕ → Text → Option (Text × Text)
cut c [] = none
cut c (d ∷ s) = elim (d == c) [
  | true ↦ some ([], s)
  | false ↦ elim (cut c s) [ none ↦ none | some (before, after) ↦ some (d ∷ before, after) ]
]

-- The errors of strconv.Atoi.
pub data NumError : Type 0 where
  invalid_syntax out_of_range : NumError

pub data Parsed {ℓ} (A : Type ℓ) : Type ℓ where
  wrong : NumError → Parsed A
  number : A → Parsed A

-- The digits of a uint64, after a value of the digits before them.
abbrev pub parse_digits : Text → ℕ → Parsed ℕ
parse_digits [] n = number n
parse_digits (c ∷ s) n =
    let m = n * 10 + (c - 48) in
    let rest = parse_digits s m in
    if not (leb 48 c && leb c 57)
    then wrong invalid_syntax
    else if leb (2 ^ 64) m
    then wrong out_of_range
    else rest

abbrev pub parse_uint : Text → Parsed ℕ
parse_uint [] = wrong invalid_syntax
parse_uint (c ∷ s) = parse_digits (c ∷ s) 0

abbrev pub non_negative : Parsed ℕ → Parsed ℤ
non_negative (wrong e) = wrong e
non_negative (number n) = if ltb n (2 ^ 63) then number (pos n) else wrong out_of_range

abbrev pub minus : ℕ → ℤ
minus zero = pos 0
minus (suc n) = negsuc n

abbrev pub negative : Parsed ℕ → Parsed ℤ
negative (wrong e) = wrong e
negative (number n) = if leb n (2 ^ 63) then number (minus n) else wrong out_of_range

-- strconv.Atoi
unfoldable pub atoi : Text → Parsed ℤ
atoi [] = wrong invalid_syntax
atoi (c ∷ s) =
    if c == b'-'
    then negative (parse_uint s)
    else if c == b'+'
    then non_negative (parse_uint s)
    else non_negative (parse_uint (c ∷ s))

-- The sum of two ints, which have 64 bits.
abbrev pub bits : ℤ → ℕ
bits (pos n) = n % 2 ^ 64
bits (negsuc n) = 2 ^ 64 - 1 - n % 2 ^ 64

abbrev pub signed : ℕ → ℤ
signed n = if ltb n (2 ^ 63) then pos n else negsuc (2 ^ 64 - 1 - n)

abbrev pub add_int : ℤ → ℤ → ℤ
add_int x y = signed ((bits x + bits y) % 2 ^ 64)
