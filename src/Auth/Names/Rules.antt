-- ===== src/Auth/Names/Rules.antt =====
-- The rules of names and patterns without the loops: which bytes, and where '-' and '*' may stand.
use kes.Prelude.{
  ℕ, suc, ◌+◌, ◌-◌, ◌<◌, ◌≡◌, refl, Bool, false, not, ◌&&◌, ◌||◌, [], ◌∷◌, arith, leb, ◌==◌,
  if◌then◌else◌, length, every, Text, codes, text_beq, text_eq,
}
use kes.Auth.Names.{word_char, name_case, pattern_case, every_case, valid_name, valid_pattern}

abbrev pub name_char : ℕ → Bool
name_char r = word_char r || r == b'-'

abbrev pub starts_with : ℕ → Text → Bool
starts_with c [] = false
starts_with c (r ∷ s) = r == c

abbrev pub ends_with : ℕ → Text → Bool
ends_with c [] = false
ends_with c (r ∷ []) = r == c
ends_with c (r ∷ q ∷ s) = ends_with c (q ∷ s)

-- The text without one '*' at its end.
abbrev pub but_star : Text → Text
but_star [] = []
but_star (r ∷ []) = if r == b'*' then [] else r ∷ []
but_star (r ∷ q ∷ s) = r ∷ but_star (q ∷ s)

dash_no_word : word_char b'-' ≡ false
unfolding word_char
dash_no_word = refl

star_no_word : word_char b'*' ≡ false
unfolding word_char
star_no_word = refl

abbrev NameLoop : ℕ → ℕ → Text → Type 0
NameLoop n i t =
    every_case (name_case n) i t
    ≡ (every name_char t && not (i == 0 && starts_with b'-' t) && not (ends_with b'-' t))

NameLoop-last : (n i r : ℕ) → i ≡ n → NameLoop n i (r ∷ [])
unfolding every_case name_case
NameLoop-last n i r h = ground (arith, dash_no_word)

NameLoop-step :
    (n i r q : ℕ) (s : Text) → i < n → NameLoop n (suc i) (q ∷ s) → NameLoop n i (r ∷ q ∷ s)
unfolding every_case name_case
NameLoop-step n i r q s h ih = ground (arith, dash_no_word)

name_loop : (n i r : ℕ) (s : Text) → i + length s ≡ n → NameLoop n i (r ∷ s)
name_loop n i r [] h = NameLoop-last n i r (omega arith)
name_loop n i r (q ∷ s) h =
    NameLoop-step n i r q s (omega arith) (name_loop n (suc i) q s (omega arith))

abbrev PatternLoop : ℕ → ℕ → Text → Type 0
PatternLoop n i t =
    every_case (pattern_case n) i t
    ≡ (every name_char (but_star t) && not (i == 0 && starts_with b'-' t) && not (ends_with b'-' t))

PatternLoop-last : (n i r : ℕ) → i ≡ n → PatternLoop n i (r ∷ [])
unfolding every_case pattern_case
PatternLoop-last n i r h = ground (arith, dash_no_word, star_no_word)

PatternLoop-step :
    (n i r q : ℕ) (s : Text) → i < n → PatternLoop n (suc i) (q ∷ s) → PatternLoop n i (r ∷ q ∷ s)
unfolding every_case pattern_case
PatternLoop-step n i r q s h ih = ground (arith, dash_no_word, star_no_word)

pattern_loop : (n i r : ℕ) (s : Text) → i + length s ≡ n → PatternLoop n i (r ∷ s)
pattern_loop n i r [] h = PatternLoop-last n i r (omega arith)
pattern_loop n i r (q ∷ s) h =
    PatternLoop-step n i r q s (omega arith) (pattern_loop n (suc i) q s (omega arith))

-- A name is valid exactly when it is not empty, not "_", at most 80 bytes long, made of letters,
-- digits, '_' and '-', and neither begins nor ends with '-'.
pub valid_name_lem :
    (s : Text)
    → valid_name s ≡ (
        not (text_beq s [])
        && not (text_beq s (codes "_"))
        && leb (length s) 80
        && every name_char s
        && not (starts_with b'-' s)
        && not (ends_with b'-' s))
unfolding valid_name every_case
valid_name_lem [] = refl
valid_name_lem (r ∷ s) = ground (
  arith,
  name_loop (length s) 0 r s (omega arith),
  let e : suc (length s) - 1 ≡ length s = omega arith in e,
)

-- A pattern is valid exactly when it is "*", or is not "_", at most 80 bytes long, made of letters,
-- digits, '_' and '-' but for one '*' at its end, and neither begins nor ends with '-'. The empty
-- pattern is valid.
pub valid_pattern_lem :
    (s : Text)
    → valid_pattern s ≡ (
        text_beq s (codes "*")
        || (not (text_beq s (codes "_"))
            && leb (length s) 80
            && every name_char (but_star s)
            && not (starts_with b'-' s)
            && not (ends_with b'-' s)))
unfolding valid_pattern every_case
valid_pattern_lem [] = refl
valid_pattern_lem (r ∷ s) = ground (
  arith,
  pattern_loop (length s) 0 r s (omega arith),
  let e : suc (length s) - 1 ≡ length s = omega arith in e,
)
