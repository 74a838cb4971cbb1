-- ===== src/Prelude/Strings.antt =====
-- Go strings as lists of bytes, with their equality, prefixes and byte-wise order.
use Prim.Native.Nat.{ℕ}
use Prim.Native.Char.{code}
use Prim.Native.String.{String}
use mathlib.Core.Path.{◌≡◌, refl}
use mathlib.Core.Logic.{◌↔◌}
use mathlib.Core.Bool.{Bool, true, false, ◌&&◌}
use mathlib.Core.List.{List, [], ◌∷◌}
use native.Mathlib.Omega.{arith}
use kes.Prelude.Tests.{ltb, ◌==◌, if◌then◌else◌, Eq}

abbrev pub Text : Type 0
Text = List ℕ

-- The bytes of an ASCII literal.
abbrev pub codes : String → Text
codes String.[] = []
codes (String.◌∷◌ c s) = code c ∷ codes s

abbrev pub text_beq : Text → Text → Bool
text_beq [] [] = true
text_beq [] (b ∷ y) = false
text_beq (a ∷ x) [] = false
text_beq (a ∷ x) (b ∷ y) = a == b && text_beq x y

text_beq_refl : (x : Text) → text_beq x x ≡ true
text_beq_refl [] = refl
text_beq_refl (a ∷ x) = ground (arith, text_beq_refl x)

text_beq_sound : (x y : Text) → text_beq x y ≡ true → x ≡ y
text_beq_sound [] [] h = refl
text_beq_sound [] (b ∷ y) h = cc
text_beq_sound (a ∷ x) [] h = cc
text_beq_sound (a ∷ x) (b ∷ y) h = ground (arith, text_beq_sound x y)

text_beq_complete : (x y : Text) → x ≡ y → text_beq x y ≡ true
text_beq_complete x y e = rw e (text_beq_refl y)

pub text_beq_iff : (x y : Text) → (text_beq x y ≡ true) ↔ (x ≡ y)
text_beq_iff x y = (text_beq_sound x y, text_beq_complete x y)

instance abbrev pub text_eq : Eq Text
text_eq = record { beq = text_beq; beq_iff = text_beq_iff }

-- strings.HasPrefix(s, prefix), with the prefix first.
abbrev pub has_prefix : Text → Text → Bool
has_prefix [] s = true
has_prefix (a ∷ p) [] = false
has_prefix (a ∷ p) (b ∷ s) = a == b && has_prefix p s

-- The order of Go's `<=` on strings.
abbrev pub text_leb : Text → Text → Bool
text_leb [] y = true
text_leb (a ∷ x) [] = false
text_leb (a ∷ x) (b ∷ y) = let rest = text_leb x y in if ltb a b then true else a == b && rest

pub text_leb_refl : (x : Text) → text_leb x x ≡ true
text_leb_refl [] = refl
text_leb_refl (a ∷ x) = ground (arith, text_leb_refl x)

pub text_leb-total : (x y : Text) → text_leb x y ≡ false → text_leb y x ≡ true
text_leb-total [] y h = cc
text_leb-total (a ∷ x) [] h = refl
text_leb-total (a ∷ x) (b ∷ y) h = ground (arith, text_leb-total x y)

pub text_leb_trans :
    (x y z : Text) → text_leb x y ≡ true → text_leb y z ≡ true → text_leb x z ≡ true
text_leb_trans [] y z h k = refl
text_leb_trans (a ∷ x) [] z h k = cc
text_leb_trans (a ∷ x) (b ∷ y) [] h k = cc
text_leb_trans (a ∷ x) (b ∷ y) (c ∷ z) h k = ground (arith, text_leb_trans x y z)

pub text_leb_antisymm : (x y : Text) → text_leb x y ≡ true → text_leb y x ≡ true → x ≡ y
text_leb_antisymm [] [] h k = refl
text_leb_antisymm [] (b ∷ y) h k = cc
text_leb_antisymm (a ∷ x) [] h k = cc
text_leb_antisymm (a ∷ x) (b ∷ y) h k = ground (arith, text_leb_antisymm x y)

-- What lies between two texts with a prefix has the prefix.
pub has_prefix-between :
    (p x y z : Text)
    → has_prefix p x ≡ true
    → has_prefix p z ≡ true
    → text_leb x y ≡ true
    → text_leb y z ≡ true
    → has_prefix p y ≡ true
has_prefix-between [] x y z hx hz xy yz = refl
has_prefix-between (a ∷ p) [] y z hx hz xy yz = cc
has_prefix-between (a ∷ p) (b ∷ x) [] z hx hz xy yz = cc
has_prefix-between (a ∷ p) (b ∷ x) (c ∷ y) [] hx hz xy yz = cc
has_prefix-between (a ∷ p) (b ∷ x) (c ∷ y) (d ∷ z) hx hz xy yz =
    ground (arith, has_prefix-between p x y z)
