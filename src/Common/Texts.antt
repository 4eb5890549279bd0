-- ===== src/Common/Texts.antt =====
-- Text as a JavaScript string is: a list of UTF-16 code units.
use Prim.Native.Nat.{ℕ}
use Prim.Native.Char.{code}
use Prim.Native.String.{String}
use mathlib.Core.Path.{◌≡◌, refl}
use mathlib.Core.Logic.{◌↔◌}
use mathlib.Core.Bool.{Bool, true, false, ◌&&◌, ◌||◌}
use mathlib.Core.List.{List, [], ◌∷◌, reverse}
use native.Mathlib.Omega.{arith}
use kratos_harness.Common.Tests.{◌==◌, Eq, nat_eq, leb}

abbrev pub Text : Type 0
Text = List ℕ

-- A literal of ASCII characters.
abbrev pub codes : String → Text
codes String.[] = []
codes (String.◌∷◌ c s) = code c ∷ codes s

unfoldable pub text_beq : Text → Text → Bool
text_beq [] [] = true
text_beq (c ∷ s) (d ∷ t) = c == d && text_beq s t
text_beq _ _ = false

pub text_beq_iff : (s t : Text) → (text_beq s t ≡ true) ↔ (s ≡ t)
unfolding text_beq
text_beq_iff [] [] = ground arith
text_beq_iff [] (d ∷ t) = ground arith
text_beq_iff (c ∷ s) [] = ground arith
text_beq_iff (c ∷ s) (d ∷ t) = ground (arith, text_beq_iff s t)

instance abbrev pub text_eq : Eq Text
text_eq = record { is_same = text_beq; is_same_iff = text_beq_iff }

-- The form in which the tactics take the law of `==` on texts.
pub text_iff : (s t : Text) → ((s == t) ≡ true) ↔ (s ≡ t)
text_iff = text_beq_iff

pub text_refl : (s : Text) → (s == s) ≡ true
text_refl s = (text_beq_iff s s).1 refl

-- `xs.includes(s)`
abbrev pub includes : List Text → Text → Bool
includes [] s = false
includes (x ∷ xs) s = x == s || includes xs s

abbrev pub is_lower : ℕ → Bool
is_lower c = leb b'a' c && leb c b'z'

abbrev pub is_upper : ℕ → Bool
is_upper c = leb b'A' c && leb c b'Z'

abbrev pub is_digit : ℕ → Bool
is_digit c = leb b'0' c && leb c b'9'

abbrev pub is_alphanumeric : ℕ → Bool
is_alphanumeric c = is_lower c || is_upper c || is_digit c

-- `xs.startsWith(p)`
abbrev pub starts_with : Text → Text → Bool
starts_with s [] = true
starts_with [] (d ∷ p) = false
starts_with (c ∷ s) (d ∷ p) = c == d && starts_with s p

-- The white space and line terminators that `trim` removes.
abbrev pub is_white_space : ℕ → Bool
is_white_space c =
    (leb 9 c && leb c 13)
    || c == 32
    || c == 160
    || c == 5760
    || (leb 8192 c && leb c 8202)
    || c == 8232
    || c == 8233
    || c == 8239
    || c == 8287
    || c == 12288
    || c == 65279

-- `s.trimStart()`
unfoldable pub trim_start : Text → Text
trim_start [] = []
trim_start (c ∷ s) = elim (is_white_space c) [ true ↦ trim_start s | false ↦ c ∷ s ]

-- `s.trim()`
unfoldable pub trim : Text → Text
unfolding trim_start
trim s = reverse (trim_start (reverse (trim_start s)))

-- An ASCII control character: a code of at most 0x1f, or 0x7f.
abbrev pub is_control : ℕ → Bool
is_control c = leb c 31 || c == 127

-- `s.split(c)` for a separator of one character
unfoldable pub split : ℕ → Text → List Text
split c [] = [] ∷ []
split c (d ∷ s) = elim (split c s) [
  | [] ↦ [] ∷ []
  | part ∷ parts ↦ elim (d == c) [ true ↦ [] ∷ part ∷ parts | false ↦ (d ∷ part) ∷ parts ]
]
