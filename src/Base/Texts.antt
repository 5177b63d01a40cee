-- ===== src/Base/Texts.antt =====
-- Text as a list of code points, with the string operations that the program uses.
use Prim.Native.Nat.{ℕ, suc, ◌+◌}
use Prim.Native.Char.{code}
use Prim.Native.String.{String}
use mathlib.Core.Path.{◌≡◌, refl, ap}
use mathlib.Core.Logic.{◌↔◌}
use mathlib.Core.Bool.{Bool, true, false, ◌&&◌, ◌||◌}
use mathlib.Core.List.{List, [], ◌∷◌, map}
use native.Mathlib.Omega.{arith}
use sysnode_backend.Base.Tests.{leb, ◌==◌, if◌then◌else◌}
use sysnode_backend.Base.Lists.{length, all}

abbrev pub Text : Type 0
Text = List ℕ

abbrev pub codes : String → Text
codes String.[] = []
codes (String.◌∷◌ c s) = code c ∷ codes s

-- `a === b` of two strings.
abbrev pub same_text : Text → Text → Bool
same_text [] [] = true
same_text (a ∷ s) (b ∷ t) = a == b && same_text s t
same_text _ _ = false

pub same_text_iff : (s t : Text) → (same_text s t ≡ true) ↔ (s ≡ t)
same_text_iff [] [] = ground arith
same_text_iff [] (b ∷ t) = ground arith
same_text_iff (a ∷ s) [] = ground arith
same_text_iff (a ∷ s) (b ∷ t) = ground (arith, same_text_iff s t)

pub same_text_refl : (s : Text) → same_text s s ≡ true
same_text_refl s = (same_text_iff s s).1 refl

-- `/\d/`, `/[0-9a-f]/` and `/[0-9a-f]/i`
abbrev pub is_digit : ℕ → Bool
is_digit c = leb b'0' c && leb c b'9'

abbrev pub is_lower_hex : ℕ → Bool
is_lower_hex c = is_digit c || (leb b'a' c && leb c b'f')

abbrev pub is_hex : ℕ → Bool
is_hex c = is_lower_hex c || (leb b'A' c && leb c b'F')

-- `/^[0-9a-f]{64}$/i`
unfoldable pub is_hex64 : Text → Bool
is_hex64 s = length s == 64 && all is_hex s

-- `/^[0-9a-f]{64}$/`
unfoldable pub is_lower_hex64 : Text → Bool
is_lower_hex64 s = length s == 64 && all is_lower_hex s

-- `toLowerCase`, on the ASCII letters.
abbrev pub lower_char : ℕ → ℕ
lower_char c = if leb b'A' c && leb c b'Z' then c + 32 else c

unfoldable pub to_lower_case : Text → Text
to_lower_case s = map lower_char s

all-lower_hex : (s : Text) → all is_hex s ≡ true → all is_lower_hex (map lower_char s) ≡ true
all-lower_hex [] h = refl
all-lower_hex (c ∷ s) h = ground (arith, all-lower_hex s)

length-map-lower : (s : Text) → length (map lower_char s) ≡ length s
length-map-lower [] = refl
length-map-lower (c ∷ s) = ap suc (length-map-lower s)

-- Lower-casing a hash gives a lower-case hash.
pub is_lower_hex64-to_lower_case :
    (s : Text) → is_hex64 s ≡ true → is_lower_hex64 (to_lower_case s) ≡ true
unfolding is_hex64 is_lower_hex64 to_lower_case
is_lower_hex64-to_lower_case s h = ground (arith, all-lower_hex s, length-map-lower s)

lower_of_all_lower : (s : Text) → all is_lower_hex s ≡ true → map lower_char s ≡ s
lower_of_all_lower [] h = refl
lower_of_all_lower (c ∷ s) h = ground (arith, lower_of_all_lower s)

all-is_hex_of_lower : (s : Text) → all is_lower_hex s ≡ true → all is_hex s ≡ true
all-is_hex_of_lower [] h = refl
all-is_hex_of_lower (c ∷ s) h = ground (arith, all-is_hex_of_lower s)

pub is_hex64_of_lower : (s : Text) → is_lower_hex64 s ≡ true → is_hex64 s ≡ true
unfolding is_hex64 is_lower_hex64
is_hex64_of_lower s h = ground (arith, all-is_hex_of_lower s)

pub to_lower_case_of_lower : (s : Text) → is_lower_hex64 s ≡ true → to_lower_case s ≡ s
unfolding is_lower_hex64 to_lower_case
to_lower_case_of_lower s h = ground (arith, lower_of_all_lower s)

-- `s.startsWith(t)` and `s.includes(t)`
pub has_prefix : Text → Text → Bool
has_prefix t [] = elim t [ [] ↦ true | _ ∷ _ ↦ false ]
has_prefix t (c ∷ s) = elim t [ [] ↦ true | d ∷ r ↦ d == c && has_prefix r s ]

unfoldable pub includes : Text → Text → Bool
unfolding has_prefix
includes [] t = has_prefix t []
includes (c ∷ s) t = has_prefix t (c ∷ s) || includes s t

-- White space as `trim` strips it.
unfoldable pub is_space : ℕ → Bool
is_space c =
    (leb 9 c && leb c 13)
    || c == 32
    || c == 160
    || c == 0x1680
    || (leb 0x2000 c && leb c 0x200a)
    || c == 0x2028
    || c == 0x2029
    || c == 0x202f
    || c == 0x205f
    || c == 0x3000
    || c == 0xfeff

unfoldable pub trim_start : Text → Text
unfolding is_space
trim_start [] = []
trim_start (c ∷ s) = let rest = trim_start s in if is_space c then rest else c ∷ s

unfoldable pub trim_end : Text → Text
unfolding is_space
trim_end [] = []
trim_end (c ∷ s) = let rest = trim_end s in if is_space c && length rest == 0 then [] else c ∷ rest

unfoldable pub trim : Text → Text
unfolding trim_start trim_end
trim s = trim_start (trim_end s)
