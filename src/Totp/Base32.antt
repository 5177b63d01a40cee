-- ===== src/Totp/Base32.antt =====
-- lib/totp.js: `base32Encode` and `base32Decode`. The accumulators are 32-bit words; what a shift
-- pushes out at the top is lost.
pub mod Groups
use mathlib.Core.Option
use sysnode_backend.Base.{
  ◌≡◌, refl, codes, ℕ, zero, suc, ◌+◌, ◌-◌, ◌*◌, ◌/◌, ◌%◌, ◌^◌, Bool, true, false, ◌&&◌, Option,
  none, some, List, [], ◌∷◌, ◌++◌, ◌==◌, leb, ltb, if◌then◌else◌, Text, length, map,
}

-- `BASE32_ALPHABET[i]`
abbrev pub letter : ℕ → ℕ
letter i = if ltb i 26 then b'A' + i else b'2' + (i - 26)

-- `BASE32_ALPHABET.indexOf(c)`; `none` is -1.
abbrev pub index_of : ℕ → Option ℕ
index_of c =
    if leb b'A' c && leb c b'Z'
    then some (c - b'A')
    else if leb b'2' c && leb c b'7'
    then some (c - b'2' + 26)
    else none

abbrev pub word : ℕ
word = 2 ^ 32

-- `BASE32_ALPHABET[(value >>> k) & 31]`
abbrev pub group : ℕ → ℕ → ℕ
group value k = letter (value / 2 ^ k % 32)

-- `while (bits >= 5)`: the letters and the bits that are left. Each round takes five bits, so `bits`
-- rounds are enough.
unfoldable pub emit : ℕ → ℕ → ℕ → Text × ℕ
emit zero value bits = ([], bits)
emit (suc fuel) value bits =
    let rest = emit fuel value (bits - 5) in
    if leb 5 bits then (group value (bits - 5) ∷ rest.0, rest.1) else ([], bits)

-- `if (bits > 0)` after the loop.
unfoldable pub last_group : ℕ → ℕ → Text
last_group value bits = if ltb 0 bits then group (value * 2 ^ (5 - bits) % word) 0 ∷ [] else []

unfoldable pub encode_from : List ℕ → ℕ → ℕ → Text
unfolding emit last_group
encode_from [] value bits = last_group value bits
encode_from (byte ∷ bytes) value bits =
    let next : ℕ = (value * 256 + byte) % word in
    let groups = emit (bits + 8) next (bits + 8) in groups.0 ++ encode_from bytes next groups.1

unfoldable pub base32_encode : List ℕ → Text
unfolding encode_from
base32_encode bytes = encode_from bytes 0 0

-- One letter of the input: the byte that is complete, if any, and the bits that are left.
unfoldable pub take_group : ℕ → ℕ → List ℕ × ℕ
take_group acc bits = if leb 8 bits then (acc / 2 ^ (bits - 8) % 256 ∷ [], bits - 8) else ([], bits)

-- `none` is `invalid_secret`.
unfoldable pub decode_from : Text → ℕ → ℕ → Option (List ℕ)
unfolding take_group
decode_from [] acc bits = some []
decode_from (c ∷ s) acc bits = elim (index_of c) [
  | none ↦ none
  | some i ↦
      let next : ℕ = (acc * 32 + i) % word in
      let taken = take_group next (bits + 5) in
      Option.map (λ out. taken.0 ++ out) (decode_from s next taken.1)
]

-- `toUpperCase`, on the ASCII letters.
abbrev pub upper_char : ℕ → ℕ
upper_char c = if leb b'a' c && leb c b'z' then c - 32 else c

-- `.replace(/=+$/g, '')`
unfoldable pub strip_padding : Text → Text
strip_padding [] = []
strip_padding (c ∷ s) =
    let rest = strip_padding s in if c == b'=' && length rest == 0 then [] else c ∷ rest

unfoldable pub base32_decode : Text → Option (List ℕ)
unfolding strip_padding decode_from
base32_decode s = decode_from (strip_padding (map upper_char s)) 0 0
