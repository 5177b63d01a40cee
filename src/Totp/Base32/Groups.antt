-- ===== src/Totp/Base32/Groups.antt =====
-- lib/totp.js: decoding what was encoded.
use mathlib.Core.Option
use sysnode_backend.Base.{
  ℕ, zero, suc, ◌+◌, ◌-◌, ◌*◌, ◌/◌, ◌%◌, ◌^◌, ◌≡◌, ◌<◌, ◌≤◌, refl, ◌∙◌, inl, inr, Bool-cases, false,
  some, List, [], ◌∷◌, ◌++◌, ◌==◌, leb, ltb, le→leb, Text, map, All, All-append, arith,
}
use sysnode_backend.Totp.Base32.{
  letter, index_of, word, emit, last_group, encode_from, base32_encode, take_group, decode_from,
  upper_char, strip_padding, base32_decode,
}

index_of-letter : (i : ℕ) → i < 32 → index_of (letter i) ≡ some i
index_of-letter i h = ground arith

-- Decoding a letter takes its five bits in.
decode_from-letter :
    (i acc bits : ℕ) (s : Text)
    → i < 32
    → decode_from (letter i ∷ s) acc bits
      ≡ Option.map
          (λ out. (take_group ((acc * 32 + i) % word) (bits + 5)).0 ++ out)
          (decode_from s ((acc * 32 + i) % word) (take_group ((acc * 32 + i) % word) (bits + 5)).1)
unfolding decode_from
decode_from-letter i acc bits s h = rw (index_of-letter i h, decode_from) refl

-- Of the byte `p` the encoder still holds the low `b` bits and the decoder the others.
abbrev Pending : ℕ → ℕ → ℕ → ℕ → Type 0
Pending b value acc p = (p < 256) × (value % 2 ^ b ≡ p % 2 ^ b) × (acc % 2 ^ (8 - b) ≡ p / 2 ^ b)

-- In that state the rest of the text decodes to the byte and the bytes to come.
abbrev Resumes : ℕ → List ℕ → Type 0
Resumes b bytes =
    (value acc p : ℕ)
    → Pending b value acc p
    → decode_from (encode_from bytes value b) acc (8 - b) ≡ some (p ∷ bytes)

abbrev Starts : List ℕ → Type 0
Starts bytes = (value acc : ℕ) → decode_from (encode_from bytes value 0) acc 0 ≡ some bytes

abbrev pub IsByte : ℕ → Type 0
IsByte x = x < 256

few_bits : (bits : ℕ) → bits < 3 → leb 8 (bits + 5) ≡ false
few_bits bits h = ground arith

-- A letter that completes the byte `p`.
completes :
    (i acc bits next p : ℕ) (s : Text) (out : List ℕ)
    → i < 32
    → next ≡ (acc * 32 + i) % word
    → 3 ≤ bits
    → next / 2 ^ (bits + 5 - 8) % 256 ≡ p
    → decode_from s next (bits + 5 - 8) ≡ some out
    → decode_from (letter i ∷ s) acc bits ≡ some (p ∷ out)
unfolding take_group
completes i acc bits next p s out small e full t h =
    decode_from-letter i acc bits s small
    ∙ rw (← e, le→leb 8 (bits + 5) (omega arith), take_group, h, t) refl

-- A letter that completes none.
continues :
    (i acc bits next : ℕ) (s : Text) (out : List ℕ)
    → i < 32
    → next ≡ (acc * 32 + i) % word
    → bits < 3
    → decode_from s next (bits + 5) ≡ some out
    → decode_from (letter i ∷ s) acc bits ≡ some out
unfolding take_group
continues i acc bits next s out small e few h =
    decode_from-letter i acc bits s small ∙ rw (← e, few_bits bits few, take_group, h) refl

last_resumes :
    (b value acc p : ℕ)
    → 0 < b
    → b < 5
    → Pending b value acc p
    → decode_from (last_group value b) acc (8 - b) ≡ some (p ∷ [])
unfolding last_group decode_from
last_resumes zero value acc p h k r = elim h [ ]
last_resumes (suc zero) value acc p h k r =
    completes (value * 2 ^ 4 % word / 2 ^ 0 % 32) acc 7 _ p [] [] (omega arith) refl (omega arith)
      (omega arith) refl
last_resumes (suc (suc zero)) value acc p h k r =
    completes (value * 2 ^ 3 % word / 2 ^ 0 % 32) acc 6 _ p [] [] (omega arith) refl (omega arith)
      (omega arith) refl
last_resumes (suc (suc (suc zero))) value acc p h k r =
    completes (value * 2 ^ 2 % word / 2 ^ 0 % 32) acc 5 _ p [] [] (omega arith) refl (omega arith)
      (omega arith) refl
last_resumes (suc (suc (suc (suc zero)))) value acc p h k r =
    completes (value * 2 ^ 1 % word / 2 ^ 0 % 32) acc 4 _ p [] [] (omega arith) refl (omega arith)
      (omega arith) refl
last_resumes (suc (suc (suc (suc (suc b))))) value acc p h k r = absurd (omega arith)

abbrev shifted : ℕ → ℕ → ℕ
shifted value x = (value * 256 + x) % word

abbrev taken : ℕ → ℕ → ℕ
taken acc i = (acc * 32 + i) % word

-- All five phases at once, byte by byte.
phases :
    (bytes : List ℕ)
    → All IsByte bytes
    → Starts bytes × Resumes 1 bytes × Resumes 2 bytes × Resumes 3 bytes × Resumes 4 bytes
unfolding encode_from emit decode_from last_group
phases [] h = (
  λ value acc. refl,
  λ value acc p r. last_resumes 1 value acc p (omega arith) (omega arith) r,
  λ value acc p r. last_resumes 2 value acc p (omega arith) (omega arith) r,
  λ value acc p r. last_resumes 3 value acc p (omega arith) (omega arith) r,
  λ value acc p r. last_resumes 4 value acc p (omega arith) (omega arith) r,
)
phases (x ∷ xs) h =
    let ih = phases xs h.1 in
    (
      λ value acc.
          let n : ℕ = shifted value x in
          let a : ℕ = taken acc (n / 2 ^ 3 % 32) in
          continues (n / 2 ^ 3 % 32) acc 0 a (encode_from xs n 3) _ (omega arith) refl (omega arith)
            (ih.3 n a x (h.0, omega arith, omega arith)),
      λ value acc p r.
          let n : ℕ = shifted value x in
          let a : ℕ = taken acc (n / 2 ^ 4 % 32) in
          completes (n / 2 ^ 4 % 32) acc 7 a p (encode_from xs n 4) _ (omega arith) refl
            (omega arith) (omega arith) (ih.4 n a x (h.0, omega arith, omega arith)),
      λ value acc p r.
          let n : ℕ = shifted value x in
          let a : ℕ = taken acc (n / 2 ^ 5 % 32) in
          let c : ℕ = taken a (n / 2 ^ 0 % 32) in
          completes (n / 2 ^ 5 % 32) acc 6 a p (letter (n / 2 ^ 0 % 32) ∷ encode_from xs n 0) _
            (omega arith) refl (omega arith) (omega arith)
            (completes (n / 2 ^ 0 % 32) a 3 c x (encode_from xs n 0) _ (omega arith) refl
              (omega arith) (omega arith) (ih.0 n c)),
      λ value acc p r.
          let n : ℕ = shifted value x in
          let a : ℕ = taken acc (n / 2 ^ 6 % 32) in
          let c : ℕ = taken a (n / 2 ^ 1 % 32) in
          completes (n / 2 ^ 6 % 32) acc 5 a p (letter (n / 2 ^ 1 % 32) ∷ encode_from xs n 1) _
            (omega arith) refl (omega arith) (omega arith)
            (continues (n / 2 ^ 1 % 32) a 2 c (encode_from xs n 1) _ (omega arith) refl
              (omega arith) (ih.1 n c x (h.0, omega arith, omega arith))),
      λ value acc p r.
          let n : ℕ = shifted value x in
          let a : ℕ = taken acc (n / 2 ^ 7 % 32) in
          let c : ℕ = taken a (n / 2 ^ 2 % 32) in
          completes (n / 2 ^ 7 % 32) acc 4 a p (letter (n / 2 ^ 2 % 32) ∷ encode_from xs n 2) _
            (omega arith) refl (omega arith) (omega arith)
            (continues (n / 2 ^ 2 % 32) a 1 c (encode_from xs n 2) _ (omega arith) refl
              (omega arith) (ih.2 n c x (h.0, omega arith, omega arith))),
    )

letter-ne-padding : (i : ℕ) → i < 32 → (letter i == b'=') ≡ false
letter-ne-padding i h = ground arith

upper_char-letter : (i : ℕ) → i < 32 → upper_char (letter i) ≡ letter i
upper_char-letter i h = ground arith

-- What the decoder's clean-up leaves alone.
abbrev IsLetter : ℕ → Type 0
IsLetter c = (upper_char c ≡ c) × ((c == b'=') ≡ false)

letter-IsLetter : (i : ℕ) → i < 32 → IsLetter (letter i)
letter-IsLetter i h = (upper_char-letter i h, letter-ne-padding i h)

emit-IsLetter : (fuel value bits : ℕ) → All IsLetter (emit fuel value bits).0
unfolding emit
emit-IsLetter zero value bits = tt
emit-IsLetter (suc fuel) value bits = elim (Bool-cases (leb 5 bits)) [
  | inl more ↦ rw more (letter-IsLetter _ (omega arith), emit-IsLetter fuel value (bits - 5))
  | inr done ↦ rw done tt
]

last_group-IsLetter : (value bits : ℕ) → All IsLetter (last_group value bits)
unfolding last_group
last_group-IsLetter value bits = elim (Bool-cases (ltb 0 bits)) [
  | inl more ↦ rw (more, last_group) (letter-IsLetter _ (omega arith), tt)
  | inr done ↦ rw (done, last_group) tt
]

encode_from-IsLetter :
    (bytes : List ℕ) (value bits : ℕ) → All IsLetter (encode_from bytes value bits)
unfolding encode_from
encode_from-IsLetter [] value bits = last_group-IsLetter value bits
encode_from-IsLetter (x ∷ xs) value bits =
    All-append IsLetter _ _ (emit-IsLetter (bits + 8) (shifted value x) (bits + 8))
      (encode_from-IsLetter xs (shifted value x) _)

upper-letters : (s : Text) → All IsLetter s → map upper_char s ≡ s
upper-letters [] h = refl
upper-letters (c ∷ s) h = rw (h.0.0, upper-letters s h.1) refl

strip_padding-letters : (s : Text) → All IsLetter s → strip_padding s ≡ s
unfolding strip_padding
strip_padding-letters [] h = refl
strip_padding-letters (c ∷ s) h = rw (h.0.1, strip_padding-letters s h.1) refl

-- Every list of bytes is read back from its text.
pub base32_decode-base32_encode :
    (bytes : List ℕ) → All IsByte bytes → base32_decode (base32_encode bytes) ≡ some bytes
unfolding base32_decode base32_encode
base32_decode-base32_encode bytes h =
    let letters = encode_from-IsLetter bytes 0 0 in
    rw
      (
        upper-letters (encode_from bytes 0 0) letters,
        strip_padding-letters (encode_from bytes 0 0) letters,
      )
      ((phases bytes h).0 0 0)
