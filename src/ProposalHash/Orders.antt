-- ===== src/ProposalHash/Orders.antt =====
-- lib/proposalHash.js: the display form of a hash and the bytes after OP_RETURN.
use mathlib.Core.List.{reverse, reverse_aux, reverse-reverse}
use mathlib.Core.Path.{subst}
use sysnode_backend.Base.{
  ℕ, ◌+◌, ◌*◌, ◌/◌, ◌%◌, ◌≡◌, ◌<◌, refl, ap, ◌∙◌, true, Option, some, List, [], ◌∷◌, length, all,
  All, arith, Text, is_lower_hex, is_lower_hex64, is_hex64, is_lower_hex64-to_lower_case,
  to_lower_case, to_lower_case_of_lower, &&-true, &&-true,
}
use sysnode_backend.Results.{ok, ◌>>=◌, >>=-eq-ok, ok_inj}
use sysnode_backend.Js.{Js}
use sysnode_backend.ProposalHash.{
  ProposalHash, hex_value, hex_digit, bytes_of_hex, hex_of_bytes, lower_hash,
  display_hash_to_op_return_bytes, op_return_bytes_to_display_hash, compute_proposal_hash,
  proposal_stream,
}

abbrev pub IsByte : ℕ → Type 0
IsByte x = x < 256

hex_value-hex_digit : (n : ℕ) → n < 16 → hex_value (hex_digit n) ≡ n
hex_value-hex_digit n h = ground arith

hex_digit-hex_value : (c : ℕ) → is_lower_hex c ≡ true → hex_digit (hex_value c) ≡ c
hex_digit-hex_value c h = ground arith

hex_value-lt : (c : ℕ) → is_lower_hex c ≡ true → hex_value c < 16
hex_value-lt c h = ground arith

hex_digit-is_lower_hex : (n : ℕ) → n < 16 → is_lower_hex (hex_digit n) ≡ true
hex_digit-is_lower_hex n h = ground arith

bytes_of_hex-hex_of_bytes : (bs : List ℕ) → All IsByte bs → bytes_of_hex (hex_of_bytes bs) ≡ bs
unfolding bytes_of_hex hex_of_bytes
bytes_of_hex-hex_of_bytes [] h = refl
bytes_of_hex-hex_of_bytes (x ∷ bs) h =
    rw
      (
        hex_value-hex_digit (x / 16) (omega (arith, h.0)),
        hex_value-hex_digit (x % 16) (omega arith),
        bytes_of_hex-hex_of_bytes bs h.1,
      )
      (ap (λ y. y ∷ bs) (omega arith))

hex_of_bytes-bytes_of_hex :
    (s : Text) → all is_lower_hex s ≡ true → length s % 2 ≡ 0 → hex_of_bytes (bytes_of_hex s) ≡ s
unfolding bytes_of_hex hex_of_bytes
hex_of_bytes-bytes_of_hex [] h e = refl
hex_of_bytes-bytes_of_hex (a ∷ []) h e = ground arith
hex_of_bytes-bytes_of_hex (a ∷ b ∷ s) h e =
    let (ha, hs) = &&-true (is_lower_hex a) _ h in
    let (hb, hr) = &&-true (is_lower_hex b) _ hs in
    let high : (hex_value a * 16 + hex_value b) / 16 ≡ hex_value a =
      omega (arith, hex_value-lt b hb) in
    let low : (hex_value a * 16 + hex_value b) % 16 ≡ hex_value b =
      omega (arith, hex_value-lt b hb) in
    rw
      (
        high,
        low,
        hex_digit-hex_value a ha,
        hex_digit-hex_value b hb,
        hex_of_bytes-bytes_of_hex s hr (omega arith),
      )
      refl

bytes_of_hex-IsByte : (s : Text) → all is_lower_hex s ≡ true → All IsByte (bytes_of_hex s)
unfolding bytes_of_hex
bytes_of_hex-IsByte [] h = tt
bytes_of_hex-IsByte (a ∷ []) h = tt
bytes_of_hex-IsByte (a ∷ b ∷ s) h =
    let (ha, hs) = &&-true (is_lower_hex a) _ h in
    let (hb, hr) = &&-true (is_lower_hex b) _ hs in
    (omega (arith, hex_value-lt a ha, hex_value-lt b hb), bytes_of_hex-IsByte s hr)

pub length-bytes_of_hex : (s : Text) → length s % 2 ≡ 0 → length (bytes_of_hex s) * 2 ≡ length s
unfolding bytes_of_hex
length-bytes_of_hex [] e = refl
length-bytes_of_hex (a ∷ []) e = ground arith
length-bytes_of_hex (a ∷ b ∷ s) e = omega (arith, length-bytes_of_hex s (omega arith))

all-hex_of_bytes : (bs : List ℕ) → All IsByte bs → all is_lower_hex (hex_of_bytes bs) ≡ true
unfolding hex_of_bytes
all-hex_of_bytes [] h = refl
all-hex_of_bytes (x ∷ bs) h =
    rw
      (
        hex_digit-is_lower_hex (x / 16) (omega (arith, h.0)),
        hex_digit-is_lower_hex (x % 16) (omega arith),
      )
      (all-hex_of_bytes bs h.1)

length-hex_of_bytes : (bs : List ℕ) → length (hex_of_bytes bs) ≡ length bs * 2
unfolding hex_of_bytes
length-hex_of_bytes [] = refl
length-hex_of_bytes (x ∷ bs) = omega (arith, length-hex_of_bytes bs)

length-reverse_aux : (xs ys : List ℕ) → length (reverse_aux xs ys) ≡ length xs + length ys
length-reverse_aux [] ys = omega arith
length-reverse_aux (x ∷ xs) ys = omega (arith, length-reverse_aux xs (x ∷ ys))

pub length-reverse : (xs : List ℕ) → length (reverse xs) ≡ length xs
length-reverse xs = omega (arith, length-reverse_aux xs [])

All-reverse_aux : (xs ys : List ℕ) → All IsByte xs → All IsByte ys → All IsByte (reverse_aux xs ys)
All-reverse_aux [] ys h k = k
All-reverse_aux (x ∷ xs) ys h k = All-reverse_aux xs (x ∷ ys) h.1 (h.0, k)

All-reverse : (xs : List ℕ) → All IsByte xs → All IsByte (reverse xs)
All-reverse xs h = All-reverse_aux xs [] h tt

-- The display form of 32 bytes.
display_of-is_lower_hex64 :
    (bytes : List ℕ)
    → length bytes ≡ 32
    → All IsByte bytes
    → is_lower_hex64 (hex_of_bytes (reverse bytes)) ≡ true
unfolding is_lower_hex64
display_of-is_lower_hex64 bytes n h = ground (
  arith,
  all-hex_of_bytes (reverse bytes) (All-reverse bytes h),
  length-hex_of_bytes (reverse bytes),
  length-reverse bytes,
)

lower_hash_of_lower : (s : Text) → is_lower_hex64 s ≡ true → lower_hash s ≡ some s
lower_hash_of_lower s h = rw (to_lower_case_of_lower s h, h) refl

display_hash_to_op_return_bytes_of_display :
    (bytes : List ℕ)
    → length bytes ≡ 32
    → All IsByte bytes
    → display_hash_to_op_return_bytes (hex_of_bytes (reverse bytes)) ≡ ok bytes
unfolding display_hash_to_op_return_bytes
display_hash_to_op_return_bytes_of_display bytes n h =
    rw
      (
        lower_hash_of_lower (hex_of_bytes (reverse bytes)) (display_of-is_lower_hex64 bytes n h),
        display_hash_to_op_return_bytes,
        bytes_of_hex-hex_of_bytes (reverse bytes) (All-reverse bytes h),
        reverse-reverse bytes,
      )
      refl

-- With a hash function that gives 32 bytes, the two results of `computeProposalHash` are two forms of
-- one hash: the display form is 64 lower-case hexadecimal digits, and converting it gives the bytes
-- for OP_RETURN.
pub compute_proposal_hash-display :
    (sha256 : List ℕ → List ℕ)
    → ((bytes : List ℕ) → (length (sha256 bytes) ≡ 32) × All IsByte (sha256 bytes))
    → (parent : Option Text) (revision time data_hex : Js) (p : ProposalHash)
    → compute_proposal_hash sha256 parent revision time data_hex ≡ ok p
    → (is_lower_hex64 p.display_hex ≡ true)
      × (display_hash_to_op_return_bytes p.display_hex ≡ ok p.op_return_bytes)
unfolding compute_proposal_hash
compute_proposal_hash-display sha256 fine parent revision time data_hex p h =
    let (stream, e, same) = >>=-eq-ok (proposal_stream parent revision time data_hex) _ h in
    let bytes = sha256 (sha256 stream) in
    let (size, all_bytes) = fine (sha256 stream) in
    subst
      (λ (p : ProposalHash).
        (is_lower_hex64 p.display_hex ≡ true)
        × (display_hash_to_op_return_bytes p.display_hex ≡ ok p.op_return_bytes))
      (ok_inj same)
      (
        display_of-is_lower_hex64 bytes size all_bytes,
        display_hash_to_op_return_bytes_of_display bytes size all_bytes,
      )

pub lower_parts :
    (s : Text) → is_lower_hex64 s ≡ true → (all is_lower_hex s ≡ true) × (length s ≡ 64)
unfolding is_lower_hex64
lower_parts s h = (ground arith, ground arith)

back :
    (bytes : List ℕ) (s : Text)
    → length bytes ≡ 32
    → hex_of_bytes (reverse bytes) ≡ s
    → op_return_bytes_to_display_hash bytes ≡ ok s
unfolding op_return_bytes_to_display_hash
back bytes s n e = rw (n, op_return_bytes_to_display_hash, e) refl

-- Converting the display form of a hash, 64 hexadecimal digits in either case, to bytes and back gives
-- its lower-case form.
display_hash_round_trip :
    (s : Text)
    → is_hex64 s ≡ true
    → (display_hash_to_op_return_bytes s >>= op_return_bytes_to_display_hash) ≡ ok (to_lower_case s)
unfolding display_hash_to_op_return_bytes op_return_bytes_to_display_hash
display_hash_round_trip s h =
    let lower : Text = to_lower_case s in
    let is_lower : is_lower_hex64 lower ≡ true = is_lower_hex64-to_lower_case s h in
    let (digits, size) = lower_parts lower is_lower in
    let bytes : List ℕ = reverse (bytes_of_hex lower) in
    let count : length bytes ≡ 32 = omega (
      arith,
      length-reverse (bytes_of_hex lower),
      length-bytes_of_hex lower (omega (arith, size)),
    ) in
    rw (is_lower, display_hash_to_op_return_bytes)
      (back bytes lower count (
        ap hex_of_bytes (reverse-reverse (bytes_of_hex lower))
        ∙ hex_of_bytes-bytes_of_hex lower digits (omega (arith, size))))
