-- ===== src/ProposalHash/Reader.antt =====
-- lib/proposalHash.js: a reader of the stream that is hashed, after Core's serialization format.
use mathlib.Core.Path.{subst}
use sysnode_backend.Base.{
  ℕ, zero, suc, ◌+◌, ◌-◌, ◌*◌, ◌/◌, ◌^◌, ◌≡◌, ◌<◌, refl, ap, inl, inr, true, false, Option, none,
  some, List, [], ◌∷◌, ◌++◌, ◌==◌, ltb, leb, le→leb, length, take, drop, take-append, drop-append,
  length-append, arith, Text, ℤ, pos, negsuc, if◌then◌else◌, Bool-cases, ◌>>=◌,
}
use sysnode_backend.Results.{ok, ok_inj, absurd_result}
use sysnode_backend.ProposalHash.{little_endian, write_compact_size}

-- The number of the bytes, the lowest first.
unfoldable pub value_of : List ℕ → ℕ
value_of [] = 0
value_of (x ∷ xs) = x + 256 * value_of xs

-- A field of `k` bytes and what follows.
unfoldable pub split_at : ℕ → List ℕ → Option (List ℕ × List ℕ)
split_at k xs = if leb k (length xs) then some (take k xs, drop k xs) else none

unfoldable pub read_number : ℕ → List ℕ → Option (ℕ × List ℕ)
unfolding split_at value_of
read_number k xs = split_at k xs >>= λ (field, rest). some (value_of field, rest)

unfoldable pub read_compact_size : List ℕ → Option (ℕ × List ℕ)
unfolding read_number
read_compact_size [] = none
read_compact_size (x ∷ xs) =
    if ltb x 253
    then some (x, xs)
    else read_number (if x == 253 then 2 else if x == 254 then 4 else 8) xs

abbrev pub signed32 : ℕ → ℤ
signed32 n = if ltb n (2 ^ 31) then pos n else negsuc (2 ^ 32 - n - 1)

pub record Committed : Type 0 where
  pub parent : List ℕ
  pub revision : ℤ
  pub time : ℕ
  pub data_hex : Text

unfoldable pub read_stream : List ℕ → Option Committed
read_stream stream = do
  (parent, after_parent) ← split_at 32 stream
  (revision, after_revision) ← read_number 4 after_parent
  (time, after_time) ← read_number 8 after_revision
  (size, after_size) ← read_compact_size after_time
  (data_hex, rest) ← split_at size after_size
  some record { parent = parent; revision = signed32 revision; time = time; data_hex = data_hex }

length-little_endian : (k n : ℕ) → length (little_endian k n) ≡ k
unfolding little_endian
length-little_endian zero n = refl
length-little_endian (suc k) n = ap suc (length-little_endian k (n / 256))

pub split_at-append :
    (k : ℕ) (xs ys : List ℕ) → length xs ≡ k → split_at k (xs ++ ys) ≡ some (xs, ys)
unfolding split_at
split_at-append k xs ys h =
    subst (λ k. split_at k (xs ++ ys) ≡ some (xs, ys)) h
      (rw
        (
          le→leb (length xs) (length (xs ++ ys)) (omega (arith, length-append xs ys)),
          split_at,
          take-append xs ys,
          drop-append xs ys,
        )
        refl)

value_of-little_endian2 : (n : ℕ) → n < 2 ^ 16 → value_of (little_endian 2 n) ≡ n
unfolding little_endian value_of
value_of-little_endian2 n h = omega arith

pub value_of-little_endian4 : (n : ℕ) → n < 2 ^ 32 → value_of (little_endian 4 n) ≡ n
unfolding little_endian value_of
value_of-little_endian4 n h = omega arith

pub value_of-little_endian8 : (n : ℕ) → n < 2 ^ 64 → value_of (little_endian 8 n) ≡ n
unfolding little_endian value_of
value_of-little_endian8 n h = omega arith

pub read_number-append :
    (k n : ℕ) (ys : List ℕ)
    → value_of (little_endian k n) ≡ n
    → read_number k (little_endian k n ++ ys) ≡ some (n, ys)
unfolding read_number
read_number-append k n ys h =
    rw (split_at-append k (little_endian k n) ys (length-little_endian k n), read_number, h) refl

-- The size as it is read: one byte, or a marker and a number of `k` bytes.
read_marked :
    (marker k n : ℕ) (ys : List ℕ)
    → ltb marker 253 ≡ false
    → (if marker == 253 then 2 else if marker == 254 then 4 else 8) ≡ k
    → value_of (little_endian k n) ≡ n
    → read_compact_size (marker ∷ little_endian k n ++ ys) ≡ some (n, ys)
unfolding read_compact_size
read_marked marker k n ys m e h = rw (m, read_compact_size, e) (read_number-append k n ys h)

read_byte :
    (n : ℕ) (rest : List ℕ) → ltb n 253 ≡ true → read_compact_size (n ∷ rest) ≡ some (n, rest)
unfolding read_compact_size
read_byte n rest h = rw (h, read_compact_size) refl

-- A size that is written is read back, and nothing of what follows it is taken.
pub read_compact_size-write_compact_size :
    (n : ℕ) (bytes rest : List ℕ)
    → write_compact_size n ≡ ok bytes
    → read_compact_size (bytes ++ rest) ≡ some (n, rest)
unfolding write_compact_size
read_compact_size-write_compact_size n bytes rest h = elim (Bool-cases (ltb n 253)) [
  | inl one ↦
      subst (λ b. read_compact_size (b ++ rest) ≡ some (n, rest))
        (ok_inj (rw (one, write_compact_size) at h)) (read_byte n rest one)
  | inr more ↦ elim (Bool-cases (leb n 0xffff)) [
    | inl two ↦
        subst (λ b. read_compact_size (b ++ rest) ≡ some (n, rest))
          (ok_inj (rw (more, two, write_compact_size) at h))
          (read_marked 0xfd 2 n rest refl refl (value_of-little_endian2 n (ground arith)))
    | inr above ↦ elim (Bool-cases (leb n 0xffffffff)) [
      | inl four ↦
          subst (λ b. read_compact_size (b ++ rest) ≡ some (n, rest))
            (ok_inj (rw (more, above, four, write_compact_size) at h))
            (read_marked 0xfe 4 n rest refl refl (value_of-little_endian4 n (ground arith)))
      | inr big ↦ elim (Bool-cases (ltb n (2 ^ 64))) [
        | inl eight ↦
            subst (λ b. read_compact_size (b ++ rest) ≡ some (n, rest))
              (ok_inj (rw (more, above, big, eight, write_compact_size) at h))
              (read_marked 0xff 8 n rest refl refl (value_of-little_endian8 n (ground arith)))
        | inr huge ↦ absurd_result (rw (more, above, big, huge, write_compact_size) at h)
      ]
    ]
  ]
]
