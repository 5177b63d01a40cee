-- ===== src/ProposalHash/Stream.antt =====
-- lib/proposalHash.js: the stream that is hashed can be read back, so the hash commits to each field.
use mathlib.Core.List.{reverse}
use mathlib.Core.Path.{subst}
use sysnode_backend.Base.{
  ℕ, zero, suc, ◌+◌, ◌-◌, ◌^◌, ◌≡◌, ◌<◌, refl, sym, ap, ◌∙◌, inl, inr, true, Option, none, some,
  List, [], ◌++◌, ltb, length, arith, Text, is_lower_hex64, codes, same_text, ◌||◌, ℤ, pos, negsuc,
  Bool-cases,
}
use sysnode_backend.Results.{ok, >>=-eq-ok, ok_inj, or_throw-ok, absurd_result}
use sysnode_backend.Js.{Js}
use sysnode_backend.ProposalHash.{
  invalid_revision, invalid_time, invalid_parent_hash, little_endian, write_compact_size, zeros,
  lower_hash, bytes_of_hex, normalize_parent_hash, normalize_data_hex, int32_bytes, int64_bytes,
  revision_of, time_of, trailer, proposal_stream,
}
use sysnode_backend.ProposalHash.Orders.{length-reverse, length-bytes_of_hex, lower_parts}
use sysnode_backend.ProposalHash.Reader.{
  Committed, read_stream, signed32, split_at-append, read_number-append,
  read_compact_size-write_compact_size, value_of-little_endian4, value_of-little_endian8,
}

length-zeros : (n : ℕ) → length (zeros n) ≡ n
unfolding zeros
length-zeros zero = refl
length-zeros (suc n) = ap suc (length-zeros n)

lower_hash-is_lower_hex64 : (s t : Text) → lower_hash s ≡ some t → is_lower_hex64 t ≡ true
lower_hash-is_lower_hex64 s t h = ground arith

length-hash : (t : Text) → is_lower_hex64 t ≡ true → length (reverse (bytes_of_hex t)) ≡ 32
length-hash t h =
    let size = (lower_parts t h).1 in
    omega
      (arith, size, length-reverse (bytes_of_hex t), length-bytes_of_hex t (omega (arith, size)))

length-parent :
    (parent : Option Text) (bytes : List ℕ)
    → normalize_parent_hash parent ≡ ok bytes
    → length bytes ≡ 32
unfolding normalize_parent_hash
length-parent none bytes h = subst (λ b. length b ≡ 32) (ok_inj h) (length-zeros 32)
length-parent (some s) bytes h = elim (Bool-cases (same_text s [] || same_text s (codes "0"))) [
  | inl top ↦
      subst (λ b. length b ≡ 32) (ok_inj (rw (top, normalize_parent_hash) at h)) (length-zeros 32)
  | inr named ↦
      let (t, is_hash, e) =
        or_throw-ok (lower_hash s) invalid_parent_hash (λ h. ok (reverse (bytes_of_hex h)))
          (rw (named, normalize_parent_hash) at h) in
      subst (λ b. length b ≡ 32) (ok_inj e) (length-hash t (lower_hash-is_lower_hex64 s t is_hash))
]

-- The bytes of a revision are those of one 32-bit number, which is the revision in two's complement.
revision_bytes :
    (z : ℤ) (bytes : List ℕ)
    → int32_bytes z ≡ ok bytes
    → (n : ℕ) × (n < 2 ^ 32) × (signed32 n ≡ z) × (bytes ≡ little_endian 4 n)
unfolding int32_bytes
revision_bytes (pos n) bytes h = elim (Bool-cases (ltb n (2 ^ 31))) [
  | inl fits ↦ (n, ground arith, rw fits refl, sym (ok_inj (rw (fits, int32_bytes) at h)))
  | inr over ↦ absurd_result (rw (over, int32_bytes) at h)
]
revision_bytes (negsuc n) bytes h = elim (Bool-cases (ltb n (2 ^ 31))) [
  | inl fits ↦
      (2 ^ 32 - (n + 1), omega arith, ground arith, sym (ok_inj (rw (fits, int32_bytes) at h)))
  | inr over ↦ absurd_result (rw (over, int32_bytes) at h)
]

time_bytes :
    (n : ℕ) (bytes : List ℕ) → int64_bytes n ≡ ok bytes → (n < 2 ^ 64) × (bytes ≡ little_endian 8 n)
unfolding int64_bytes
time_bytes n bytes h = elim (Bool-cases (ltb n (2 ^ 63))) [
  | inl fits ↦ (ground arith, sym (ok_inj (rw (fits, int64_bytes) at h)))
  | inr over ↦ absurd_result (rw (over, int64_bytes) at h)
]

read_fields :
    (parent : List ℕ) (revision time : ℕ) (size : List ℕ) (hex rest : List ℕ)
    → length parent ≡ 32
    → revision < 2 ^ 32
    → time < 2 ^ 64
    → write_compact_size (length hex) ≡ ok size
    → read_stream
        (parent ++ (little_endian 4 revision ++ (little_endian 8 time ++ (size ++ (hex ++ rest)))))
      ≡ some record { parent = parent; revision = signed32 revision; time = time; data_hex = hex }
unfolding read_stream
read_fields parent revision time size hex rest n r t w =
    let after_time = size ++ (hex ++ rest) in
    let after_revision = little_endian 8 time ++ after_time in
    rw
      (
        split_at-append 32 parent (little_endian 4 revision ++ after_revision) n,
        read_stream,
        read_number-append 4 revision after_revision (value_of-little_endian4 revision r),
        read_number-append 8 time after_time (value_of-little_endian8 time t),
        read_compact_size-write_compact_size (length hex) size (hex ++ rest) w,
        split_at-append (length hex) hex rest refl,
      )
      refl

read_written :
    (parent : List ℕ) (n t : ℕ) (size : List ℕ) (hex rev tim : List ℕ) {z : ℤ}
    → rev ≡ little_endian 4 n
    → tim ≡ little_endian 8 t
    → read_stream
        (parent ++ (little_endian 4 n ++ (little_endian 8 t ++ (size ++ (hex ++ trailer)))))
      ≡ some record { parent = parent; revision = signed32 n; time = t; data_hex = hex }
    → signed32 n ≡ z
    → read_stream (parent ++ (rev ++ (tim ++ (size ++ (hex ++ trailer)))))
      ≡ some record { parent = parent; revision = z; time = t; data_hex = hex }
read_written parent n t size hex rev tim a b h c = rw (a, b, ← c) h

-- What the arguments of a call stand for.
pub record Stands (parent_arg : Option Text) (revision_arg time_arg data_arg : Js) (c : Committed)
    : Type 0 where
  pub parent : normalize_parent_hash parent_arg ≡ ok c.parent
  pub revision : revision_of revision_arg ≡ some c.revision
  pub time : time_of time_arg ≡ some c.time
  pub data_hex : normalize_data_hex data_arg ≡ ok c.data_hex

-- Where `computeProposalHash` hashes a stream, reading the stream gives back the parent hash, the
-- revision, the time and the lower-cased data of the call.
pub read_stream-proposal_stream :
    (parent : Option Text) (revision time data_hex : Js) (stream : List ℕ)
    → proposal_stream parent revision time data_hex ≡ ok stream
    → (c : Committed) × (read_stream stream ≡ some c) × Stands parent revision time data_hex c
unfolding proposal_stream
read_stream-proposal_stream parent revision time data_hex stream h =
    let (z, is_revision, h1) = or_throw-ok (revision_of revision) invalid_revision _ h in
    let (t, is_time, h2) = or_throw-ok (time_of time) invalid_time _ h1 in
    let (parent_bytes, is_parent, h3) = >>=-eq-ok (normalize_parent_hash parent) _ h2 in
    let (hex, is_hex, h4) = >>=-eq-ok (normalize_data_hex data_hex) _ h3 in
    let (rev, is_rev, h5) = >>=-eq-ok (int32_bytes z) _ h4 in
    let (tim, is_tim, h6) = >>=-eq-ok (int64_bytes t) _ h5 in
    let (size, is_size, h7) = >>=-eq-ok (write_compact_size (length hex)) _ h6 in
    let (n, fits, signed, rev_is) = revision_bytes z rev is_rev in
    let (late, tim_is) = time_bytes t tim is_tim in
    (
      record { parent = parent_bytes; revision = z; time = t; data_hex = hex },
      ap read_stream (sym (ok_inj h7))
          ∙ read_written parent_bytes n t size hex rev tim rev_is tim_is
              (read_fields parent_bytes n t size hex trailer
                (length-parent parent parent_bytes is_parent) fits late is_size)
              signed,
      record { parent = is_parent; revision = is_revision; time = is_time; data_hex = is_hex },
    )
