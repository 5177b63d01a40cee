-- ===== src/ProposalHash.antt =====
-- lib/proposalHash.js: the bytes that the hash of a proposal commits to, and its two byte orders.
-- SHA-256 is a parameter.
pub mod Reader
pub mod Stream
pub mod Orders
pub mod Tests
use sysnode_backend.Base.{
  ℕ, zero, suc, ◌+◌, ◌-◌, ◌*◌, ◌/◌, ◌%◌, ◌^◌, Bool, true, false, not, ◌&&◌, ◌||◌, Option, none,
  some, List, [], ◌∷◌, ◌++◌, ◌==◌, ltb, leb, length, all, if◌then◌else◌, Text, codes, same_text,
  is_lower_hex, is_lower_hex64, to_lower_case, ℤ, pos, negsuc,
}
use mathlib.Core.List.{reverse}
use sysnode_backend.Js.{Js, undefined, null, str, int}
use sysnode_backend.Results.{Result, ok, err, ◌>>=◌, ◌>>◌, require, or_throw}

-- What each function throws; `out_of_range` is what Buffer throws when a number does not fit.
pub data HashError : Type 0 where
  invalid_size invalid_parent_hash data_not_a_string data_not_hex data_odd_length invalid_revision
        invalid_time out_of_range invalid_display_hash invalid_op_return_bytes :
      HashError

-- The low `k` bytes of a number, the lowest first.
unfoldable pub little_endian : ℕ → ℕ → List ℕ
little_endian zero n = []
little_endian (suc k) n = n % 256 ∷ little_endian k (n / 256)

unfoldable pub write_compact_size : ℕ → Result HashError (List ℕ)
unfolding little_endian
write_compact_size n =
    if ltb n 253
    then ok (n ∷ [])
    else if leb n 0xffff
    then ok (0xfd ∷ little_endian 2 n)
    else if leb n 0xffffffff
    then ok (0xfe ∷ little_endian 4 n)
    else if ltb n (2 ^ 64)
    then ok (0xff ∷ little_endian 8 n)
    else err out_of_range

-- The value of a hexadecimal digit, and the two digits of a byte.
abbrev pub hex_value : ℕ → ℕ
hex_value c = if leb c b'9' then c - b'0' else c - b'a' + 10

abbrev pub hex_digit : ℕ → ℕ
hex_digit n = if ltb n 10 then b'0' + n else b'a' + (n - 10)

-- `Buffer.from(s, 'hex')`, on an even number of lower-case digits
unfoldable pub bytes_of_hex : Text → List ℕ
bytes_of_hex [] = []
bytes_of_hex (_ ∷ []) = []
bytes_of_hex (a ∷ b ∷ s) = (hex_value a * 16 + hex_value b) ∷ bytes_of_hex s

-- `toString('hex')`
unfoldable pub hex_of_bytes : List ℕ → Text
hex_of_bytes [] = []
hex_of_bytes (x ∷ xs) = hex_digit (x / 16) ∷ hex_digit (x % 16) ∷ hex_of_bytes xs

unfoldable pub zeros : ℕ → List ℕ
zeros zero = []
zeros (suc n) = 0 ∷ zeros n

abbrev pub lower_hash : Text → Option Text
lower_hash s = if is_lower_hex64 (to_lower_case s) then some (to_lower_case s) else none

-- The parent is a string, `null` or missing; no caller passes anything else.
unfoldable pub normalize_parent_hash : Option Text → Result HashError (List ℕ)
unfolding bytes_of_hex zeros
normalize_parent_hash none = ok (zeros 32)
normalize_parent_hash (some s) =
    if same_text s [] || same_text s (codes "0")
    then ok (zeros 32)
    else or_throw (lower_hash s) invalid_parent_hash >>= λ h. ok (reverse (bytes_of_hex h))

unfoldable pub normalize_data_hex : Js → Result HashError Text
normalize_data_hex (str s) =
    require (all is_lower_hex (to_lower_case s)) data_not_hex
    >> require (length (to_lower_case s) % 2 == 0) data_odd_length
    >> ok (to_lower_case s)
normalize_data_hex _ = err data_not_a_string

-- `writeInt32LE`, in two's complement
unfoldable pub int32_bytes : ℤ → Result HashError (List ℕ)
unfolding little_endian
int32_bytes (pos n) = if ltb n (2 ^ 31) then ok (little_endian 4 n) else err out_of_range
int32_bytes (negsuc n) =
    if ltb n (2 ^ 31) then ok (little_endian 4 (2 ^ 32 - (n + 1))) else err out_of_range

-- `writeBigInt64LE`, of a positive number
unfoldable pub int64_bytes : ℕ → Result HashError (List ℕ)
unfolding little_endian
int64_bytes n = if ltb n (2 ^ 63) then ok (little_endian 8 n) else err out_of_range

abbrev pub revision_of : Js → Option ℤ
revision_of (int z) = some z
revision_of _ = none

abbrev pub time_of : Js → Option ℕ
time_of (int (pos (suc n))) = some (suc n)
time_of _ = none

-- The hash of no outpoint, its index, and an empty signature.
abbrev pub trailer : List ℕ
trailer = zeros 32 ++ (0xff ∷ 0xff ∷ 0xff ∷ 0xff ∷ 0 ∷ [])

-- What the code concatenates.
unfoldable pub proposal_stream : Option Text → Js → Js → Js → Result HashError (List ℕ)
unfolding normalize_parent_hash normalize_data_hex int32_bytes int64_bytes write_compact_size
proposal_stream parent revision time data_hex = do
  revision_int ← or_throw (revision_of revision) invalid_revision
  time_int ← or_throw (time_of time) invalid_time
  parent_bytes ← normalize_parent_hash parent
  hex ← normalize_data_hex data_hex
  revision_bytes ← int32_bytes revision_int
  time_bytes ← int64_bytes time_int
  size ← write_compact_size (length hex)
  ok (parent_bytes ++ (revision_bytes ++ (time_bytes ++ (size ++ (hex ++ trailer)))))

pub record ProposalHash : Type 0 where
  pub display_hex : Text
  pub op_return_bytes : List ℕ

unfoldable pub compute_proposal_hash :
    (List ℕ → List ℕ) → Option Text → Js → Js → Js → Result HashError ProposalHash
unfolding proposal_stream hex_of_bytes
compute_proposal_hash sha256 parent revision time data_hex =
    proposal_stream parent revision time data_hex >>= λ stream. ok record {
      display_hex = hex_of_bytes (reverse (sha256 (sha256 stream)));
      op_return_bytes = sha256 (sha256 stream);
    }

unfoldable pub display_hash_to_op_return_bytes : Text → Result HashError (List ℕ)
unfolding bytes_of_hex
display_hash_to_op_return_bytes display_hex =
    or_throw (lower_hash display_hex) invalid_display_hash >>= λ h. ok (reverse (bytes_of_hex h))

unfoldable pub op_return_bytes_to_display_hash : List ℕ → Result HashError Text
unfolding hex_of_bytes
op_return_bytes_to_display_hash bytes =
    require (length bytes == 32) invalid_op_return_bytes >> ok (hex_of_bytes (reverse bytes))
