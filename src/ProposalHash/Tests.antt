-- ===== src/ProposalHash/Tests.antt =====
-- lib/proposalHash.js: runs of the model on a small proposal, with 32 zero bytes as every hash.
use sysnode_backend.Base.{
  ℕ, ◌≡◌, refl, true, some, List, [], ◌∷◌, All, arith, codes, length, to_lower_case, is_lower_hex64,
  pos, negsuc,
}
use sysnode_backend.Js.{str, int}
use sysnode_backend.Results.{ok}
use sysnode_backend.ProposalHash.{
  ProposalHash, proposal_stream, compute_proposal_hash, display_hash_to_op_return_bytes, zeros,
}
use sysnode_backend.ProposalHash.Reader.{
  Committed, read_stream, split_at, read_number, read_compact_size,
}
use sysnode_backend.ProposalHash.Stream.{Stands, read_stream-proposal_stream}
use sysnode_backend.ProposalHash.Orders.{IsByte, compute_proposal_hash-display}

-- Revision -2, time 258, data `AbCd`.
abbrev pub stream : List ℕ
stream =
    0 ∷ 0 ∷ 0 ∷ 0 ∷ 0 ∷ 0 ∷ 0 ∷ 0 ∷ 0 ∷ 0 ∷ 0 ∷ 0 ∷ 0 ∷ 0 ∷ 0 ∷ 0 ∷ 0 ∷ 0 ∷ 0 ∷ 0 ∷ 0 ∷ 0 ∷ 0 ∷ 0
    ∷ 0 ∷ 0 ∷ 0 ∷ 0 ∷ 0 ∷ 0 ∷ 0 ∷ 0 ∷ 254 ∷ 255 ∷ 255 ∷ 255 ∷ 2 ∷ 1 ∷ 0 ∷ 0 ∷ 0 ∷ 0 ∷ 0 ∷ 0 ∷ 4 ∷ 97
    ∷ 98 ∷ 99 ∷ 100 ∷ 0 ∷ 0 ∷ 0 ∷ 0 ∷ 0 ∷ 0 ∷ 0 ∷ 0 ∷ 0 ∷ 0 ∷ 0 ∷ 0 ∷ 0 ∷ 0 ∷ 0 ∷ 0 ∷ 0 ∷ 0 ∷ 0 ∷ 0
    ∷ 0 ∷ 0 ∷ 0 ∷ 0 ∷ 0 ∷ 0 ∷ 0 ∷ 0 ∷ 0 ∷ 0 ∷ 0 ∷ 0 ∷ 255 ∷ 255 ∷ 255 ∷ 255 ∷ 0 ∷ []

writes_stream :
    proposal_stream (some (codes "0")) (int (negsuc 1)) (int (pos 258)) (str (codes "AbCd"))
    ≡ ok stream
unfolding proposal_stream to_lower_case
writes_stream = refl

reads_stream :
    read_stream stream
    ≡ some record { parent = zeros 32; revision = negsuc 1; time = 258; data_hex = codes "abcd" }
unfolding read_stream split_at read_number read_compact_size zeros
reads_stream = refl

read_stream-proposal_stream_example :
    (c : Committed) × (read_stream stream ≡ some c)
    × Stands (some (codes "0")) (int (negsuc 1)) (int (pos 258)) (str (codes "AbCd")) c
read_stream-proposal_stream_example =
    read_stream-proposal_stream (some (codes "0")) (int (negsuc 1)) (int (pos 258))
      (str (codes "AbCd")) stream writes_stream

abbrev pub zero_hash : List ℕ → List ℕ
zero_hash bytes = zeros 32

zero_hash-IsByte : (bytes : List ℕ) → (length (zero_hash bytes) ≡ 32) × All IsByte (zero_hash bytes)
unfolding zeros
zero_hash-IsByte bytes = (refl, ground arith)

abbrev pub hash_of_zeros : ProposalHash
hash_of_zeros = record {
  display_hex = codes "0000000000000000000000000000000000000000000000000000000000000000";
  op_return_bytes = zeros 32;
}

hashes :
    compute_proposal_hash zero_hash
      (some (codes "0"))
      (int (negsuc 1))
      (int (pos 258))
      (str (codes "AbCd"))
    ≡ ok hash_of_zeros
unfolding compute_proposal_hash zeros to_lower_case
hashes = refl

compute_proposal_hash-display_example :
    (is_lower_hex64 hash_of_zeros.display_hex ≡ true)
    × (display_hash_to_op_return_bytes hash_of_zeros.display_hex ≡ ok hash_of_zeros.op_return_bytes)
compute_proposal_hash-display_example =
    compute_proposal_hash-display zero_hash zero_hash-IsByte (some (codes "0")) (int (negsuc 1))
      (int (pos 258)) (str (codes "AbCd")) hash_of_zeros hashes
