-- ===== src/Receipts/Parse/Roundtrip.antt =====
-- Core's printer of a vote, and that `parseVoteString` reads back what it prints.
use sysnode_backend.Base.{
  ℕ, ◌^◌, ◌<◌, ◌≤◌, ◌≡◌, &&-true, ==_iff, refl, true, some, ◌∷◌, ◌++◌, arith, Text, codes, length,
  all, is_lower_hex, is_lower_hex64, is_hex64_of_lower, to_lower_case_of_lower, all_mono,
  all-append, take-append, drop-suc-append, length-append,
}
use sysnode_backend.Js.{str}
use sysnode_backend.Receipts.Types.{
  Outcome, vote_none, vote_yes, vote_no, vote_abstain, Signal, funding, valid, delete, endorsed,
}
use sysnode_backend.Receipts.Parse.{
  Vote, outcome_of, signal_of, parse_outpoint, parse_parts, parse_vote_string,
}
use sysnode_backend.Receipts.Parse.Digits.{
  print_nat, print_time, magnitude, print_nat_pos, parse_index-print_nat, parse_time-print_time,
}
use sysnode_backend.Receipts.Parse.Separators.{
  Free, split_of_Free, split-append, last_index_of-append, Free-print_nat, Free-print_time,
}

pub print_outcome : Outcome → Text
print_outcome vote_none = codes "none"
print_outcome vote_yes = codes "yes"
print_outcome vote_no = codes "no"
print_outcome vote_abstain = codes "abstain"

pub print_signal : Signal → Text
print_signal funding = codes "funding"
print_signal valid = codes "valid"
print_signal delete = codes "delete"
print_signal endorsed = codes "endorsed"

pub print_outpoint : Text → ℕ → Text
print_outpoint hash index = hash ++ b'-' ∷ print_nat index

-- "<txid>-<n>:<nTime>:<outcome>:<signal>", as `CGovernanceVote::ToString` is documented to print.
pub print_vote : Vote → Text
print_vote v =
    print_outpoint v.collateral_hash v.collateral_index
    ++ b':'
      ∷ (print_time v.vote_time
          ++ b':' ∷ (print_outcome v.vote_outcome ++ b':' ∷ print_signal v.vote_signal))

-- A vote with a lower-case 64-digit hash and a 32-bit output index.
pub record IsWellFormed (v : Vote) : Type 0 where
  pub hash : is_lower_hex64 v.collateral_hash ≡ true
  pub index : v.collateral_index ≤ 0xffffffff

outcome_of-print_outcome : (o : Outcome) → outcome_of (print_outcome o) ≡ some o
unfolding outcome_of print_outcome
outcome_of-print_outcome vote_none = refl
outcome_of-print_outcome vote_yes = refl
outcome_of-print_outcome vote_no = refl
outcome_of-print_outcome vote_abstain = refl

signal_of-print_signal : (s : Signal) → signal_of (print_signal s) ≡ some s
unfolding signal_of print_signal
signal_of-print_signal funding = refl
signal_of-print_signal valid = refl
signal_of-print_signal delete = refl
signal_of-print_signal endorsed = refl

Free-print_outcome : (o : Outcome) → Free b':' (print_outcome o)
unfolding print_outcome
Free-print_outcome vote_none = refl
Free-print_outcome vote_yes = refl
Free-print_outcome vote_no = refl
Free-print_outcome vote_abstain = refl

Free-print_signal : (s : Signal) → Free b':' (print_signal s)
unfolding print_signal
Free-print_signal funding = refl
Free-print_signal valid = refl
Free-print_signal delete = refl
Free-print_signal endorsed = refl

Free-of_lower_hex : (s : Text) → all is_lower_hex s ≡ true → Free b':' s
Free-of_lower_hex s = all_mono is_lower_hex _ (λ x k. ground arith) s

Free-print_outpoint :
    (hash : Text) (n : ℕ) → is_lower_hex64 hash ≡ true → Free b':' (print_outpoint hash n)
unfolding print_outpoint is_lower_hex64
Free-print_outpoint hash n h =
    all-append _ hash (b'-' ∷ print_nat n) (Free-of_lower_hex hash (&&-true _ _ h).1)
      (Free-print_nat b':' n refl)

length-outpoint :
    (hash : Text) (n : ℕ)
    → is_lower_hex64 hash ≡ true
    → (length hash ≡ 64) × (65 < length (print_outpoint hash n))
unfolding print_outpoint is_lower_hex64
length-outpoint hash n h =
    let e : length hash ≡ 64 = (==_iff _ _).0 (&&-true _ _ h).0 in
    (e, omega (arith, length-append hash (b'-' ∷ print_nat n), print_nat_pos n))

parse_outpoint-print_outpoint :
    (hash : Text) (n : ℕ)
    → is_lower_hex64 hash ≡ true
    → n ≤ 0xffffffff
    → parse_outpoint (print_outpoint hash n) ≡ some (hash, n)
unfolding parse_outpoint print_outpoint
parse_outpoint-print_outpoint hash n h k =
    rw
      (
        last_index_of-append b'-' hash (print_nat n) (Free-print_nat b'-' n refl),
        take-append hash (b'-' ∷ print_nat n),
        drop-suc-append hash (print_nat n) b'-',
        is_hex64_of_lower hash h,
        parse_index-print_nat n k,
      )
      (ground (arith, length-outpoint hash n h))

-- Core prints a vote, and `parseVoteString` reads the same vote back, if its hash is lower-case hex,
-- its index has 32 bits and its time is below 2 ^ 53 in magnitude.
pub parse_vote_string-print_vote :
    (v : Vote)
    → IsWellFormed v
    → magnitude v.vote_time < 2 ^ 53
    → parse_vote_string (str (print_vote v)) ≡ some v
unfolding parse_vote_string print_vote parse_parts
parse_vote_string-print_vote v w h =
    rw
      (
        split-append b':' (print_outpoint v.collateral_hash v.collateral_index) _
            (Free-print_outpoint v.collateral_hash v.collateral_index w.hash),
        split-append b':' (print_time v.vote_time) _ (Free-print_time v.vote_time),
        split-append b':' (print_outcome v.vote_outcome) _ (Free-print_outcome v.vote_outcome),
        split_of_Free b':' (print_signal v.vote_signal) (Free-print_signal v.vote_signal),
        parse_outpoint-print_outpoint v.collateral_hash v.collateral_index w.hash w.index,
        parse_time-print_time v.vote_time h,
        outcome_of-print_outcome v.vote_outcome,
        signal_of-print_signal v.vote_signal,
        to_lower_case_of_lower v.collateral_hash w.hash,
      )
      refl
