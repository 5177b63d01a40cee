-- ===== src/Receipts/Parse.antt =====
-- lib/voteReceipts.js: parsing Core's vote strings.
pub mod Digits
pub mod Separators
pub mod Roundtrip
pub mod Soundness
use sysnode_backend.Base.{
  ℕ, zero, suc, ◌+◌, ◌-◌, ◌<◌, ◌≡◌, refl, Bool, true, false, not, ◌&&◌, ◌||◌, Option, none, some,
  List, [], ◌∷◌, arith, leb, ◌==◌, if◌then◌else◌, Text, codes, length, take, drop, all, is_digit,
  is_hex64, to_lower_case, same_text, ℤ, pos, negsuc, ◌>>=◌, ◌>>◌, check,
}
use sysnode_backend.Js.{
  Js, undefined, null, non_integer, bool, int, str, arr, obj, Fields, end, field, decimal,
  to_double,
}
use sysnode_backend.Receipts.Types.{
  Outcome, vote_none, vote_yes, vote_no, vote_abstain, Signal, funding, valid, delete, endorsed,
}

-- What `parseVoteString` returns.
pub record Vote : Type 0 where
  pub collateral_hash : Text
  pub collateral_index : ℕ
  pub vote_time : ℤ
  pub vote_outcome : Outcome
  pub vote_signal : Signal

-- `VALID_OUTCOMES.has(s)`, with the outcome that the word names.
unfoldable pub outcome_of : Text → Option Outcome
outcome_of s =
    if same_text s (codes "none")
    then some vote_none
    else if same_text s (codes "yes")
    then some vote_yes
    else if same_text s (codes "no")
    then some vote_no
    else if same_text s (codes "abstain")
    then some vote_abstain
    else none

-- `VALID_SIGNALS.has(s)`, with the signal that the word names.
unfoldable pub signal_of : Text → Option Signal
signal_of s =
    if same_text s (codes "funding")
    then some funding
    else if same_text s (codes "valid")
    then some valid
    else if same_text s (codes "delete")
    then some delete
    else if same_text s (codes "endorsed")
    then some endorsed
    else none

-- The first part grows by a character.
abbrev pub grow_head : ℕ → List Text → List Text
grow_head c [] = (c ∷ []) ∷ []
grow_head c (p ∷ ps) = (c ∷ p) ∷ ps

-- `s.split(c)` at a single character.
unfoldable pub split : ℕ → Text → List Text
split c [] = [] ∷ []
split c (x ∷ s) = let rest = split c s in if x == c then [] ∷ rest else grow_head x rest

-- `s.lastIndexOf(c)`; `none` is -1.
unfoldable pub last_index_of : ℕ → Text → Option ℕ
last_index_of c [] = none
last_index_of c (x ∷ s) = elim (last_index_of c s) [
  | some i ↦ some (suc i)
  | none ↦ if x == c then some 0 else none
]

-- `/^\d+$/`
unfoldable pub is_digits : Text → Bool
is_digits s = not (length s == 0) && all is_digit s

-- `Number` of a run of digits, and whether it is an integer at most 0xffffffff.
unfoldable pub parse_index : Text → Option ℕ
parse_index s = do
  check (is_digits s)
  idx ← to_double (decimal 0 s)
  check (leb idx 0xffffffff)
  some idx

abbrev pub negate : ℕ → ℤ
negate zero = pos 0
negate (suc n) = negsuc n

-- `Number` of what `/^-?\d+$/` admits, if it is an integer.
unfoldable pub parse_time : Text → Option ℤ
parse_time s = elim s [
  | [] ↦ none
  | c ∷ rest ↦
      if c == b'-'
      then (do check (is_digits rest); n ← to_double (decimal 0 rest); some (negate n))
      else do check (is_digits (c ∷ rest)); n ← to_double (decimal 0 (c ∷ rest)); some (pos n)
]

-- The outpoint "<txid>-<n>".
unfoldable pub parse_outpoint : Text → Option (Text × ℕ)
parse_outpoint s = do
  dash ← last_index_of b'-' s
  check (not (dash == 0) && not (suc dash == length s))
  check (is_hex64 (take dash s))
  idx ← parse_index (drop (suc dash) s)
  some (take dash s, idx)

-- The four parts of a vote string.
unfoldable pub parse_parts : List Text → Option Vote
parse_parts (outpoint ∷ n_time ∷ outcome ∷ signal ∷ []) = do
  (hash, idx) ← parse_outpoint outpoint
  time ← parse_time n_time
  o ← outcome_of outcome
  s ← signal_of signal
  some (record {
    collateral_hash = to_lower_case hash;
    collateral_index = idx;
    vote_time = time;
    vote_outcome = o;
    vote_signal = s;
  })
parse_parts _ = none

unfoldable pub parse_vote_string : Js → Option Vote
parse_vote_string (str s) = parse_parts (split b':' s)
parse_vote_string _ = none

-- A parsed entry with the key it stood under.
pub record ChainVote : Type 0 where
  pub vote_hash : Text
  pub vote : Vote
  pub open vote use *

abbrev pub keep_parsed : Text → Option Vote → List ChainVote → List ChainVote
keep_parsed hash none out = out
keep_parsed hash (some v) out = record { vote_hash = hash; vote = v } ∷ out

unfoldable pub parse_entries : Fields → List ChainVote
parse_entries end = []
parse_entries (field hash v fs) = keep_parsed hash (parse_vote_string v) (parse_entries fs)

unfoldable pub parse_current_votes : Js → List ChainVote
parse_current_votes (obj fs) = parse_entries fs
parse_current_votes _ = []
