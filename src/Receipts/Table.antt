-- ===== src/Receipts/Table.antt =====
-- lib/voteReceipts.js: the rows of vote_receipts, the input checks and the statements on the table.
use sysnode_backend.Base.{
  ℕ, ◌≡◌, ◌↔◌, Bool, true, ◌&&◌, Option, none, some, List, arith, leb, ◌==◌, if◌then◌else◌, Text,
  codes, to_lower_case, ℤ, same_text, same_text_iff,
}
use sysnode_backend.Js.{
  Js, undefined, null, str, obj, Fields, end, hash_of, positive_integer, non_negative_integer,
  property,
}
use sysnode_backend.Eq.{Eq}
use sysnode_backend.Results.{Result, ok, ◌>>=◌, or_throw}
use sysnode_backend.Receipts.Types.{
  Outcome, Signal, Status, relayed, confirmed, stale, failed, submission_unknown,
}
use sysnode_backend.Receipts.Parse.{outcome_of, signal_of}

-- The columns of the UNIQUE constraint.
pub record ReceiptKey : Type 0 where
  pub user_id : ℕ
  pub collateral_hash : Text
  pub collateral_index : ℕ
  pub proposal_hash : Text

unfoldable pub same_key : ReceiptKey → ReceiptKey → Bool
same_key a b =
    a.user_id == b.user_id
    && same_text a.collateral_hash b.collateral_hash
    && a.collateral_index == b.collateral_index
    && same_text a.proposal_hash b.proposal_hash

pub same_key_iff : (a b : ReceiptKey) → (same_key a b ≡ true) ↔ (a ≡ b)
unfolding same_key
same_key_iff a b = ground (
  arith,
  same_text_iff a.collateral_hash b.collateral_hash,
  same_text_iff a.proposal_hash b.proposal_hash,
)

instance abbrev pub key_eq : Eq ReceiptKey
key_eq = record { beq = same_key; beq_iff = same_key_iff }

pub record Receipt : Type 0 where
  pub id : ℕ
  pub key : ReceiptKey
  pub vote_outcome : Outcome
  pub vote_signal : Signal
  pub vote_time : ℤ
  pub status : Status
  pub last_error : Option Text
  pub submitted_at : ℕ
  pub verified_at : Option ℕ

abbrev pub key_of : Receipt → ReceiptKey
key_of r = r.key

-- The rows, and the next value of AUTOINCREMENT.
pub record Table : Type 0 where
  pub rows : List Receipt
  pub next_id : ℕ

-- What `normalizeReceiptInput` returns.
pub record Attempt : Type 0 where
  pub key : ReceiptKey
  pub vote_outcome : Outcome
  pub vote_signal : Signal
  pub vote_time : ℕ
  pub status : Status
  pub last_error : Option Text

pub data InvalidInput : Type 0 where
  invalid_user_id invalid_collateral_hash invalid_collateral_index : InvalidInput
  invalid_proposal_hash invalid_vote_outcome invalid_vote_signal : InvalidInput
  invalid_vote_time invalid_status invalid_last_error : InvalidInput

-- `VALID_STATUSES.has(s)`, with the status that the word names.
unfoldable pub status_of : Text → Option Status
status_of s =
    if same_text s (codes "relayed")
    then some relayed
    else if same_text s (codes "confirmed")
    then some confirmed
    else if same_text s (codes "stale")
    then some stale
    else if same_text s (codes "failed")
    then some failed
    else if same_text s (codes "submission_unknown")
    then some submission_unknown
    else none

abbrev pub word {ℓ} : {A : Type ℓ} → (Text → Option A) → Js → Option A
word f (str s) = f s
word f _ = none

-- A non-negative integer up to 0xffffffff.
abbrev pub output_index : Js → Option ℕ
output_index v = elim (non_negative_integer v) [
  | none ↦ none
  | some n ↦ if leb n 0xffffffff then some n else none
]

-- `lastError = null` by default; otherwise a string or null.
abbrev pub error_text : Js → Option (Option Text)
error_text undefined = some none
error_text null = some none
error_text (str s) = some (some s)
error_text _ = none

-- `r || {}`
abbrev pub fields_of : Js → Fields
fields_of (obj fs) = fs
fields_of _ = end

unfoldable pub normalize_receipt_input : Js → Result InvalidInput Attempt
unfolding property status_of outcome_of signal_of
normalize_receipt_input r = do
  let fs = fields_of r
  user_id ← or_throw (positive_integer (property (codes "userId") fs)) invalid_user_id
  hash ← or_throw (hash_of (property (codes "collateralHash") fs)) invalid_collateral_hash
  index ← or_throw (output_index (property (codes "collateralIndex") fs)) invalid_collateral_index
  proposal ← or_throw (hash_of (property (codes "proposalHash") fs)) invalid_proposal_hash
  outcome ← or_throw (word outcome_of (property (codes "voteOutcome") fs)) invalid_vote_outcome
  signal ← or_throw (word signal_of (property (codes "voteSignal") fs)) invalid_vote_signal
  time ← or_throw (non_negative_integer (property (codes "voteTime") fs)) invalid_vote_time
  status ← or_throw (word status_of (property (codes "status") fs)) invalid_status
  last_error ← or_throw (error_text (property (codes "lastError") fs)) invalid_last_error
  ok (record {
    key = record {
      user_id = user_id;
      collateral_hash = to_lower_case hash;
      collateral_index = index;
      proposal_hash = to_lower_case proposal;
    };
    vote_outcome = outcome;
    vote_signal = signal;
    vote_time = time;
    status = status;
    last_error = last_error;
  })
