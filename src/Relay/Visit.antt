-- ===== src/Relay/Visit.antt =====
-- lib/gov.js: what `relayVotes` does with one entry. What is awaited is given: the answer of
-- `voteRaw`, whether the batch was aborted before the call, and whether the database was readable.
use sysnode_backend.Base.{
  ℕ, Bool, true, false, not, ◌&&◌, ◌||◌, Option, none, some, Text, codes, same_text, if◌then◌else◌,
}
use sysnode_backend.Rows.{lookup}
use sysnode_backend.Receipts.Types.{
  Outcome, Signal, Status, relayed, confirmed, failed, submission_unknown,
}
use sysnode_backend.Receipts.Table.{ReceiptKey, key_eq, Receipt, key_of, Table}
use sysnode_backend.Receipts.Decide.{
  Windows, Decision, relay_new, relay_again, stale_confirmed, hold, already_on_chain,
  recently_relayed, decide_receipt,
}
use sysnode_backend.Relay.Codes.{classify_rpc_error, is_duplicate_vote_code}

-- The request, which `validateVoteBody` has checked: the hashes are lower-cased hex and the numbers
-- in range, so the checks of the receipts repository pass.
pub record Request : Type 0 where
  pub user_id : ℕ
  pub proposal_hash : Text
  pub vote_outcome : Outcome
  pub vote_signal : Signal
  pub time : ℕ

pub record Entry : Type 0 where
  pub collateral_hash : Text
  pub collateral_index : ℕ
  pub vote_sig : Text

-- What `voteRaw` threw.
pub record Refusal : Type 0 where
  pub message : Text
  pub not_submitted : Bool
  pub uncertain : Bool
  pub definite_core_rejection : Bool

pub data Reply : Type 0 where
  voted : Reply
  refused : Refusal → Reply

-- The entry, and what happens while it is processed; `at` is the time of its receipt.
pub record Visit : Type 0 where
  pub entry : Entry
  pub readable : Bool
  pub aborted : Bool
  pub reply : Reply
  pub stores : Bool
  pub at : ℕ

abbrev pub entry_key : Request → Entry → ReceiptKey
entry_key req e = record {
  user_id = req.user_id;
  collateral_hash = e.collateral_hash;
  collateral_index = e.collateral_index;
  proposal_hash = req.proposal_hash;
}

-- An element of `decisions`.
pub data Gate : Type 0 where
  no_receipts unavailable : Gate
  decided : Decision → Gate

-- The decision pass, for one entry.
unfoldable pub gate_of : Bool → Windows → ℕ → Request → Table → Visit → Gate
gate_of has_receipts w now req t v =
    if has_receipts
    then (if v.readable
        then decided (
            decide_receipt w now req.vote_outcome req.vote_signal
              (lookup key_of (entry_key req v.entry) t.rows))
        else unavailable)
    else no_receipts

-- What is returned to the client for an entry.
pub record EntryResult : Type 0 where
  pub entry : Entry
  pub ok : Bool
  pub error : Option Text
  pub skipped : Option Text
  pub uncertain : Bool
  pub not_submitted : Bool

abbrev pub not_submitted_result : Entry → Text → EntryResult
not_submitted_result e reason = record {
  entry = e;
  ok = false;
  error = some reason;
  skipped = none;
  uncertain = false;
  not_submitted = true;
}

abbrev pub uncertain_result : Entry → EntryResult
uncertain_result e = record {
  entry = e;
  ok = false;
  error = some (codes "submission_unknown");
  skipped = none;
  uncertain = true;
  not_submitted = false;
}

abbrev pub skipped_result : Entry → Text → EntryResult
skipped_result e reason = record {
  entry = e;
  ok = true;
  error = none;
  skipped = some reason;
  uncertain = false;
  not_submitted = false;
}

abbrev pub accepted_result : Entry → EntryResult
accepted_result e = record {
  entry = e;
  ok = true;
  error = none;
  skipped = none;
  uncertain = false;
  not_submitted = false;
}

abbrev pub rejected_result : Entry → Text → EntryResult
rejected_result e code = record {
  entry = e;
  ok = false;
  error = some code;
  skipped = none;
  uncertain = false;
  not_submitted = false;
}

-- The status and the error that `persistReceipt` is called with, where it is called.
abbrev pub Write : Type 0
Write = Option (Status × Option Text)

-- `d && d.previous`
abbrev pub previous : Gate → Option Receipt
previous (decided (relay_again r)) = some r
previous (decided (stale_confirmed r)) = some r
previous (decided (hold r)) = some r
previous (decided (already_on_chain r)) = some r
previous (decided (recently_relayed r)) = some r
previous _ = none

abbrev pub is_good : Status → Bool
is_good confirmed = true
is_good relayed = true
is_good _ = false

abbrev pub has_good_state : Option Receipt → Bool
has_good_state none = false
has_good_state (some r) = is_good r.status

-- A refusal with a code that is not left uncertain.
unfoldable pub refused_with : Gate → Entry → Text → Write × EntryResult
refused_with g e code =
    if is_duplicate_vote_code code && has_good_state (previous g)
    then (none, rejected_result e code)
    else (some (failed, some code), rejected_result e code)

unfoldable pub after_reply : Gate → Entry → Reply → Write × EntryResult
after_reply g e voted = (some (relayed, none), accepted_result e)
after_reply g e (refused x) =
    let code = classify_rpc_error x.message in
    if x.not_submitted
    then (none, not_submitted_result e (codes "not_submitted"))
    else if x.uncertain || (same_text code (codes "rpc_error") && not x.definite_core_rejection)
    then (some (submission_unknown, some (codes "submission_unknown")), uncertain_result e)
    else refused_with g e code

-- The entry goes on to `voteRaw`.
unfoldable pub calls_core : Gate → Visit → Bool
calls_core no_receipts v = not v.aborted
calls_core (decided relay_new) v = not v.aborted
calls_core (decided (relay_again r)) v = not v.aborted
calls_core (decided (stale_confirmed r)) v = not v.aborted
calls_core _ v = false

-- `relay`, or no decision.
unfoldable pub relay_entry : Gate → Visit → Write × EntryResult
relay_entry g v =
    if v.aborted
    then (none, not_submitted_result v.entry (codes "not_submitted"))
    else after_reply g v.entry v.reply

-- The worker's function for one entry.
unfoldable pub visit : Gate → Visit → Write × EntryResult
visit unavailable v = (none, not_submitted_result v.entry (codes "receipt_check_unavailable"))
visit (decided (hold r)) v = (none, uncertain_result v.entry)
visit (decided (already_on_chain r)) v = (none, skipped_result v.entry (codes "already_on_chain"))
visit (decided (recently_relayed r)) v = (none, skipped_result v.entry (codes "recently_relayed"))
visit g v = relay_entry g v
