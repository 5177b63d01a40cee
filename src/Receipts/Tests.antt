-- ===== src/Receipts/Tests.antt =====
-- lib/voteReceipts.js: runs of the model on small inputs.
use mathlib.Core.List.Perm
use sysnode_backend.Base.{
  ◌≡◌, ◌↔◌, ◌⊎◌, inr, refl, true, false, none, some, [], ◌∷◌, Text, codes, pos, arith, is_hex64,
  is_lower_hex64, to_lower_case,
}
use sysnode_backend.Receipts.Types.{vote_yes, vote_no, funding, relayed, submission_unknown}
use sysnode_backend.Receipts.Table.{ReceiptKey, Receipt, Table, Attempt, key_of, key_eq, same_key}
use sysnode_backend.Receipts.Parse.{Vote, ChainVote, parse_vote_string}
use sysnode_backend.Receipts.Parse.Roundtrip.{
  IsWellFormed, print_vote, parse_vote_string-print_vote,
}
use sysnode_backend.Receipts.Parse.Soundness.{parse_vote_string-IsWellFormed}
use sysnode_backend.Receipts.Upsert.Order.{claim_at}
use sysnode_backend.Receipts.Upsert.Completion.{complete, complete-perm}
use sysnode_backend.Receipts.Queries.{list_by_proposal_stmt}
use sysnode_backend.Receipts.Decide.{default_windows, decide_receipt}
use sysnode_backend.Receipts.Decide.Safety.{relays, Covers, decide_receipt_iff}
use sysnode_backend.Receipts.Reconcile.{
  Reading, reconcile_for_proposal, reconcile_listed, transact, run_change, plan, chain_vote,
  plan_present, plan_absent, is_exact, supersedes_intent, selects, rewrites, unchanged,
  set_confirmed,
}
use sysnode_backend.Receipts.Reconcile.Pointwise.{revise}
use sysnode_backend.Receipts.Reconcile.Guarantees.{lookup-reconcile_for_proposal}
use sysnode_backend.Receipts.Reconcile.Resolution.{
  Revision, reconcile-Revision, reconcile_keeps_newer,
}
use sysnode_backend.Rows.{lookup, update_where, count_where}
use sysnode_backend.Rows.Sorted.{order_by}
use sysnode_backend.Js.{int, str}

abbrev pub hash_a : Text
hash_a = codes "aaaaaaaaaaaaaaaaaaaaaaaaaaaaaaaaaaaaaaaaaaaaaaaaaaaaaaaaaaaaaaaa"

abbrev pub hash_b : Text
hash_b = codes "bbbbbbbbbbbbbbbbbbbbbbbbbbbbbbbbbbbbbbbbbbbbbbbbbbbbbbbbbbbbbbbb"

abbrev pub key_a : ReceiptKey
key_a = record {
  user_id = 1;
  collateral_hash = hash_a;
  collateral_index = 0;
  proposal_hash = hash_b;
}

-- A yes vote at time 100 that was relayed, and a no vote at time 200 whose outcome is unknown.
abbrev pub yes_attempt : Attempt
yes_attempt = record {
  key = key_a;
  vote_outcome = vote_yes;
  vote_signal = funding;
  vote_time = 100;
  status = relayed;
  last_error = none;
}

abbrev pub no_attempt : Attempt
no_attempt = record {
  key = key_a;
  vote_outcome = vote_no;
  vote_signal = funding;
  vote_time = 200;
  status = submission_unknown;
  last_error = some (codes "submission_unknown");
}

abbrev pub unknown_receipt : Receipt
unknown_receipt = record {
  id = 1;
  key = key_a;
  vote_outcome = vote_no;
  vote_signal = funding;
  vote_time = pos 200;
  status = submission_unknown;
  last_error = some (codes "submission_unknown");
  submitted_at = 1000;
  verified_at = none;
}

abbrev pub empty_table : Table
empty_table = record { rows = []; next_id = 1 }

abbrev pub one_unknown : Table
one_unknown = record { rows = unknown_receipt ∷ []; next_id = 2 }

-- The relays of the two votes complete in either order.
complete-perm_example :
    claim_at key_a (complete ((5000, yes_attempt) ∷ (6000, no_attempt) ∷ []) empty_table)
    ≡ claim_at key_a (complete ((6000, no_attempt) ∷ (5000, yes_attempt) ∷ []) empty_table)
unfolding lookup
complete-perm_example =
    complete-perm key_a funding ((5000, yes_attempt) ∷ (6000, no_attempt) ∷ [])
      ((6000, no_attempt) ∷ (5000, yes_attempt) ∷ []) empty_table
      (Perm.swap (6000, no_attempt) (5000, yes_attempt) []) ((refl, refl), ((refl, refl), tt)) tt

-- Core lists the later vote: the receipt of unknown outcome is confirmed with it.
abbrev pub reading : Reading
reading = record { fresh = true; grace = 600000; started_at = 700000; now = 800000 }

abbrev pub later_vote : ChainVote
later_vote = record {
  vote_hash = codes "1f";
  vote = record {
    collateral_hash = hash_a;
    collateral_index = 0;
    vote_time = pos 300;
    vote_outcome = vote_yes;
    vote_signal = funding;
  };
}

abbrev pub resolved : Receipt
resolved = set_confirmed later_vote (some (codes "superseded_by_later_vote")) 800000 unknown_receipt

reconcile_unfolded : Unit {0}
unfolding lookup reconcile_for_proposal reconcile_listed list_by_proposal_stmt order_by transact
    run_change plan chain_vote plan_present plan_absent is_exact supersedes_intent selects rewrites
    unchanged same_key update_where count_where is_hex64 to_lower_case revise
reconcile_unfolded = tt

reconciles :
    lookup key_of key_a
      (reconcile_for_proposal reading
        (int (pos 1))
        (str hash_b)
        (some (later_vote ∷ []))
        one_unknown
        one_unknown).0.rows
    ≡ some resolved
unfolding reconcile_unfolded
reconciles = refl

reconcile-Revision_example :
    (x : Receipt) × (lookup key_of key_a one_unknown.rows ≡ some x)
    × Revision reading (later_vote ∷ []) x resolved
unfolding reconcile_unfolded
reconcile-Revision_example =
    reconcile-Revision reading 0 hash_b (later_vote ∷ []) one_unknown one_unknown key_a resolved
      (refl, tt) refl reconciles

lookup-reconcile_for_proposal_example :
    lookup key_of key_a
      (reconcile_for_proposal reading
        (int (pos 1))
        (str hash_b)
        (some (later_vote ∷ []))
        one_unknown
        one_unknown).0.rows
    ≡ some (revise reading (later_vote ∷ []) (some unknown_receipt) unknown_receipt)
unfolding reconcile_unfolded
lookup-reconcile_for_proposal_example =
    lookup-reconcile_for_proposal reading 0 hash_b (later_vote ∷ []) one_unknown one_unknown key_a
      (refl, tt) refl

-- A newer request was stored while Core was asked: the table then has the yes vote of time 400.
abbrev pub newer_receipt : Receipt
newer_receipt = record unknown_receipt {
  vote_outcome = vote_yes;
  vote_time = pos 400;
  status = relayed;
}

abbrev pub one_newer : Table
one_newer = record { rows = newer_receipt ∷ []; next_id = 2 }

reconcile_keeps_newer_example :
    lookup key_of key_a
      (reconcile_for_proposal reading
        (int (pos 1))
        (str hash_b)
        (some (later_vote ∷ []))
        one_unknown
        one_newer).0.rows
    ≡ some newer_receipt
unfolding reconcile_unfolded
reconcile_keeps_newer_example =
    reconcile_keeps_newer reading 0 hash_b (later_vote ∷ []) one_unknown one_newer key_a
      unknown_receipt newer_receipt (refl, tt) refl refl refl
      (inr (inr (inr (inr λ e. ground arith))))

decide_receipt_iff_example :
    (relays (decide_receipt default_windows 2000 vote_yes funding (some unknown_receipt)) ≡ false)
    ↔ ((r : Receipt) × (some unknown_receipt ≡ some r)
        × ((r.status ≡ submission_unknown) ⊎ Covers default_windows 2000 vote_yes funding r))
decide_receipt_iff_example =
    decide_receipt_iff default_windows 2000 vote_yes funding (some unknown_receipt)

abbrev pub small_vote : Vote
small_vote = record {
  collateral_hash = hash_a;
  collateral_index = 3;
  vote_time = pos 1700000000;
  vote_outcome = vote_no;
  vote_signal = funding;
}

parse_vote_string-print_vote_example :
    parse_vote_string (str (print_vote small_vote)) ≡ some small_vote
unfolding is_lower_hex64
parse_vote_string-print_vote_example =
    parse_vote_string-print_vote small_vote (record { hash = refl; index = omega arith })
      (omega arith)

parse_vote_string-IsWellFormed_example : IsWellFormed small_vote
parse_vote_string-IsWellFormed_example =
    parse_vote_string-IsWellFormed (str (print_vote small_vote)) small_vote
      parse_vote_string-print_vote_example
