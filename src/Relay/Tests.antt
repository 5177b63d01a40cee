-- ===== src/Relay/Tests.antt =====
-- lib/gov.js: runs of the model on small inputs.
use sysnode_backend.Base.{
  ℕ, ◌≡◌, ◌↔◌, ◌⊎◌, ◌+◌, List, ap, All, refl, true, false, some, [], ◌∷◌, codes, to_lower_case,
  includes,
}
use mathlib.Core.List.Perm
use sysnode_backend.Rows.{lookup}
use sysnode_backend.Receipts.Types.{vote_yes, funding, failed}
use sysnode_backend.Receipts.Table.{key_of, key_eq, same_key, Attempt}
use sysnode_backend.Receipts.Decide.{default_windows, relay_new}
use sysnode_backend.Receipts.Tests.{
  hash_a, hash_b, key_a, yes_attempt, one_unknown, unknown_receipt, empty_table,
}
use sysnode_backend.Relay.Codes.{classify_rpc_error, is_duplicate_vote_code}
use sysnode_backend.Relay.Visit.{
  Request, Entry, Refusal, voted, refused, Visit, decided, visit, calls_core, relay_entry,
  after_reply, refused_with,
}
use sysnode_backend.Relay.Batch.{Moment, own, foreign, relay_votes}
use sysnode_backend.Relay.Safety.{relay_votes-counts, skips, visit-ok}
use sysnode_backend.Relay.Writes.{
  Justifies, visit-Justifies, own_writes, LeavesRow, relay_votes-unknown,
}
use sysnode_backend.Receipts.Upsert.{upsert_stmt}
use sysnode_backend.Receipts.Upsert.Store.{lookup-upsert_stmt}

abbrev pub request : Request
request = record {
  user_id = 1;
  proposal_hash = hash_b;
  vote_outcome = vote_yes;
  vote_signal = funding;
  time = 300;
}

-- Core refuses the vote as a duplicate.
abbrev pub duplicate : Refusal
duplicate = record {
  message = codes "already known valid vote";
  not_submitted = false;
  uncertain = false;
  definite_core_rejection = true;
}

abbrev pub entry_a : Entry
entry_a = record { collateral_hash = hash_a; collateral_index = 0; vote_sig = codes "c2ln" }

abbrev pub entry_b : Entry
entry_b = record { collateral_hash = hash_b; collateral_index = 1; vote_sig = codes "c2ln" }

abbrev pub accepted_visit : Visit
accepted_visit = record {
  entry = entry_a;
  readable = true;
  aborted = false;
  reply = voted;
  stores = true;
  at = 9000;
}

abbrev pub duplicate_visit : Visit
duplicate_visit = record {
  entry = entry_b;
  readable = true;
  aborted = false;
  reply = refused duplicate;
  stores = true;
  at = 9500;
}

duplicate_writes :
    (visit (decided relay_new) duplicate_visit).0 ≡ some (failed, some (codes "already_voted"))
unfolding visit relay_entry after_reply refused_with classify_rpc_error is_duplicate_vote_code
    includes to_lower_case
duplicate_writes = refl

visit-Justifies_example :
    (calls_core (decided relay_new) duplicate_visit ≡ true)
    × Justifies (decided relay_new) (refused duplicate) failed
visit-Justifies_example =
    visit-Justifies (decided relay_new) duplicate_visit failed (some (codes "already_voted"))
      duplicate_writes

visit-ok_example : ((visit (decided relay_new) accepted_visit).1.ok ≡ true) ↔ (
    ((calls_core (decided relay_new) accepted_visit ≡ true) × (voted ≡ voted))
    ⊎ (skips (decided relay_new) ≡ true))
visit-ok_example = visit-ok (decided relay_new) accepted_visit

-- Another user's vote of the same masternode is stored once the batch has written.
abbrev pub foreign_attempt : Attempt
foreign_attempt = record yes_attempt { key = record key_a { user_id = 2 } }

unfoldable interleaved : List (ℕ × Attempt) → List Moment
interleaved [] = foreign (upsert_stmt foreign_attempt 9900) ∷ []
interleaved (c ∷ ws) = own c ∷ interleaved ws

own_writes-interleaved : (ws : List (ℕ × Attempt)) → own_writes (interleaved ws) ≡ ws
unfolding interleaved
own_writes-interleaved [] = refl
own_writes-interleaved (c ∷ ws) = ap (◌∷◌ c) (own_writes-interleaved ws)

interleaved-LeavesRow : (ws : List (ℕ × Attempt)) → All (LeavesRow key_a) (interleaved ws)
unfolding interleaved same_key
interleaved-LeavesRow [] = (λ u. lookup-upsert_stmt foreign_attempt 9900 u key_a, tt)
interleaved-LeavesRow (c ∷ ws) = (tt, interleaved-LeavesRow ws)

relay_votes-counts_example :
    let r =
      (relay_votes true default_windows 8000 request interleaved
        (accepted_visit ∷ duplicate_visit ∷ [])
        empty_table).1 in
    r.accepted + r.rejected + r.unknown + r.not_submitted ≡ 2
relay_votes-counts_example =
    relay_votes-counts true default_windows 8000 request interleaved
      (accepted_visit ∷ duplicate_visit ∷ []) empty_table

relay_votes-unknown_example :
    lookup key_of key_a
      (relay_votes true default_windows 8000 request interleaved
        (accepted_visit ∷ duplicate_visit ∷ [])
        one_unknown).0.rows
    ≡ some unknown_receipt
unfolding lookup same_key
relay_votes-unknown_example =
    relay_votes-unknown default_windows 8000 request interleaved
      (accepted_visit ∷ duplicate_visit ∷ []) one_unknown key_a unknown_receipt
      (λ ws. rw (own_writes-interleaved ws) (Perm.refl ws)) interleaved-LeavesRow refl refl
