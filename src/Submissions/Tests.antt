-- ===== src/Submissions/Tests.antt =====
-- lib/proposalSubmissions.js: runs of the model on small inputs.
use sysnode_backend.Base.{
  ◌≡◌, ◌≢◌, refl, none, some, [], ◌∷◌, codes, pos, arith, is_hex64, to_lower_case,
}
use sysnode_backend.Results.{ok}
use sysnode_backend.Rows.{lookup, update_where}
use sysnode_backend.Submissions.Types.{awaiting_collateral, Content, Submission, Table}
use sysnode_backend.Submissions.Transitions.{
  mark_submitted, submit_write, to_submitted, remove, unlink_draft,
}
use sysnode_backend.Submissions.Machine.{submits, deletes, unlinks, here, next, Moves}
use sysnode_backend.Submissions.Machine.Reads.{Valid, Step-Moves, Step-Valid}
use sysnode_backend.Submissions.Machine.Reachable.{Kept, Reach-Kept}
use sysnode_backend.Submissions.Machine.Winners.{mark_submitted-once}
use sysnode_backend.Receipts.Tests.{hash_a, hash_b}

abbrev pub proposal : Content
proposal = record {
  user_id = 1;
  parent_hash = codes "0";
  revision = pos 1;
  time_unix = 1700000000;
  data_hex = codes "7b7d";
  proposal_hash = hash_b;
  title = codes "Fund";
  name = codes "fund";
  url = codes "https://x.org";
  payment_address = codes "sys1q";
  payment_amount_sats = 100;
  payment_count = pos 1;
  start_epoch = pos 10;
  end_epoch = pos 20;
  created_at = 1000;
}

abbrev pub waiting : Submission
waiting = record {
  id = 1;
  content = proposal;
  draft_id = some 5;
  status = awaiting_collateral;
  collateral_txid = some hash_a;
  collateral_confs = 0;
  governance_hash = none;
  fail_reason = none;
  fail_detail = none;
  updated_at = 2000;
}

abbrev pub one_waiting : Table
one_waiting = record { rows = waiting ∷ []; next_id = 2 }

waiting-Valid : Valid one_waiting
unfolding lookup
waiting-Valid = ((refl, tt), λ j l. ground arith)

-- The first worker that promotes the row is told so, the second is refused.
promoted :
    (mark_submitted 1 hash_b 3000 one_waiting one_waiting).1
    ≡ ok (some (to_submitted hash_b 3000 waiting))
unfolding mark_submitted submit_write lookup is_hex64 to_lower_case
promoted = refl

refused_again :
    (mark_submitted 1 hash_b 3000 one_waiting
      (mark_submitted 1 hash_b 3000 one_waiting one_waiting).0).1
    ≡ ok none
unfolding mark_submitted submit_write lookup update_where is_hex64 to_lower_case
refused_again = refl

abbrev pub one_promoted : Table
one_promoted = (mark_submitted 1 hash_b 3000 one_waiting one_waiting).0

mark_submitted-once_example :
    (mark_submitted 1 hash_b 4000 one_waiting one_promoted).1
    ≢ ok (some (to_submitted hash_b 4000 waiting))
mark_submitted-once_example =
    mark_submitted-once 1 hash_b hash_b 3000 4000 one_waiting one_waiting one_waiting one_promoted
      (to_submitted hash_b 3000 waiting) (to_submitted hash_b 4000 waiting)
      (Step-Valid (submits 1 hash_b 3000 one_waiting) waiting-Valid) promoted here

-- The draft is deleted, a worker promotes the row, and its user tries to remove it.
Reach-Kept_example :
    Kept 1 waiting
      (remove 1 1 (mark_submitted 1 hash_b 3000 one_waiting (unlink_draft 5 one_waiting)).0).0
unfolding lookup
Reach-Kept_example =
    Reach-Kept 1 waiting waiting-Valid refl
      (next (next (next here (unlinks 5)) (submits 1 hash_b 3000 one_waiting)) (deletes 1 1))

Step-Moves_example : Moves 1 waiting one_promoted
unfolding lookup
Step-Moves_example = Step-Moves 1 waiting waiting-Valid (submits 1 hash_b 3000 one_waiting) refl
