-- ===== src/Receipts/Types.antt =====
-- lib/voteReceipts.js: the closed sets of outcomes, signals and statuses.
pub data Outcome : Type 0 where
  vote_none vote_yes vote_no vote_abstain : Outcome

pub data Signal : Type 0 where
  funding valid delete endorsed : Signal

pub data Status : Type 0 where
  relayed confirmed stale failed submission_unknown : Status
