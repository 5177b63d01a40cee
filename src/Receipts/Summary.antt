-- ===== src/Receipts/Summary.antt =====
-- lib/voteReceipts.js: `summaryForUser`, one line for each proposal with a receipt of the user.
use sysnode_backend.Base.{
  ℕ, Bool, true, false, not, ◌&&◌, Option, none, some, List, [], ◌∷◌, ltb, ◌==◌, if◌then◌else◌,
  Text, same_text, filter, map, length,
}
use sysnode_backend.Js.{Js, positive_integer}
use sysnode_backend.Rows.{count_where}
use sysnode_backend.Rows.Sorted.{order_by}
use sysnode_backend.Receipts.Types.{
  Outcome, vote_yes, vote_no, vote_abstain, Status, relayed, confirmed, stale, failed,
  submission_unknown,
}
use sysnode_backend.Receipts.Table.{Receipt, Table}
use sysnode_backend.Receipts.Queries.{of_proposal}

pub record Summary : Type 0 where
  pub proposal_hash : Text
  pub total : ℕ
  pub relayed : ℕ
  pub confirmed : ℕ
  pub stale : ℕ
  pub failed : ℕ
  pub unknown : ℕ
  pub confirmed_yes : ℕ
  pub confirmed_no : ℕ
  pub confirmed_abstain : ℕ
  pub latest_submitted_at : ℕ
  pub latest_verified_at : Option ℕ

abbrev pub is_relayed : Status → Bool
is_relayed relayed = true
is_relayed _ = false

abbrev pub is_confirmed : Status → Bool
is_confirmed confirmed = true
is_confirmed _ = false

abbrev pub is_stale : Status → Bool
is_stale stale = true
is_stale _ = false

abbrev pub is_failed : Status → Bool
is_failed failed = true
is_failed _ = false

abbrev pub is_unknown : Status → Bool
is_unknown submission_unknown = true
is_unknown _ = false

abbrev pub is_yes : Outcome → Bool
is_yes vote_yes = true
is_yes _ = false

abbrev pub is_no : Outcome → Bool
is_no vote_no = true
is_no _ = false

abbrev pub is_abstain : Outcome → Bool
is_abstain vote_abstain = true
is_abstain _ = false

abbrev pub later : ℕ → ℕ → ℕ
later a b = if ltb a b then b else a

unfoldable pub latest_submitted : List Receipt → ℕ
latest_submitted [] = 0
latest_submitted (r ∷ rs) = later r.submitted_at (latest_submitted rs)

abbrev pub later_option : Option ℕ → Option ℕ → Option ℕ
later_option none b = b
later_option (some a) none = some a
later_option (some a) (some b) = some (later a b)

-- MAX leaves NULL out.
unfoldable pub latest_verified : List Receipt → Option ℕ
latest_verified [] = none
latest_verified (r ∷ rs) = later_option r.verified_at (latest_verified rs)

unfoldable pub summarize : Text → List Receipt → Summary
unfolding latest_submitted latest_verified
summarize proposal rs = record {
  proposal_hash = proposal;
  total = length rs;
  relayed = count_where (λ r. is_relayed r.status) rs;
  confirmed = count_where (λ r. is_confirmed r.status) rs;
  stale = count_where (λ r. is_stale r.status) rs;
  failed = count_where (λ r. is_failed r.status) rs;
  unknown = count_where (λ r. is_unknown r.status) rs;
  confirmed_yes = count_where (λ r. is_confirmed r.status && is_yes r.vote_outcome) rs;
  confirmed_no = count_where (λ r. is_confirmed r.status && is_no r.vote_outcome) rs;
  confirmed_abstain = count_where (λ r. is_confirmed r.status && is_abstain r.vote_outcome) rs;
  latest_submitted_at = latest_submitted rs;
  latest_verified_at = latest_verified rs;
}

-- The proposals of the user's receipts, each once.
unfoldable pub proposals_of : ℕ → List Receipt → List Text
proposals_of user [] = []
proposals_of user (r ∷ rs) =
    let rest = proposals_of user rs in
    if r.key.user_id == user
    then r.key.proposal_hash ∷ filter (λ h. not (same_text h r.key.proposal_hash)) rest
    else rest

abbrev pub latest_first : Summary → Summary → Bool
latest_first a b = ltb b.latest_submitted_at a.latest_submitted_at

unfoldable pub summary_stmt : ℕ → List Receipt → List Summary
unfolding proposals_of summarize
summary_stmt user rows =
    order_by latest_first
      (map (λ h. summarize h (filter (of_proposal user h) rows)) (proposals_of user rows))

unfoldable pub summary_for_user : Js → Table → List Summary
unfolding summary_stmt
summary_for_user user t = elim (positive_integer user) [
  | none ↦ []
  | some user_id ↦ summary_stmt user_id t.rows
]
