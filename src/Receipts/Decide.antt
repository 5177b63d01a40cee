-- ===== src/Receipts/Decide.antt =====
-- lib/voteReceipts.js: `decideRelay`.
pub mod Safety
use sysnode_backend.Base.{
  ℕ, ◌+◌, ◌-◌, Bool, true, false, not, ◌&&◌, Option, none, some, ltb, leb, if◌then◌else◌, Text,
  ◌==◌,
}
use sysnode_backend.Js.{Js}
use sysnode_backend.Receipts.Types.{
  Outcome, vote_none, vote_yes, vote_no, vote_abstain, Signal, Status, relayed, confirmed, stale,
  failed, submission_unknown,
}
use sysnode_backend.Receipts.Table.{Receipt, Table}
use sysnode_backend.Receipts.Upsert.{same_outcome, same_signal}
use sysnode_backend.Receipts.Queries.{get_by_outpoint}

-- The repository's options.
pub record Windows : Type 0 where
  pub stale_grace_ms : ℕ
  pub recent_relay_ms : ℕ
  pub confirmed_skip_freshness_ms : ℕ

abbrev pub default_windows : Windows
default_windows = record {
  stale_grace_ms = 600000;
  recent_relay_ms = 60000;
  confirmed_skip_freshness_ms = 300000;
}

pub data Decision : Type 0 where
  relay_new : Decision
  relay_again stale_confirmed : Receipt → Decision
  hold already_on_chain recently_relayed : Receipt → Decision

-- `now() - since` lies in [0, window)
abbrev pub within : ℕ → ℕ → ℕ → Bool
within now since window = leb since now && ltb (now - since) window

-- `Number.isInteger(verifiedAt) ? verifiedAt : 0`, and fresh
abbrev pub is_fresh : Windows → ℕ → Option ℕ → Bool
is_fresh w now none = false
is_fresh w now (some at) = ltb 0 at && within now at w.confirmed_skip_freshness_ms

unfoldable pub decide_same_vote : Windows → ℕ → Receipt → Status → Decision
decide_same_vote w now r confirmed =
    if is_fresh w now r.verified_at then already_on_chain r else stale_confirmed r
decide_same_vote w now r relayed =
    if within now r.submitted_at w.recent_relay_ms then recently_relayed r else relay_again r
decide_same_vote w now r _ = relay_again r

unfoldable pub decide_existing : Windows → ℕ → Outcome → Signal → Receipt → Status → Decision
unfolding decide_same_vote
decide_existing w now outcome signal r submission_unknown = hold r
decide_existing w now outcome signal r s =
    if same_outcome r.vote_outcome outcome && same_signal r.vote_signal signal
    then decide_same_vote w now r s
    else relay_again r

unfoldable pub decide_receipt : Windows → ℕ → Outcome → Signal → Option Receipt → Decision
unfolding decide_existing
decide_receipt w now outcome signal none = relay_new
decide_receipt w now outcome signal (some r) = decide_existing w now outcome signal r r.status

unfoldable pub decide_relay : Windows → ℕ → Js → Js → Js → Js → Outcome → Signal → Table → Decision
unfolding decide_receipt
decide_relay w now user hash index proposal outcome signal t =
    decide_receipt w now outcome signal (get_by_outpoint user hash index proposal t)
