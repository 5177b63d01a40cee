-- ===== src/Receipts/Reconcile.antt =====
-- lib/voteReceipts.js: `reconcileForProposal`. Between its read of the receipts and its transaction
-- it awaits Core, so the rows that it reads and the table that it writes are two arguments.
pub mod Pointwise
pub mod Guarantees
pub mod Plan
pub mod Resolution
use sysnode_backend.Base.{
  ℕ, zero, suc, ◌+◌, Bool, true, false, not, ◌&&◌, ◌||◌, Option, none, some, List, [], ◌∷◌, ltb,
  ◌==◌, if◌then◌else◌, Text, codes, to_lower_case, same_text, ltb_ℤ, eqb_ℤ,
}
use sysnode_backend.Js.{Js, hash_of, positive_integer}
use sysnode_backend.Results.{Result, ok, err}
use sysnode_backend.Rows.{update_where, count_where}
use sysnode_backend.Receipts.Types.{
  Outcome, Signal, Status, relayed, confirmed, stale, failed, submission_unknown,
}
use sysnode_backend.Receipts.Parse.{ChainVote}
use sysnode_backend.Receipts.Table.{ReceiptKey, same_key, Receipt, Table}
use sysnode_backend.Receipts.Upsert.{outcome_order, same_outcome, same_signal}
use sysnode_backend.Receipts.Queries.{list_by_proposal_stmt}

abbrev pub status_number : Status → ℕ
status_number relayed = 0
status_number confirmed = 1
status_number stale = 2
status_number failed = 3
status_number submission_unknown = 4

abbrev pub same_status : Status → Status → Bool
same_status a b = status_number a == status_number b

unfoldable pub supersedes_intent : ChainVote → Receipt → Bool
supersedes_intent v r =
    ltb_ℤ r.vote_time v.vote_time
    || (eqb_ℤ v.vote_time r.vote_time
        && ltb (outcome_order r.vote_outcome) (outcome_order v.vote_outcome))

-- The chain's vote has the time and the outcome of the receipt.
unfoldable pub is_exact : ChainVote → Receipt → Bool
is_exact v r = eqb_ℤ v.vote_time r.vote_time && same_outcome v.vote_outcome r.vote_outcome

-- `${hash}:${index}:${signal}` of a vote and of a receipt.
abbrev pub same_slot : ChainVote → Receipt → Bool
same_slot v r =
    same_text v.collateral_hash r.key.collateral_hash
    && v.collateral_index == r.key.collateral_index
    && same_signal v.vote_signal r.vote_signal

-- `byKey.get(key)`: of votes under one key the last was set.
unfoldable pub chain_vote : List ChainVote → Receipt → Option ChainVote
chain_vote [] r = none
chain_vote (v ∷ vs) r = elim (chain_vote vs r) [
  | some u ↦ some u
  | none ↦ if same_slot v r then some v else none
]

-- What the loop does with one receipt: nothing, `markStaleStmt` with the cutoff `base - grace`, or
-- `markReconciledStmt` with the chain's vote, an error text and the time of verification.
pub data Change : Type 0 where
  leave : Change
  turn_stale : ℕ → Change
  adopt : ChainVote → Option Text → ℕ → Change

pub record Reading : Type 0 where
  pub fresh : Bool
  pub grace : ℕ
  pub started_at : ℕ
  pub now : ℕ

unfoldable pub plan_absent : Reading → Receipt → Status → Change
plan_absent d r submission_unknown =
    if d.fresh && ltb (r.submitted_at + d.grace) d.started_at
    then turn_stale d.started_at
    else leave
plan_absent d r failed = leave
plan_absent d r stale = leave
plan_absent d r confirmed = leave
plan_absent d r relayed = if ltb (r.submitted_at + d.grace) d.now then turn_stale d.now else leave

unfoldable pub plan_present : Reading → Receipt → ChainVote → Status → Change
plan_present d r v submission_unknown =
    if is_exact v r || supersedes_intent v r
    then adopt v (if supersedes_intent v r then some (codes "superseded_by_later_vote") else none)
        d.now
    else plan_absent d r submission_unknown
plan_present d r v s = adopt v none d.now

unfoldable pub plan : Reading → Receipt → Option ChainVote → Change
plan d r none = plan_absent d r r.status
plan d r (some v) = plan_present d r v r.status

-- The compare-and-swap of both statements: the row is still what was read.
unfoldable pub unchanged : Receipt → Receipt → Bool
unchanged r x =
    same_key x.key r.key
    && eqb_ℤ x.vote_time r.vote_time
    && same_outcome x.vote_outcome r.vote_outcome
    && same_signal x.vote_signal r.vote_signal
    && x.submitted_at == r.submitted_at
    && same_status x.status r.status

abbrev pub set_stale : Receipt → Receipt
set_stale x = record x { status = stale }

abbrev pub set_confirmed : ChainVote → Option Text → ℕ → Receipt → Receipt
set_confirmed v e t x = record x {
  vote_outcome = v.vote_outcome;
  vote_signal = v.vote_signal;
  vote_time = v.vote_time;
  status = confirmed;
  last_error = e;
  verified_at = some t;
}

-- Which rows a change selects, and what it makes of them.
unfoldable pub selects : ℕ → Receipt → Change → Receipt → Bool
selects grace r leave x = false
selects grace r (turn_stale base) x = unchanged r x && ltb (x.submitted_at + grace) base
selects grace r (adopt v e t) x = unchanged r x

unfoldable pub rewrites : Change → Receipt → Receipt
rewrites leave x = x
rewrites (turn_stale base) x = set_stale x
rewrites (adopt v e t) x = set_confirmed v e t x

unfoldable pub run_change : ℕ → Receipt → Change → List Receipt × ℕ → List Receipt × ℕ
run_change grace r c (rows, updated) = (
  update_where (selects grace r c) (rewrites c) rows,
  updated + count_where (selects grace r c) rows,
)

-- The transaction.
unfoldable pub transact :
    Reading → List ChainVote → List Receipt → List Receipt × ℕ → List Receipt × ℕ
transact d votes [] state = state
transact d votes (r ∷ rs) state =
    transact d votes rs (run_change d.grace r (plan d r (chain_vote votes r)) state)

pub data ReconcileError : Type 0 where
  invalid_user_id invalid_proposal_hash reconcile_rpc_failed : ReconcileError

pub record Reconciled : Type 0 where
  pub updated : ℕ
  pub receipts : List Receipt

-- From the receipts that were read: an empty list returns before Core is asked, and a failed call
-- of `getCurrentVotes` (`none`) leaves the table alone.
unfoldable pub reconcile_listed :
    Reading
    → ℕ
    → Text
    → List Receipt
    → Option (List ChainVote)
    → Table
    → Table × Result ReconcileError Reconciled
reconcile_listed d user proposal [] votes t = (t, ok (record { updated = 0; receipts = [] }))
reconcile_listed d user proposal (r ∷ rs) none t = (t, err reconcile_rpc_failed)
reconcile_listed d user proposal (r ∷ rs) (some votes) t =
    let (rows, updated) = transact d votes (r ∷ rs) (t.rows, 0) in
    (
      record t { rows = rows },
      ok (record { updated = updated; receipts = list_by_proposal_stmt user proposal rows }),
    )

unfoldable pub reconcile_for_proposal :
    Reading
    → Js
    → Js
    → Option (List ChainVote)
    → (before at_commit : Table) → Table × Result ReconcileError Reconciled
reconcile_for_proposal d user hash votes before t = elim (positive_integer user) [
  | none ↦ (t, err invalid_user_id)
  | some user_id ↦ elim (hash_of hash) [
    | none ↦ (t, err invalid_proposal_hash)
    | some proposal ↦
        reconcile_listed d user_id (to_lower_case proposal)
          (list_by_proposal_stmt user_id (to_lower_case proposal) before.rows) votes t
  ]
]
