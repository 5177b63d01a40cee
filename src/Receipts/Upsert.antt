-- ===== src/Receipts/Upsert.antt =====
-- lib/voteReceipts.js: `upsert` and its conditional statement.
pub mod Order
pub mod Store
pub mod Completion
use sysnode_backend.Base.{
  ℕ, zero, suc, ◌+◌, Bool, true, false, ◌&&◌, ◌||◌, Option, none, some, List, [], ◌∷◌, ◌++◌, ltb,
  ◌==◌, if◌then◌else◌, ltb_ℤ, eqb_ℤ, pos, ℤ,
}
use sysnode_backend.Js.{Js}
use sysnode_backend.Results.{Result, ok, err, ◌>>=◌}
use sysnode_backend.Rows.{update_where, lookup}
use sysnode_backend.Receipts.Types.{
  Outcome, vote_none, vote_yes, vote_no, vote_abstain, Signal, funding, valid, delete, endorsed,
  Status, relayed, confirmed, stale, failed, submission_unknown,
}
use sysnode_backend.Receipts.Table.{
  ReceiptKey, same_key, key_eq, Receipt, key_of, Table, Attempt, InvalidInput,
  normalize_receipt_input,
}

-- CORE_OUTCOME_ORDER, and the CASE on vote_outcome.
abbrev pub outcome_order : Outcome → ℕ
outcome_order vote_none = 0
outcome_order vote_yes = 1
outcome_order vote_no = 2
outcome_order vote_abstain = 3

-- The CASE on status.
abbrev pub evidence : Status → ℕ
evidence confirmed = 4
evidence relayed = 3
evidence submission_unknown = 2
evidence stale = 1
evidence failed = 1

abbrev pub same_outcome : Outcome → Outcome → Bool
same_outcome a b = outcome_order a == outcome_order b

abbrev pub signal_number : Signal → ℕ
signal_number funding = 0
signal_number valid = 1
signal_number delete = 2
signal_number endorsed = 3

abbrev pub same_signal : Signal → Signal → Bool
same_signal a b = signal_number a == signal_number b

-- `status IN ('failed', 'stale')`
abbrev pub is_dead : Status → Bool
is_dead failed = true
is_dead stale = true
is_dead _ = false

-- The WHERE clause of the upsert: `a` is `excluded`, `r` the row in the table.
unfoldable pub accepts : Receipt → Attempt → Bool
accepts r a =
    let same_time = eqb_ℤ (pos a.vote_time) r.vote_time in
    ltb_ℤ r.vote_time (pos a.vote_time)
    || (same_time
        && same_outcome a.vote_outcome r.vote_outcome
        && same_signal a.vote_signal r.vote_signal
        && ltb (evidence r.status) (evidence a.status))
    || (same_time
        && same_signal a.vote_signal r.vote_signal
        && ltb (outcome_order r.vote_outcome) (outcome_order a.vote_outcome))
    || (same_time
        && same_outcome a.vote_outcome r.vote_outcome
        && same_signal a.vote_signal r.vote_signal
        && is_dead a.status
        && is_dead r.status)

-- The columns that DO UPDATE sets.
abbrev pub overwrite : Attempt → ℕ → Receipt → Receipt
overwrite a now r = record r {
  vote_outcome = a.vote_outcome;
  vote_signal = a.vote_signal;
  vote_time = pos a.vote_time;
  status = a.status;
  last_error = a.last_error;
  submitted_at = now;
  verified_at = none;
}

-- The inserted row.
abbrev pub fresh_row : Attempt → ℕ → ℕ → Receipt
fresh_row a now id = record {
  id = id;
  key = a.key;
  vote_outcome = a.vote_outcome;
  vote_signal = a.vote_signal;
  vote_time = pos a.vote_time;
  status = a.status;
  last_error = a.last_error;
  submitted_at = now;
  verified_at = none;
}

-- INSERT … ON CONFLICT … DO UPDATE … WHERE …
unfoldable pub upsert_stmt : Attempt → ℕ → Table → Table
upsert_stmt a now t = elim (lookup key_of a.key t.rows) [
  | none ↦ record { rows = t.rows ++ fresh_row a now t.next_id ∷ []; next_id = t.next_id + 1 }
  | some r ↦
      if accepts r a
      then record t { rows = update_where (λ x. same_key x.key a.key) (overwrite a now) t.rows }
      else t
]

-- `upsert(input)`: the new table and the row read back.
unfoldable pub upsert : Js → ℕ → Table → Result InvalidInput (Table × Option Receipt)
unfolding upsert_stmt
upsert input now t = do
  a ← normalize_receipt_input input
  let t' = upsert_stmt a now t
  ok (t', lookup key_of a.key t'.rows)
