-- ===== src/Submissions/Transitions.antt =====
-- lib/proposalSubmissions.js: the transitions. Each reads the table and then writes it; another
-- process may write in between, so the table that is read and the table that is written are two
-- arguments. An operation returns the new table with its result; `none` is null.
use sysnode_backend.Base.{
  ℕ, Bool, true, false, not, ◌&&◌, ◌||◌, Option, none, some, List, [], ◌∷◌, ◌==◌, if◌then◌else◌,
  Text, length, is_hex64, to_lower_case,
}
use sysnode_backend.Js.{Js, hash_of, non_negative_integer}
use sysnode_backend.Results.{Result, ok, err}
use sysnode_backend.Rows.{update_where, delete_where, count_where}
use sysnode_backend.Submissions.Types.{
  Status, prepared, awaiting_collateral, submitted, failed, same_status, Submission, Table,
  SubmissionError, txid_invalid, status_not_prepared, txid_already_used, confs_invalid,
  governance_hash_invalid, status_not_awaiting, governance_hash_clash, reason_required,
  status_terminal, by_id, by_id_for_user, by_txid, by_governance_hash, has_text,
}

abbrev pub Returns : Type 0
Returns = Table × Result SubmissionError (Option Submission)

-- Some row of another id satisfies the test: the UNIQUE index refuses the write.
abbrev pub taken : ℕ → (Submission → Bool) → List Submission → Bool
taken id p [] = false
taken id p (r ∷ rs) = (not (r.id == id) && p r) || taken id p rs

-- `row IN status` of a statement's WHERE clause.
abbrev pub at_status : ℕ → Status → Submission → Bool
at_status id s r = r.id == id && same_status r.status s

abbrev pub to_awaiting : Text → ℕ → Submission → Submission
to_awaiting txid now r = record r {
  status = awaiting_collateral;
  collateral_txid = some txid;
  updated_at = now;
}

-- The UPDATE of `attachCollateral` and what follows it: the row is found by its primary key, and the
-- rest of the WHERE clause is tested on it.
unfoldable pub attach_write : ℕ → ℕ → Text → ℕ → Table → Returns
attach_write id user txid now t = elim (by_id_for_user id user t.rows) [
  | none ↦ (t, ok none)
  | some r ↦
      if same_status r.status prepared
      then (if taken id (λ x. has_text txid x.collateral_txid) t.rows
          then (t, err txid_already_used)
          else (
            record t { rows = update_where (λ x. x.id == id) (to_awaiting txid now) t.rows },
            ok (some (to_awaiting txid now r)),
          ))
      else (t, err status_not_prepared)
]

-- `attachCollateral`: prepared → awaiting_collateral.
unfoldable pub attach_collateral : ℕ → ℕ → Js → ℕ → (before at_write : Table) → Returns
attach_collateral id user txid now before t = elim (hash_of txid) [
  | none ↦ (t, err txid_invalid)
  | some hash ↦ elim (by_id_for_user id user before.rows) [
    | none ↦ (t, ok none)
    | some existing ↦
        if same_status existing.status prepared
        then elim (by_txid (to_lower_case hash) before.rows) [
          | some clash ↦ (t, err txid_already_used)
          | none ↦ attach_write id user (to_lower_case hash) now t
        ]
        else (t, err status_not_prepared)
  ]
]

abbrev pub with_confs : ℕ → ℕ → Submission → Submission
with_confs confs now r = record r { collateral_confs = confs; updated_at = now }

-- `updateConfirmations`: whatever the status.
unfoldable pub update_confirmations : ℕ → Js → ℕ → Table → Returns
update_confirmations id confs now t = elim (non_negative_integer confs) [
  | none ↦ (t, err confs_invalid)
  | some n ↦
      let rows = update_where (λ r. r.id == id) (with_confs n now) t.rows in
      (record t { rows = rows }, ok (by_id id rows))
]

abbrev pub to_submitted : Text → ℕ → Submission → Submission
to_submitted hash now r = record r {
  status = submitted;
  governance_hash = some hash;
  updated_at = now;
}

-- The UPDATE of `markSubmitted` and what follows it.
unfoldable pub submit_write : ℕ → Text → ℕ → Table → Returns
submit_write id hash now t = elim (by_id id t.rows) [
  | none ↦ (t, ok none)
  | some r ↦
      if same_status r.status awaiting_collateral
      then (if taken id (λ x. has_text hash x.governance_hash) t.rows
          then (t, err governance_hash_clash)
          else (
            record t { rows = update_where (λ x. x.id == id) (to_submitted hash now) t.rows },
            ok (some (to_submitted hash now r)),
          ))
      else (t, ok none)
]

-- `clash && clash.id !== id`
abbrev pub clashes : ℕ → Option Submission → Bool
clashes id none = false
clashes id (some r) = not (r.id == id)

-- `markSubmitted`: awaiting_collateral → submitted.
unfoldable pub mark_submitted : ℕ → Text → ℕ → (before at_write : Table) → Returns
mark_submitted id hash now before t =
    if is_hex64 hash
    then elim (by_id id before.rows) [
      | none ↦ (t, ok none)
      | some row ↦
          if same_status row.status awaiting_collateral
          then (if clashes id (by_governance_hash (to_lower_case hash) before.rows)
              then (t, err governance_hash_clash)
              else submit_write id (to_lower_case hash) now t)
          else (t, err status_not_awaiting)
    ]
    else (t, err governance_hash_invalid)

abbrev pub is_terminal : Status → Bool
is_terminal submitted = true
is_terminal failed = true
is_terminal _ = false

abbrev pub to_failed : Text → Option Text → ℕ → Submission → Submission
to_failed reason detail now r = record r {
  status = failed;
  fail_reason = some reason;
  fail_detail = detail;
  updated_at = now;
}

-- The UPDATE of `markFailed` and what follows it.
unfoldable pub fail_write : ℕ → Text → Option Text → ℕ → Table → Returns
fail_write id reason detail now t = elim (by_id id t.rows) [
  | none ↦ (t, ok none)
  | some r ↦ if is_terminal r.status then (t, ok none) else (
    record t { rows = update_where (λ x. x.id == id) (to_failed reason detail now) t.rows },
    ok (some (to_failed reason detail now r)),
  )
]

-- `markFailed`: any non-terminal state → failed.
unfoldable pub mark_failed : ℕ → Text → Option Text → ℕ → (before at_write : Table) → Returns
mark_failed id reason detail now before t =
    if length reason == 0 then (t, err reason_required) else elim (by_id id before.rows) [
      | none ↦ (t, ok none)
      | some row ↦
          if is_terminal row.status
          then (t, err status_terminal)
          else fail_write id reason detail now t
    ]

-- `status IN ('prepared', 'failed')`
abbrev pub is_removable : Status → Bool
is_removable prepared = true
is_removable failed = true
is_removable _ = false

abbrev pub removes : ℕ → ℕ → Submission → Bool
removes id user r = r.id == id && r.content.user_id == user && is_removable r.status

-- `remove`: the new table and the number of rows deleted.
unfoldable pub remove : ℕ → ℕ → Table → Table × ℕ
remove id user t = (
  record t { rows = delete_where (removes id user) t.rows },
  count_where (removes id user) t.rows,
)

-- What the deletion of a draft does to the rows that were made from it, by the foreign key of
-- db/migrations/001_init.sql: ON DELETE SET NULL.
abbrev pub has_draft : ℕ → Submission → Bool
has_draft draft r = elim r.draft_id [ none ↦ false | some d ↦ d == draft ]

abbrev pub without_draft : Submission → Submission
without_draft r = record r { draft_id = none }

unfoldable pub unlink_draft : ℕ → Table → Table
unlink_draft draft t = record t { rows = update_where (has_draft draft) without_draft t.rows }
