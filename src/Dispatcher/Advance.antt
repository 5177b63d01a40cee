-- ===== src/Dispatcher/Advance.antt =====
-- lib/proposalDispatcher.js: `advance` and `tick`. Other workers may write the table while a call to
-- Core is awaited, and between the read and the write of a transition; the RPC calls are answers.
use sysnode_backend.Base.{
  ℕ, ◌+◌, ◌-◌, ◌*◌, ◌/◌, Bool, true, false, ◌&&◌, Option, none, some, List, [], ◌∷◌, ◌++◌, ◌==◌,
  ltb, if◌then◌else◌, Text, codes, ℤ, pos, negsuc, to_lower_case, trim, is_lower_hex64,
}
use sysnode_backend.Js.{Js, int, str}
use sysnode_backend.Results.{Result, ok, err}
use sysnode_backend.Receipts.Parse.Digits.{print_nat}
use sysnode_backend.Submissions.Types.{
  awaiting_collateral, same_status, Submission, Table, SubmissionError, governance_hash_clash,
  by_id, list_by_status,
}
use sysnode_backend.Submissions.Transitions.{
  Returns, update_confirmations, mark_submitted, mark_failed,
}
use sysnode_backend.Dispatcher.Errors.{
  is_terminal_core_error, is_duplicate_core_error, is_unknown_transaction,
}

pub record Options : Type 0 where
  pub required_confs : ℕ
  pub timeout_ms : ℕ

abbrev pub default_options : Options
default_options = record { required_confs = 6; timeout_ms = 604800000 }

-- The answer to `getRawTransaction`: the transaction, with its `confirmations` where Core reports
-- them, or the message of an error.
pub data TransactionAnswer : Type 0 where
  transaction : Option ℤ → TransactionAnswer
  transaction_error : Text → TransactionAnswer

-- The answer to `gObjectSubmit`: a value, or the message of an error.
pub data SubmitAnswer : Type 0 where
  returned : Js → SubmitAnswer
  rejected : Text → SubmitAnswer

-- What the process meets while it advances a row: Core's answers, the clock after each, and what the
-- other workers do to the table meanwhile.
pub record World : Type 0 where
  pub transaction_answer : TransactionAnswer
  pub fetched_at : ℕ
  pub while_fetching : Table → Table
  pub submit_answer : SubmitAnswer
  pub submitted_at : ℕ
  pub while_submitting : Table → Table
  pub while_marking : Table → Table
  pub while_failing : Table → Table

-- What is done outside the table: the call to Core, and the two hooks.
pub data Effect : Type 0 where
  gobject_submit :
      (parent_hash : Text) (revision : ℤ) (time_unix : ℕ) (data_hex collateral_txid : Text) → Effect
  on_submitted on_failed : Submission → Effect

abbrev pub Outcome : Type 0
Outcome = Table × List Effect

-- The hook is called where `markFailed` returned the row.
abbrev pub notify_failed : Returns → Outcome
notify_failed (t, ok (some r)) = (t, on_failed r ∷ [])
notify_failed (t, ok none) = (t, [])
notify_failed (t, err e) = (t, [])

unfoldable pub fail_row : ℕ → Text → Text → ℕ → World → Table → Outcome
fail_row id reason detail now w t =
    notify_failed (mark_failed id reason (some detail) now t (w.while_failing t))

-- `Math.round(waitedMs / MS_HOUR)`
abbrev pub hours : ℕ → ℕ
hours ms = (2 * ms + 3600000) / 7200000

unfoldable pub not_found_detail : Text → ℕ → Text
not_found_detail txid waited =
    codes "Collateral tx "
    ++ txid
    ++ codes " was not found after "
    ++ print_nat (hours waited)
    ++ codes "h."

-- The transaction could not be read: fail the row once the timeout has passed.
unfoldable pub fetch_failed : Options → Submission → Text → Text → World → Table → Outcome
fetch_failed opts row txid msg w t =
    if is_unknown_transaction msg && ltb (row.updated_at + opts.timeout_ms) w.fetched_at
    then fail_row row.id (codes "collateral_not_found")
        (not_found_detail txid (w.fetched_at - row.updated_at)) w.fetched_at w t
    else (t, [])

-- A missing count is 0, a negative one too.
abbrev pub confirmations : Option ℤ → ℕ
confirmations none = 0
confirmations (some (pos n)) = n
confirmations (some (negsuc n)) = 0

-- `err.code === 'governance_hash_clash'`
abbrev pub is_clash : SubmissionError → Bool
is_clash governance_hash_clash = true
is_clash _ = false

-- What follows `markSubmitted`: the hook, or a failure where another row has the hash.
unfoldable pub after_mark : ℕ → Text → World → Returns → Outcome
after_mark id clash_detail w (t, ok (some r)) = (t, on_submitted r ∷ [])
after_mark id clash_detail w (t, ok none) = (t, [])
after_mark id clash_detail w (t, err e) =
    if is_clash e
    then fail_row id (codes "duplicate_governance_hash") clash_detail w.submitted_at w t
    else (t, [])

unfoldable pub promote : ℕ → Text → Text → World → Table → Outcome
promote id hash clash_detail w t =
    after_mark id clash_detail w (mark_submitted id hash w.submitted_at t (w.while_marking t))

abbrev pub tracked_detail : Text
tracked_detail =
    codes
      "The on-chain governance object with this hash is already tracked by another submission row. Collateral has been consumed on-chain; the original row carries the live status."

abbrev pub accepted_detail : Text
accepted_detail =
    codes
      "Core accepted the submission and returned a governance hash that is already tracked by another submission row. Collateral has been consumed on-chain; the original row carries the live status."

-- Core refused the object.
unfoldable pub submit_failed : Submission → Text → World → Table → Outcome
submit_failed row msg w t =
    if is_terminal_core_error msg
    then fail_row row.id (codes "submit_rejected") msg w.submitted_at w t
    else if is_duplicate_core_error msg
    then promote row.id row.content.proposal_hash tracked_detail w t
    else (t, [])

-- `typeof govHash === 'string' ? govHash.toLowerCase().trim() : ''`
abbrev pub hash_text : Js → Text
hash_text (str s) = trim (to_lower_case s)
hash_text _ = []

unfoldable pub submit_returned : Submission → Js → World → Table → Outcome
submit_returned row v w t =
    if is_lower_hex64 (hash_text v)
    then promote row.id (hash_text v) accepted_detail w t
    else (t, [])

abbrev pub after_submit : Submission → World → SubmitAnswer → Table → Outcome
after_submit row w (returned v) t = submit_returned row v w t
after_submit row w (rejected msg) t = submit_failed row msg w t

abbrev pub perform : Effect → Outcome → Outcome
perform e (t, es) = (t, e ∷ es)

-- Call Core with the frozen snapshot, then deal with its answer.
unfoldable pub submit : Submission → Text → World → Table → Outcome
submit row txid w t =
    perform
      (gobject_submit row.content.parent_hash row.content.revision row.content.time_unix
        row.content.data_hex txid)
      (after_submit row w w.submit_answer (w.while_submitting t))

abbrev pub throws {ℓ κ} : {E : Type κ} {A : Type ℓ} → Result E A → Bool
throws (ok a) = false
throws (err e) = true

-- The table after the count was written, where it is a new one; none where the write threw.
unfoldable pub write_confs : Submission → ℕ → ℕ → Table → Option Table
write_confs row confs now t =
    if confs == row.collateral_confs
    then some t
    else (let write = update_confirmations row.id (int (pos confs)) now t in
        if throws write.1 then none else some write.0)

unfoldable pub advance_found : Options → Submission → Text → ℕ → World → Table → Outcome
advance_found opts row txid confs w t = elim (write_confs row confs w.fetched_at t) [
  | none ↦ (t, [])
  | some counted ↦
      if ltb confs opts.required_confs then (counted, []) else submit row txid w counted
]

abbrev pub after_fetch : Options → Submission → Text → World → TransactionAnswer → Table → Outcome
after_fetch opts row txid w (transaction c) t = advance_found opts row txid (confirmations c) w t
after_fetch opts row txid w (transaction_error msg) t = fetch_failed opts row txid msg w t

-- `if (!collateralTxid) return`, with the empty text
unfoldable pub advance : Options → Submission → World → Table → Outcome
advance opts row w t = elim row.collateral_txid [
  | none ↦ (t, [])
  | some [] ↦ (t, [])
  | some (c ∷ cs) ↦ after_fetch opts row (c ∷ cs) w w.transaction_answer (w.while_fetching t)
]

-- `after && after.status !== before`
abbrev pub has_moved : Submission → Option Submission → ℕ
has_moved row none = 0
has_moved row (some after) = if same_status after.status row.status then 0 else 1

-- The loop of `tick`: the table, the effects and the count of rows that moved.
unfoldable pub advance_all :
    Options → (ℕ → World) → List Submission → Table → Table × List Effect × ℕ
advance_all opts worlds [] t = (t, [], 0)
advance_all opts worlds (row ∷ rows) t =
    let one = advance opts row (worlds row.id) t in
    let rest = advance_all opts worlds rows one.0 in
    (rest.0, one.1 ++ rest.1, has_moved row (by_id row.id one.0.rows) + rest.2)

unfoldable pub tick : Options → (ℕ → World) → Table → Table × List Effect × ℕ
tick opts worlds t = advance_all opts worlds (list_by_status awaiting_collateral t) t
