-- ===== src/Dispatcher/Effects.antt =====
-- lib/proposalDispatcher.js: the hooks are called for what was stored.
use sysnode_backend.Base.{
  ℕ, ◌≡◌, refl, inl, inr, Bool, true, false, none, some, [], ◌∷◌, ltb, if◌then◌else◌, Option-cases,
  Text, All, is_lower_hex64, ◌&&◌, ◌+◌,
}
use sysnode_backend.Results.{ok, err}
use sysnode_backend.Submissions.Types.{submitted, failed, Submission, Table, by_id}
use sysnode_backend.Submissions.Transitions.{Returns, mark_failed, mark_submitted}
use sysnode_backend.Submissions.Machine.Winners.{mark_failed-Fails, mark_submitted-Submits}
use sysnode_backend.Dispatcher.Errors.{
  is_terminal_core_error, is_duplicate_core_error, is_unknown_transaction,
}
use sysnode_backend.Dispatcher.Advance.{
  Options, TransactionAnswer, transaction, transaction_error, SubmitAnswer, returned, rejected,
  World, Effect, gobject_submit, on_submitted, on_failed, Outcome, notify_failed, fail_row,
  fetch_failed, confirmations, is_clash, after_mark, promote, submit_failed, submit_returned,
  after_submit, submit, write_confs, advance_found, after_fetch, advance, hash_text,
}

-- A hook was given the row that the table holds, in the status that the hook is about.
abbrev pub Recorded : ℕ → Table → Effect → Type 0
Recorded id t (gobject_submit parent revision time payload txid) = Unit
Recorded id t (on_submitted y) = (by_id id t.rows ≡ some y) × (y.status ≡ submitted)
Recorded id t (on_failed y) = (by_id id t.rows ≡ some y) × (y.status ≡ failed)

abbrev pub AllRecorded : ℕ → Outcome → Type 0
AllRecorded id o = All (Recorded id o.0) o.1

AllRecorded-if :
    (id : ℕ) (b : Bool) (x y : Outcome)
    → AllRecorded id x
    → AllRecorded id y
    → AllRecorded id (if b then x else y)
AllRecorded-if id true x y h k = h
AllRecorded-if id false x y h k = k

notify_failed-AllRecorded :
    (id : ℕ) (o : Returns)
    → ((y : Submission) → o.1 ≡ ok (some y) → (by_id id o.0.rows ≡ some y) × (y.status ≡ failed))
    → AllRecorded id (notify_failed o)
notify_failed-AllRecorded id (t, ok none) h = tt
notify_failed-AllRecorded id (t, ok (some y)) h = (h y refl, tt)
notify_failed-AllRecorded id (t, err e) h = tt

fail_row-AllRecorded :
    (id : ℕ) (reason detail : Text) (now : ℕ) (w : World) (t : Table)
    → AllRecorded id (fail_row id reason detail now w t)
unfolding fail_row
fail_row-AllRecorded id reason detail now w t =
    notify_failed-AllRecorded id (mark_failed id reason (some detail) now t (w.while_failing t))
      (λ y h.
        let m = mark_failed-Fails id reason (some detail) now t (w.while_failing t) y h in
        (m.1, m.2))

after_mark-AllRecorded :
    (id : ℕ) (detail : Text) (w : World) (o : Returns)
    → ((y : Submission) → o.1 ≡ ok (some y) → (by_id id o.0.rows ≡ some y) × (y.status ≡ submitted))
    → AllRecorded id (after_mark id detail w o)
unfolding after_mark
after_mark-AllRecorded id detail w (t, ok none) h = tt
after_mark-AllRecorded id detail w (t, ok (some y)) h = (h y refl, tt)
after_mark-AllRecorded id detail w (t, err e) h =
    AllRecorded-if id (is_clash e) _ _ (fail_row-AllRecorded id _ detail w.submitted_at w t) tt

promote-AllRecorded :
    (id : ℕ) (hash detail : Text) (w : World) (t : Table)
    → AllRecorded id (promote id hash detail w t)
unfolding promote
promote-AllRecorded id hash detail w t =
    after_mark-AllRecorded id detail w (mark_submitted id hash w.submitted_at t (w.while_marking t))
      (λ y h.
        let m = mark_submitted-Submits id hash w.submitted_at t (w.while_marking t) y h in
        (m.1, m.2))

after_submit-AllRecorded :
    (row : Submission) (w : World) (a : SubmitAnswer) (t : Table)
    → AllRecorded row.id (after_submit row w a t)
unfolding submit_failed submit_returned
after_submit-AllRecorded row w (returned v) t =
    AllRecorded-if row.id (is_lower_hex64 (hash_text v)) _ _ (promote-AllRecorded row.id _ _ w t) tt
after_submit-AllRecorded row w (rejected msg) t =
    AllRecorded-if row.id (is_terminal_core_error msg) _ _
      (fail_row-AllRecorded row.id _ msg w.submitted_at w t)
      (AllRecorded-if row.id (is_duplicate_core_error msg) _ _
        (promote-AllRecorded row.id row.content.proposal_hash _ w t) tt)

advance_found-AllRecorded :
    (opts : Options) (row : Submission) (txid : Text) (confs : ℕ) (w : World) (t : Table)
    → AllRecorded row.id (advance_found opts row txid confs w t)
unfolding advance_found submit
advance_found-AllRecorded opts row txid confs w t =
    elim (Option-cases (write_confs row confs w.fetched_at t)) [
      | inl e ↦ rw (e, advance_found) tt
      | inr (u, e) ↦
          rw (e, advance_found)
            (AllRecorded-if row.id (ltb confs opts.required_confs) _ _ tt
              (tt, after_submit-AllRecorded row w w.submit_answer (w.while_submitting u)))
    ]

after_fetch-AllRecorded :
    (opts : Options) (row : Submission) (txid : Text) (w : World) (a : TransactionAnswer)
    (t : Table)
    → AllRecorded row.id (after_fetch opts row txid w a t)
unfolding fetch_failed
after_fetch-AllRecorded opts row txid w (transaction c) t =
    advance_found-AllRecorded opts row txid (confirmations c) w t
after_fetch-AllRecorded opts row txid w (transaction_error msg) t =
    AllRecorded-if row.id
      (is_unknown_transaction msg && ltb (row.updated_at + opts.timeout_ms) w.fetched_at) _ _
      (fail_row-AllRecorded row.id _ _ w.fetched_at w t) tt

-- Whatever Core answers and whatever other workers do, a hook that `advance` calls is given the row
-- of the processed id exactly as the table then holds it, submitted or failed as the hook says.
pub advance-AllRecorded :
    (opts : Options) (row : Submission) (w : World) (t : Table)
    → AllRecorded row.id (advance opts row w t)
unfolding advance
advance-AllRecorded opts row w t = elim (Option-cases row.collateral_txid) [
  | inl e ↦ rw (e, advance) tt
  | inr ([], e) ↦ rw (e, advance) tt
  | inr (c ∷ cs, e) ↦
      rw (e, advance)
        (after_fetch-AllRecorded opts row (c ∷ cs) w w.transaction_answer (w.while_fetching t))
]
