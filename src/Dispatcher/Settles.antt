-- ===== src/Dispatcher/Settles.antt =====
-- lib/proposalDispatcher.js: a confirmed submission that Core answers for does not wait for ever.
use sysnode_backend.Base.{
  ℕ, ◌≡◌, refl, ◌⊎◌, inl, inr, true, false, Option, none, some, arith, ◌==◌, Bool-cases, Text,
  length, is_hex64, to_lower_case, codes,
}
use sysnode_backend.Eq.{nat_eq}
use sysnode_backend.Results.{ok, err}
use sysnode_backend.Submissions.Types.{
  submitted, awaiting_collateral, Submission, Table, governance_hash_clash, by_id,
  by_governance_hash, has_text,
}
use sysnode_backend.Submissions.Transitions.{
  Returns, mark_failed, mark_submitted, fail_write, submit_write, clashes, taken, is_terminal,
  to_failed, to_submitted,
}
use sysnode_backend.Submissions.Machine.Winners.{mark_failed-Fails, mark_submitted-Submits}
use sysnode_backend.Dispatcher.Advance.{World, notify_failed, fail_row, after_mark, promote}

-- The row under an id is in a status that no transition leaves.
abbrev pub IsSettled : ℕ → Table → Type 0
IsSettled id t = (y : Submission) × (by_id id t.rows ≡ some y) × (is_terminal y.status ≡ true)

fail_write-completes :
    (id : ℕ) (reason : Text) (detail : Option Text) (now : ℕ) (t : Table) (r : Submission)
    → by_id id t.rows ≡ some r
    → is_terminal r.status ≡ false
    → (fail_write id reason detail now t).1 ≡ ok (some (to_failed reason detail now r))
unfolding fail_write
fail_write-completes id reason detail now t r found open_row = rw (found, fail_write, open_row) refl

mark_failed-completes :
    (id : ℕ) (reason : Text) (detail : Option Text) (now : ℕ) (t : Table) (r : Submission)
    → by_id id t.rows ≡ some r
    → is_terminal r.status ≡ false
    → (length reason == 0) ≡ false
    → (y : Submission) × ((mark_failed id reason detail now t t).1 ≡ ok (some y))
unfolding mark_failed
mark_failed-completes id reason detail now t r found open_row named = (
  to_failed reason detail now r,
  rw (found, mark_failed, open_row, named)
      (fail_write-completes id reason detail now t r found open_row),
)

submit_write-completes :
    (id : ℕ) (hash : Text) (now : ℕ) (t : Table) (r : Submission)
    → by_id id t.rows ≡ some r
    → r.status ≡ awaiting_collateral
    → ((y : Submission) × ((submit_write id hash now t).1 ≡ ok (some y)))
      ⊎ (submit_write id hash now t ≡ (t, err governance_hash_clash))
unfolding submit_write
submit_write-completes id hash now t r found waits =
    elim (Bool-cases (taken id (λ x. has_text hash x.governance_hash) t.rows)) [
      | inl other ↦ inr (rw (found, submit_write, waits, other) refl)
      | inr free ↦ inl (to_submitted hash now r, rw (found, submit_write, waits, free) refl)
    ]

mark_submitted-completes :
    (id : ℕ) (hash : Text) (now : ℕ) (t : Table) (r : Submission)
    → by_id id t.rows ≡ some r
    → r.status ≡ awaiting_collateral
    → is_hex64 hash ≡ true
    → ((y : Submission) × ((mark_submitted id hash now t t).1 ≡ ok (some y)))
      ⊎ (mark_submitted id hash now t t ≡ (t, err governance_hash_clash))
unfolding mark_submitted
mark_submitted-completes id hash now t r found waits valid =
    elim (Bool-cases (clashes id (by_governance_hash (to_lower_case hash) t.rows))) [
      | inl clash ↦ inr (rw (found, mark_submitted, waits, valid, clash) refl)
      | inr clear ↦
          rw (found, mark_submitted, waits, valid, clear)
            (submit_write-completes id (to_lower_case hash) now t r found waits)
    ]

notify_failed-table : (o : Returns) → (notify_failed o).0 ≡ o.0
notify_failed-table (t, ok none) = refl
notify_failed-table (t, ok (some y)) = refl
notify_failed-table (t, err e) = refl

submitted-IsSettled :
    (id : ℕ) (detail : Text) (w : World) (o : Returns) (y : Submission)
    → o.1 ≡ ok (some y)
    → by_id id o.0.rows ≡ some y
    → y.status ≡ submitted
    → IsSettled id (after_mark id detail w o).0
unfolding after_mark
submitted-IsSettled id detail w (t, ok none) y h found s = cc
submitted-IsSettled id detail w (t, ok (some z)) y h found s = (y, found, ground arith)
submitted-IsSettled id detail w (t, err e) y h found s = cc

fail_row-IsSettled :
    (id : ℕ) (reason detail : Text) (now : ℕ) (w : World) (t : Table) (r : Submission)
    → w.while_failing t ≡ t
    → by_id id t.rows ≡ some r
    → is_terminal r.status ≡ false
    → (length reason == 0) ≡ false
    → IsSettled id (fail_row id reason detail now w t).0
unfolding fail_row
fail_row-IsSettled id reason detail now w t r quiet found open_row named =
    let done = mark_failed-completes id reason (some detail) now t r found open_row named in
    let kept = mark_failed-Fails id reason (some detail) now t t done.0 done.1 in
    rw (fail_row, quiet, notify_failed-table (mark_failed id reason (some detail) now t t))
      (done.0, kept.1, ground (arith, kept.2))

-- Where the row awaits its collateral, Core's hash is well formed and no other worker writes in
-- between, promoting it leaves the row submitted, or failed where another row has the hash.
pub promote-IsSettled :
    (id : ℕ) (hash detail : Text) (w : World) (t : Table) (r : Submission)
    → w.while_marking t ≡ t
    → w.while_failing t ≡ t
    → by_id id t.rows ≡ some r
    → r.status ≡ awaiting_collateral
    → is_hex64 hash ≡ true
    → IsSettled id (promote id hash detail w t).0
unfolding promote after_mark
promote-IsSettled id hash detail w t r quiet still found waits valid =
    elim (mark_submitted-completes id hash w.submitted_at t r found waits valid) [
      | inl done ↦
          let kept = mark_submitted-Submits id hash w.submitted_at t t done.0 done.1 in
          rw (promote, quiet)
            (submitted-IsSettled id detail w (mark_submitted id hash w.submitted_at t t) done.0
              done.1 kept.1 kept.2)
      | inr clash ↦
          rw (promote, quiet, clash)
            (fail_row-IsSettled id (codes "duplicate_governance_hash") detail w.submitted_at w t r
              still found (ground arith) refl)
    ]
