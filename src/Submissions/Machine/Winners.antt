-- ===== src/Submissions/Machine/Winners.antt =====
-- lib/proposalSubmissions.js: of all the workers that race to move a row, one is told that it did.
use sysnode_backend.Base.{
  ℕ, ◌≡◌, ◌≢◌, refl, sym, ◌∙◌, ap, inl, inr, false, Option, some, List, arith, ◌==◌, Option-cases,
  Bool-cases, Text, some_inj, to_lower_case,
}
use sysnode_backend.Results.{ok}
use sysnode_backend.Eq.{nat_eq, beq_refl}
use sysnode_backend.Rows.{update_where}
use sysnode_backend.Rows.Laws.{lookup-update_key}
use sysnode_backend.Submissions.Types.{
  awaiting_collateral, submitted, failed, same_status, Submission, Table, by_id, id_of, has_text,
}
use sysnode_backend.Submissions.Machine.{Reach}
use sysnode_backend.Submissions.Machine.Reads.{Valid}
use sysnode_backend.Submissions.Machine.Reachable.{Reach-Kept}
use sysnode_backend.Submissions.Transitions.{
  taken, to_submitted, submit_write, mark_submitted, to_failed, fail_write, mark_failed,
  is_terminal,
}

update_at :
    (f : Submission → Submission)
    → ((r : Submission) → (f r).id ≡ r.id)
    → (id : ℕ) (r : Submission) (rows : List Submission) → by_id id rows ≡ some r
    → by_id id (update_where (λ x. x.id == id) f rows) ≡ some (f r)
update_at f same id r rows h =
    lookup-update_key id_of f same id id rows ∙ rw h (ground (arith, beq_refl id))

-- The write won: the row awaited its collateral before, and the table then has the row returned.
abbrev pub Submits : ℕ → Table → Table → Submission → Type 0
Submits id t u y =
    ((r : Submission) × (by_id id t.rows ≡ some r) × (r.status ≡ awaiting_collateral))
    × (by_id id u.rows ≡ some y)
    × (y.status ≡ submitted)

submit_write-Submits :
    (id : ℕ) (hash : Text) (now : ℕ) (t : Table) (y : Submission)
    → (submit_write id hash now t).1 ≡ ok (some y)
    → Submits id t (submit_write id hash now t).0 y
unfolding submit_write
submit_write-Submits id hash now t y h = elim (Option-cases (by_id id t.rows)) [
  | inl e ↦ ground (arith, rw (e, submit_write) at h)
  | inr (r, e) ↦ elim (Bool-cases (same_status r.status awaiting_collateral)) [
    | inr other ↦ ground (arith, rw (e, other, submit_write) at h)
    | inl p ↦ elim (Bool-cases (taken id (λ x. has_text hash x.governance_hash) t.rows)) [
      | inl clash ↦ ground (arith, rw (e, p, clash, submit_write) at h)
      | inr free ↦
          let same : to_submitted hash now r ≡ y =
            ground (arith, rw (e, p, free, submit_write) at h) in
          (
            (r, e, ground arith),
            rw (e, p, free, submit_write)
                (update_at (to_submitted hash now) (λ x. refl) id r t.rows e ∙ ap some same),
            rw (sym same) refl,
          )
    ]
  ]
]

mark_submitted-won :
    (id : ℕ) (hash : Text) (now : ℕ) (before t : Table) (y : Submission)
    → (mark_submitted id hash now before t).1 ≡ ok (some y)
    → mark_submitted id hash now before t ≡ submit_write id (to_lower_case hash) now t
unfolding mark_submitted
mark_submitted-won id hash now before t y h = ground arith

pub mark_submitted-Submits :
    (id : ℕ) (hash : Text) (now : ℕ) (before t : Table) (y : Submission)
    → (mark_submitted id hash now before t).1 ≡ ok (some y)
    → Submits id t (mark_submitted id hash now before t).0 y
mark_submitted-Submits id hash now before t y h =
    let won = mark_submitted-won id hash now before t y h in
    rw won (submit_write-Submits id (to_lower_case hash) now t y (ap (λ r. r.1) (sym won) ∙ h))

-- The write won: the row was open before, and the table then has the row returned.
abbrev pub Fails : ℕ → Table → Table → Submission → Type 0
Fails id t u y =
    ((r : Submission) × (by_id id t.rows ≡ some r) × (is_terminal r.status ≡ false))
    × (by_id id u.rows ≡ some y)
    × (y.status ≡ failed)

fail_write-Fails :
    (id : ℕ) (reason : Text) (detail : Option Text) (now : ℕ) (t : Table) (y : Submission)
    → (fail_write id reason detail now t).1 ≡ ok (some y)
    → Fails id t (fail_write id reason detail now t).0 y
unfolding fail_write
fail_write-Fails id reason detail now t y h = elim (Option-cases (by_id id t.rows)) [
  | inl e ↦ ground (arith, rw (e, fail_write) at h)
  | inr (r, e) ↦ elim (Bool-cases (is_terminal r.status)) [
    | inl over ↦ ground (arith, rw (e, over, fail_write) at h)
    | inr open_row ↦
        let same : to_failed reason detail now r ≡ y =
          ground (arith, rw (e, open_row, fail_write) at h) in
        (
          (r, e, open_row),
          rw (e, open_row, fail_write)
              (update_at (to_failed reason detail now) (λ x. refl) id r t.rows e ∙ ap some same),
          rw (sym same) refl,
        )
  ]
]

mark_failed-won :
    (id : ℕ) (reason : Text) (detail : Option Text) (now : ℕ) (before t : Table) (y : Submission)
    → (mark_failed id reason detail now before t).1 ≡ ok (some y)
    → mark_failed id reason detail now before t ≡ fail_write id reason detail now t
unfolding mark_failed
mark_failed-won id reason detail now before t y h = ground arith

pub mark_failed-Fails :
    (id : ℕ) (reason : Text) (detail : Option Text) (now : ℕ) (before t : Table) (y : Submission)
    → (mark_failed id reason detail now before t).1 ≡ ok (some y)
    → Fails id t (mark_failed id reason detail now before t).0 y
mark_failed-Fails id reason detail now before t y h =
    let won = mark_failed-won id reason detail now before t y h in
    rw won (fail_write-Fails id reason detail now t y (ap (λ r. r.1) (sym won) ∙ h))

-- Once a call of `markSubmitted` has returned the row, and left a table with unique ids and a
-- fresh next id, no later call for that id returns a row, by whichever process, from whatever it
-- read, and whatever ran in between.
pub mark_submitted-once :
    (id : ℕ) (hash other : Text) (now later : ℕ) (before seen t u : Table) (y z : Submission)
    → Valid (mark_submitted id hash now before t).0
    → (mark_submitted id hash now before t).1 ≡ ok (some y)
    → Reach (mark_submitted id hash now before t).0 u
    → (mark_submitted id other later seen u).1 ≢ ok (some z)
mark_submitted-once id hash other now later before seen t u y z v won reach again =
    let first = mark_submitted-Submits id hash now before t y won in
    let second = mark_submitted-Submits id other later seen u z again in
    elim (Reach-Kept id y v first.1 reach) [
      | inl gone ↦ gone.0 first.2
      | inr (w, found, kept) ↦
          let row : w ≡ second.0.0 = some_inj (sym found ∙ second.0.1) in
          ground (arith, kept.submitted first.2, second.0.2)
    ]
