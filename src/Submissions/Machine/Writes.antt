-- ===== src/Submissions/Machine/Writes.antt =====
-- lib/proposalSubmissions.js: every step writes the table in one of five ways.
use sysnode_backend.Base.{
  ℕ, ◌≡◌, refl, ◌⊎◌, inl, inr, true, Option, some, [], ◌∷◌, ◌++◌, ◌+◌, arith, ◌==◌, Text,
  Option-cases, Bool-cases, some_inj, to_lower_case, find,
}
use sysnode_backend.Eq.{nat_eq}
use sysnode_backend.Js.{Js, Fields, hash_of, non_negative_integer}
use sysnode_backend.Results.{Result-cases}
use sysnode_backend.Rows.{update_where, delete_where}
use sysnode_backend.Submissions.Types.{
  Status, prepared, awaiting_collateral, same_status, Content, Submission, Table, by_id,
  by_id_for_user, has_text, by_txid, is_prepared_payload,
}
use sysnode_backend.Submissions.Create.{Unchecked, create, check_input, insert_row, new_row}
use sysnode_backend.Submissions.Machine.{
  Step, creates, attaches, confirms, submits, fails, deletes, unlinks, Edge, counted, attached,
  published, gave_up,
}
use sysnode_backend.Submissions.Transitions.{
  taken, attach_write, submit_write, fail_write, to_awaiting, to_submitted, to_failed, with_confs,
  is_terminal, removes, remove, attach_collateral, mark_submitted, mark_failed,
  update_confirmations, has_draft, without_draft, unlink_draft,
}

-- What one step does to the table. An update touches the row under one id only, along an edge;
-- the rows of a deleted draft lose its id.
pub data Write (t : Table) : Table → Type 0 where
  unchanged : Write t t
  updated :
      (id : ℕ) (f : Submission → Submission)
      → ((r : Submission) → (f r).id ≡ r.id)
      → ((r : Submission) → by_id id t.rows ≡ some r → Edge r (f r))
      → Write t (record t { rows = update_where (λ r. r.id == id) f t.rows })
  deleted : (id user : ℕ) → Write t (record t { rows = delete_where (removes id user) t.rows })
  inserted :
      (draft : Option ℕ) (c : Content)
      → Write t
          (record { rows = t.rows ++ new_row t.next_id draft c ∷ []; next_id = t.next_id + 1 })
  unlinked :
      (draft : ℕ)
      → Write t (record t { rows = update_where (has_draft draft) without_draft t.rows })

updated_row :
    (f : Submission → Submission)
    → ((r : Submission) → (f r).id ≡ r.id)
    → (id : ℕ) (r : Submission) (t : Table) → by_id id t.rows ≡ some r
    → Edge r (f r)
    → Write t (record t { rows = update_where (λ x. x.id == id) f t.rows })
updated_row f same id r t found edge =
    updated id f same (λ y q. let at : r ≡ y = some_inj (rw found at q) in rw at at edge)

same_status-eq : (a b : Status) → same_status a b ≡ true → a ≡ b
same_status-eq a b h = ground arith

attach_write-Write :
    (id user : ℕ) (txid : Text) (now : ℕ) (t : Table) → Write t (attach_write id user txid now t).0
unfolding attach_write
attach_write-Write id user txid now t = elim (Option-cases (by_id id t.rows)) [
  | inl e ↦ rw (e, attach_write) unchanged
  | inr (r, e) ↦ elim (Bool-cases (r.content.user_id == user)) [
    | inl own ↦ elim (Bool-cases (same_status r.status prepared)) [
      | inl p ↦ elim (Bool-cases (taken id (λ y. has_text txid y.collateral_txid) t.rows)) [
        | inl clash ↦ rw (e, own, p, clash, attach_write) unchanged
        | inr free ↦
            rw (e, own, p, free, attach_write)
              (updated_row (to_awaiting txid now) (λ y. refl) id r t e
                (attached txid now (same_status-eq r.status prepared p)))
      ]
      | inr other ↦ rw (e, own, other, attach_write) unchanged
    ]
    | inr foreign ↦ rw (e, foreign, attach_write) unchanged
  ]
]

submit_write-Write :
    (id : ℕ) (hash : Text) (now : ℕ) (t : Table) → Write t (submit_write id hash now t).0
unfolding submit_write
submit_write-Write id hash now t = elim (Option-cases (by_id id t.rows)) [
  | inl e ↦ rw (e, submit_write) unchanged
  | inr (r, e) ↦ elim (Bool-cases (same_status r.status awaiting_collateral)) [
    | inl p ↦ elim (Bool-cases (taken id (λ y. has_text hash y.governance_hash) t.rows)) [
      | inl clash ↦ rw (e, p, clash, submit_write) unchanged
      | inr free ↦
          rw (e, p, free, submit_write)
            (updated_row (to_submitted hash now) (λ y. refl) id r t e
              (published hash now (same_status-eq r.status awaiting_collateral p)))
    ]
    | inr other ↦ rw (e, other, submit_write) unchanged
  ]
]

fail_write-Write :
    (id : ℕ) (reason : Text) (detail : Option Text) (now : ℕ) (t : Table)
    → Write t (fail_write id reason detail now t).0
unfolding fail_write
fail_write-Write id reason detail now t = elim (Option-cases (by_id id t.rows)) [
  | inl e ↦ rw (e, fail_write) unchanged
  | inr (r, e) ↦ elim (Bool-cases (is_terminal r.status)) [
    | inl over ↦ rw (e, over, fail_write) unchanged
    | inr open_row ↦
        rw (e, open_row, fail_write)
          (updated_row (to_failed reason detail now) (λ y. refl) id r t e
            (gave_up reason detail now open_row))
  ]
]

-- Each operation leaves the table alone, or runs its write.
attach_collateral-writes :
    (id user : ℕ) (txid : Js) (now : ℕ) (before t : Table)
    → ((attach_collateral id user txid now before t).0 ≡ t)
      ⊎ ((hash : Text) × ((attach_collateral id user txid now before t).0
            ≡ (attach_write id user hash now t).0))
unfolding attach_collateral
attach_collateral-writes id user txid now before t = elim (Option-cases (hash_of txid)) [
  | inl e ↦ inl (rw (e, attach_collateral) refl)
  | inr (hash, e) ↦ elim (Option-cases (by_id_for_user id user before.rows)) [
    | inl f ↦ inl (rw (e, f, attach_collateral) refl)
    | inr (r, f) ↦ elim (Bool-cases (same_status r.status prepared)) [
      | inl p ↦ elim (Option-cases (by_txid (to_lower_case hash) before.rows)) [
        | inl free ↦ inr (to_lower_case hash, rw (e, f, p, free, attach_collateral) refl)
        | inr (c, clash) ↦ inl (rw (e, f, p, clash, attach_collateral) refl)
      ]
      | inr q ↦ inl (rw (e, f, q, attach_collateral) refl)
    ]
  ]
]

mark_submitted-writes :
    (id : ℕ) (hash : Text) (now : ℕ) (before t : Table)
    → ((mark_submitted id hash now before t).0 ≡ t)
      ⊎ ((mark_submitted id hash now before t).0 ≡ (submit_write id (to_lower_case hash) now t).0)
unfolding mark_submitted
mark_submitted-writes id hash now before t = ground arith

mark_failed-writes :
    (id : ℕ) (reason : Text) (detail : Option Text) (now : ℕ) (before t : Table)
    → ((mark_failed id reason detail now before t).0 ≡ t)
      ⊎ ((mark_failed id reason detail now before t).0 ≡ (fail_write id reason detail now t).0)
unfolding mark_failed
mark_failed-writes id reason detail now before t = ground arith

update_confirmations-Write :
    (id : ℕ) (confs : Js) (now : ℕ) (t : Table) → Write t (update_confirmations id confs now t).0
unfolding update_confirmations
update_confirmations-Write id confs now t = elim (Option-cases (non_negative_integer confs)) [
  | inl e ↦ rw (e, update_confirmations) unchanged
  | inr (n, e) ↦
      rw (e, update_confirmations)
        (updated id (with_confs n now) (λ r. refl) (λ r q. counted n now))
]

create-Write : (fs : Fields) (u : Unchecked) (now : ℕ) (t : Table) → Write t (create fs u now t).0
unfolding create insert_row
create-Write fs u now t = elim (Result-cases (check_input fs u now)) [
  | inl (e, bad) ↦ rw (bad, create) unchanged
  | inr (c, good) ↦ elim (Option-cases (find (is_prepared_payload c.user_id c.data_hex) t.rows)) [
    | inl free ↦ rw (good, create, free, insert_row) (inserted u.draft_id c)
    | inr (r, clash) ↦ rw (good, create, clash, insert_row) unchanged
  ]
]

pub Step-Write : {t u : Table} → Step t u → Write t u
unfolding remove unlink_draft
Step-Write {t} (creates fs u now) = create-Write fs u now t
Step-Write {t} (attaches id user txid now before) =
    elim (attach_collateral-writes id user txid now before t) [
      | inl e ↦ rw e unchanged
      | inr (hash, e) ↦ rw e (attach_write-Write id user hash now t)
    ]
Step-Write {t} (confirms id confs now) = update_confirmations-Write id confs now t
Step-Write {t} (submits id hash now before) = elim (mark_submitted-writes id hash now before t) [
  | inl e ↦ rw e unchanged
  | inr e ↦ rw e (submit_write-Write id (to_lower_case hash) now t)
]
Step-Write {t} (fails id reason detail now before) =
    elim (mark_failed-writes id reason detail now before t) [
      | inl e ↦ rw e unchanged
      | inr e ↦ rw e (fail_write-Write id reason detail now t)
    ]
Step-Write {t} (deletes id user) = deleted id user
Step-Write {t} (unlinks draft) = unlinked draft
