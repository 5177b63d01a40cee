-- ===== src/Submissions/Machine/Reads.antt =====
-- lib/proposalSubmissions.js: what a step leaves under an id, and what stays true of every table.
use sysnode_backend.Base.{
  ℕ, ◌≡◌, refl, ◌∙◌, inl, inr, Option, none, some, arith, ◌==◌, ==_iff, if◌then◌else◌, Bool-cases,
  ◌≤◌, ◌<◌,
}
use mathlib.Core.Option
use sysnode_backend.Eq.{nat_eq}
use sysnode_backend.Rows.{update_where, delete_where, Unique}
use sysnode_backend.Rows.Laws.{
  lookup-append, lookup-update_key, lookup-update_where, lookup-delete_where, Unique-update_where,
  Unique-append, Unique-delete_where,
}
use sysnode_backend.Submissions.Types.{Submission, Table, by_id, id_of}
use sysnode_backend.Submissions.Create.{new_row}
use sysnode_backend.Submissions.Machine.{Step, Edge, stays, Moves}
use sysnode_backend.Submissions.Machine.Writes.{
  Write, unchanged, updated, deleted, inserted, unlinked, Step-Write,
}
use sysnode_backend.Submissions.Transitions.{removes, has_draft, without_draft}

-- The ids are unique, and the next one is fresh.
abbrev pub Valid : Table → Type 0
Valid t = Unique id_of t.rows × ((j : ℕ) → t.next_id ≤ j → by_id j t.rows ≡ none)

missing_key :
    (f : Submission → Submission) (id j : ℕ) (x : Submission) (a b : Option Submission)
    → a ≡ none
    → b ≡ some x
    → (id ≡ j → a ≡ b)
    → (if id == j then Option.map f a else b) ≡ some x
missing_key f id j x a b p q same = ground arith

update-Moves :
    (f : Submission → Submission)
    → ((r : Submission) → (f r).id ≡ r.id)
    → (id j : ℕ) (x : Submission) (t : Table)
    → ((r : Submission) → by_id id t.rows ≡ some r → Edge r (f r))
    → by_id j t.rows ≡ some x
    → Moves j x (record t { rows = update_where (λ r. r.id == id) f t.rows })
update-Moves f same id j x t edge h = elim (Bool-cases (id == j)) [
  | inl e ↦
      let found : by_id id t.rows ≡ some x = rw ((==_iff id j).0 e) h in
      inr (f x, lookup-update_key id_of f same id j t.rows ∙ rw (e, found) refl, edge x found)
  | inr e ↦ inr (x, lookup-update_key id_of f same id j t.rows ∙ rw e h, stays)
]

delete-Moves :
    (id user : ℕ) (t : Table) (j : ℕ) (x : Submission)
    → Unique id_of t.rows
    → by_id j t.rows ≡ some x
    → Moves j x (record t { rows = delete_where (removes id user) t.rows })
delete-Moves id user t j x u h = elim (Bool-cases (removes id user x)) [
  | inl gone ↦
      inl (ground arith, rw (lookup-delete_where id_of (removes id user) j t.rows u, h, gone) refl)
  | inr kept ↦
      inr (x, rw (lookup-delete_where id_of (removes id user) j t.rows u, h, kept) refl, stays)
]

unlink-lookup :
    (draft : ℕ) (t : Table) (j : ℕ)
    → by_id j (update_where (has_draft draft) without_draft t.rows)
      ≡ Option.map (λ r. if has_draft draft r then without_draft r else r) (by_id j t.rows)
unlink-lookup draft t j =
    lookup-update_where id_of (has_draft draft) without_draft (λ r. refl) j t.rows

unlink-Moves :
    (draft : ℕ) (t : Table) (j : ℕ) (x : Submission)
    → by_id j t.rows ≡ some x
    → Moves j x (record t { rows = update_where (has_draft draft) without_draft t.rows })
unlink-Moves draft t j x h = elim (Bool-cases (has_draft draft x)) [
  | inl linked ↦ inr (without_draft x, rw (unlink-lookup draft t j, h, linked) refl, Edge.unlinked)
  | inr free ↦ inr (x, rw (unlink-lookup draft t j, h, free) refl, stays)
]

pub Write-Moves :
    {t u : Table} (j : ℕ) (x : Submission)
    → Valid t
    → Write t u
    → by_id j t.rows ≡ some x
    → Moves j x u
Write-Moves j x v unchanged h = inr (x, h, stays)
Write-Moves {t} j x v (updated id f same edge) h = update-Moves f same id j x t edge h
Write-Moves {t} j x v (deleted id user) h = delete-Moves id user t j x v.0 h
Write-Moves {t} j x v (inserted draft c) h =
    inr (x, lookup-append id_of j t.rows (new_row t.next_id draft c) ∙ rw h refl, stays)
Write-Moves {t} j x v (unlinked draft) h = unlink-Moves draft t j x h

-- A step brings no row back under an id that was given out before.
pub Write-absent :
    {t u : Table} (j : ℕ)
    → Valid t
    → Write t u
    → j < t.next_id
    → by_id j t.rows ≡ none
    → (by_id j u.rows ≡ none) × (j < u.next_id)
Write-absent j v unchanged l h = (h, l)
Write-absent {t} j v (updated id f same edge) l h =
    (lookup-update_key id_of f same id j t.rows ∙ ground (arith, ==_iff id j), l)
Write-absent {t} j v (deleted id user) l h =
    (rw (lookup-delete_where id_of (removes id user) j t.rows v.0, h) refl, l)
Write-absent {t} j v (inserted draft c) l h =
    (lookup-append id_of j t.rows (new_row t.next_id draft c) ∙ rw h (ground arith), omega arith)
Write-absent {t} j v (unlinked draft) l h = (rw (unlink-lookup draft t j, h) refl, l)

pub Write-next_id : {t u : Table} → Write t u → t.next_id ≤ u.next_id
Write-next_id unchanged = omega arith
Write-next_id (updated id f same edge) = omega arith
Write-next_id (deleted id user) = omega arith
Write-next_id (inserted draft c) = omega arith
Write-next_id (unlinked draft) = omega arith

pub Write-Valid : {t u : Table} → Write t u → Valid t → Valid u
Write-Valid unchanged v = v
Write-Valid {t} (updated id f same edge) v = (
  Unique-update_where id_of (λ r. r.id == id) f same t.rows v.0,
  λ j l. lookup-update_key id_of f same id j t.rows ∙ ground (arith, ==_iff id j, v.1 j l),
)
Write-Valid {t} (deleted id user) v = (
  Unique-delete_where id_of (removes id user) t.rows v.0,
  λ j l. rw (lookup-delete_where id_of (removes id user) j t.rows v.0, v.1 j l) refl,
)
Write-Valid {t} (inserted draft c) v = (
  Unique-append id_of t.rows (new_row t.next_id draft c) (v.1 t.next_id (omega arith)) v.0,
  λ j l.
      lookup-append id_of j t.rows (new_row t.next_id draft c)
      ∙ rw (v.1 j (omega arith)) (ground arith),
)
Write-Valid {t} (unlinked draft) v = (
  Unique-update_where id_of (has_draft draft) without_draft (λ r. refl) t.rows v.0,
  λ j l. rw (unlink-lookup draft t j, v.1 j l) refl,
)

-- From a table with unique ids and a fresh next id, in every step each row takes an edge of the
-- state machine, or is deleted while prepared or failed. A step is an operation of the repository or
-- the deletion of a draft.
pub Step-Moves :
    {t u : Table} (j : ℕ) (x : Submission)
    → Valid t
    → Step t u
    → by_id j t.rows ≡ some x
    → Moves j x u
Step-Moves j x v s h = Write-Moves j x v (Step-Write s) h

-- Every step keeps the ids unique and the next id fresh.
pub Step-Valid : {t u : Table} → Step t u → Valid t → Valid u
Step-Valid s v = Write-Valid (Step-Write s) v
