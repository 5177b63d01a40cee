-- ===== src/Submissions/Machine.antt =====
-- lib/proposalSubmissions.js: the state machine that the header draws, as a step relation in which
-- any process may run any operation on the table, having read any earlier table.
pub mod Writes
pub mod Reads
pub mod Reachable
pub mod Winners
use sysnode_backend.Base.{
  ℕ, ◌≡◌, ◌≢◌, refl, ◌⊎◌, inl, inr, Bool, true, false, Option, none, some, List, [], ◌∷◌, arith,
  ◌==◌, if◌then◌else◌, Text, Option-cases, Bool-cases, to_lower_case,
}
use sysnode_backend.Eq.{nat_eq}
use sysnode_backend.Js.{Js, hash_of, non_negative_integer}
use sysnode_backend.Rows.{lookup, update_where, Unique}
use sysnode_backend.Rows.Laws.{lookup-append, lookup-update_key, lookup-delete_where, lookup-key}
use sysnode_backend.Submissions.Types.{
  Status, prepared, awaiting_collateral, submitted, failed, status_number, Content, Submission,
  Table, by_id, id_of,
}
use sysnode_backend.Submissions.Create.{Unchecked, create}
use sysnode_backend.Js.{Fields}
use sysnode_backend.Submissions.Transitions.{
  attach_collateral, update_confirmations, mark_submitted, mark_failed, remove, to_awaiting,
  to_submitted, to_failed, with_confs, is_terminal, is_removable, unlink_draft, without_draft,
}

-- One operation by some process, or the deletion of a draft. `before` is what it read.
pub data Step (t : Table) : Table → Type 0 where
  creates : (fs : Fields) (u : Unchecked) (now : ℕ) → Step t (create fs u now t).0
  attaches :
      (id user : ℕ) (txid : Js) (now : ℕ) (before : Table)
      → Step t (attach_collateral id user txid now before t).0
  confirms : (id : ℕ) (confs : Js) (now : ℕ) → Step t (update_confirmations id confs now t).0
  submits :
      (id : ℕ) (hash : Text) (now : ℕ) (before : Table)
      → Step t (mark_submitted id hash now before t).0
  fails :
      (id : ℕ) (reason : Text) (detail : Option Text) (now : ℕ) (before : Table)
      → Step t (mark_failed id reason detail now before t).0
  deletes : (id user : ℕ) → Step t (remove id user t).0
  unlinks : (draft : ℕ) → Step t (unlink_draft draft t)

pub data Reach (s : Table) : Table → Type 0 where
  here : Reach s s
  next : {t u : Table} → Reach s t → Step t u → Reach s u

-- The edges of the state machine for one row, the bookkeeping of confirmations and
-- the loss of the draft.
pub data Edge (x : Submission) : Submission → Type 0 where
  stays : Edge x x
  counted : (n now : ℕ) → Edge x (with_confs n now x)
  attached : (txid : Text) (now : ℕ) → x.status ≡ prepared → Edge x (to_awaiting txid now x)
  published :
      (hash : Text) (now : ℕ) → x.status ≡ awaiting_collateral → Edge x (to_submitted hash now x)
  gave_up :
      (reason : Text) (detail : Option Text) (now : ℕ)
      → is_terminal x.status ≡ false
      → Edge x (to_failed reason detail now x)
  unlinked : Edge x (without_draft x)

-- What becomes of a row in a step: it is deleted, which only a prepared or failed row can be, or it
-- takes an edge.
abbrev pub Moves : ℕ → Submission → Table → Type 0
Moves id x u =
    ((is_removable x.status ≡ true) × (by_id id u.rows ≡ none))
    ⊎ ((y : Submission) × (by_id id u.rows ≡ some y) × Edge x y)
