-- ===== src/Submissions/Machine/Reachable.antt =====
-- lib/proposalSubmissions.js: what holds of a row however many operations run, by however many
-- processes.
use sysnode_backend.Base.{ℕ, ◌≡◌, ◌≢◌, refl, ◌∙◌, ◌⊎◌, inl, inr, true, none, some, arith, ◌<◌, ◌≤◌}
use sysnode_backend.Eq.{nat_eq}
use sysnode_backend.Submissions.Types.{
  Status, prepared, submitted, failed, Submission, Table, by_id,
}
use sysnode_backend.Submissions.Machine.{
  Reach, here, next, Edge, stays, counted, attached, published, gave_up, unlinked, Moves,
}
use sysnode_backend.Submissions.Machine.Writes.{Step-Write}
use sysnode_backend.Submissions.Machine.Reads.{
  Valid, Write-next_id, Step-Moves, Step-Valid, Write-absent,
}
use sysnode_backend.Submissions.Transitions.{is_removable}

-- `y` is what the row `x` may be later: its content is the same, it does not return to prepared and
-- then keeps its collateral, a submitted row keeps its hash and a failed one its reason.
pub record Later (x y : Submission) : Type 0 where
  pub content : y.content ≡ x.content
  pub collateral :
      x.status ≢ prepared → (y.status ≢ prepared) × (y.collateral_txid ≡ x.collateral_txid)
  pub submitted :
      x.status ≡ submitted → (y.status ≡ submitted) × (y.governance_hash ≡ x.governance_hash)
  pub failed : x.status ≡ failed → (y.status ≡ failed) × (y.fail_reason ≡ x.fail_reason)

Edge-Later : {x y : Submission} → Edge x y → Later x y
Edge-Later stays = record {
  content = refl;
  collateral = λ h. (h, refl);
  submitted = λ h. (h, refl);
  failed = λ h. (h, refl);
}
Edge-Later (counted n now) = record {
  content = refl;
  collateral = λ h. (h, refl);
  submitted = λ h. (h, refl);
  failed = λ h. (h, refl);
}
Edge-Later (attached txid now p) = record {
  content = refl;
  collateral = λ h. ground arith;
  submitted = λ h. ground arith;
  failed = λ h. ground arith;
}
Edge-Later (published hash now p) = record {
  content = refl;
  collateral = λ h. (ground arith, refl);
  submitted = λ h. ground arith;
  failed = λ h. ground arith;
}
Edge-Later (gave_up reason detail now p) = record {
  content = refl;
  collateral = λ h. (ground arith, refl);
  submitted = λ h. ground arith;
  failed = λ h. ground arith;
}
Edge-Later unlinked = record {
  content = refl;
  collateral = λ h. (h, refl);
  submitted = λ h. (h, refl);
  failed = λ h. (h, refl);
}

Later-trans : {x y z : Submission} → Later x y → Later y z → Later x z
Later-trans a b = record {
  content = b.content ∙ a.content;
  collateral = λ h. let m = a.collateral h in let n = b.collateral m.0 in (n.0, n.1 ∙ m.1);
  submitted = λ h. let m = a.submitted h in let n = b.submitted m.0 in (n.0, n.1 ∙ m.1);
  failed = λ h. let m = a.failed h in let n = b.failed m.0 in (n.0, n.1 ∙ m.1);
}

pub Reach-Valid : {s u : Table} → Reach s u → Valid s → Valid u
Reach-Valid here v = v
Reach-Valid (next r step) v = Step-Valid step (Reach-Valid r v)

-- A row that is there stays as `Later` says, or is gone and its id is not given out again.
abbrev pub Kept : ℕ → Submission → Table → Type 0
Kept j x u =
    ((x.status ≢ submitted) × (by_id j u.rows ≡ none) × (j < u.next_id))
    ⊎ ((y : Submission) × (by_id j u.rows ≡ some y) × Later x y)

present-issued :
    (j : ℕ) (x : Submission) (t : Table) → Valid t → by_id j t.rows ≡ some x → j < t.next_id
present-issued j x t v h = ground (arith, v.1 j)

not_removable : (s : Status) → is_removable s ≡ true → s ≢ submitted
not_removable s h k = ground arith

Moves-Kept :
    (u : Table) (j : ℕ) (x y : Submission) → j < u.next_id → Later x y → Moves j y u → Kept j x u
Moves-Kept u j x y l later (inl gone) =
    inl ((λ s. not_removable y.status gone.0 (later.submitted s).0), gone.1, l)
Moves-Kept u j x y l later (inr (z, found, edge)) =
    inr (z, found, Later-trans later (Edge-Later edge))

-- From a table with unique ids and a fresh next id: whatever operations of the repository and
-- deletions of drafts run after a row was seen, while the row's user exists, the row keeps its
-- content, which leaves out the id of its draft, never returns to prepared and from then on keeps its
-- collateral transaction, and a submitted or failed row keeps its status with its governance
-- hash or its reason; it can be missing only if it was not submitted, and its id is then not
-- given out again.
pub Reach-Kept :
    {s u : Table} (j : ℕ) (x : Submission)
    → Valid s
    → by_id j s.rows ≡ some x
    → Reach s u
    → Kept j x u
Reach-Kept j x v h here = inr (x, h, Edge-Later stays)
Reach-Kept {s} {u} j x v h (next {t} r step) = elim (Reach-Kept j x v h r) [
  | inl (open_row, gone, l) ↦
      let still = Write-absent j (Reach-Valid r v) (Step-Write step) l gone in
      inl (open_row, still.0, still.1)
  | inr (y, found, later) ↦
      let issued : j < t.next_id = present-issued j y t (Reach-Valid r v) found in
      let more : t.next_id ≤ u.next_id = Write-next_id (Step-Write step) in
      Moves-Kept u j x y (omega arith) later (Step-Moves j y (Reach-Valid r v) step found)
]
