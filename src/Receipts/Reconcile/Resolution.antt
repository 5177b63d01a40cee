-- ===== src/Receipts/Reconcile/Resolution.antt =====
-- How one row may change in a reconciliation: which uncertainty is resolved, and on what grounds.
use sysnode_backend.Base.{
  ℕ, suc, ◌+◌, ◌<◌, ◌≡◌, ◌≢◌, ◌⊎◌, refl, sym, ◌∙◌, ap, inl, inr, Bool, true, false, Option, none,
  some, List, if◌then◌else◌, Option-cases, Bool-cases, ltb→lt, some_inj, &&-true, to_lower_case,
  is_hex64, Text, codes, pos, ltb, arith,
}
use mathlib.Core.Path.{subst}
use sysnode_backend.Js.{int, str}
use sysnode_backend.Rows.{lookup, Unique}
use sysnode_backend.Receipts.Types.{relayed, submission_unknown}
use sysnode_backend.Receipts.Parse.{ChainVote}
use sysnode_backend.Receipts.Table.{ReceiptKey, key_eq, Receipt, key_of, Table}
use sysnode_backend.Receipts.Reconcile.{
  Reading, Change, leave, turn_stale, adopt, chain_vote, plan, unchanged, selects, rewrites,
  set_stale, set_confirmed, supersedes_intent, is_exact, reconcile_for_proposal,
}
use sysnode_backend.Receipts.Reconcile.Plan.{
  Twin, unchanged-Twin, IsListed, chain_vote-IsListed, plan-turn_stale, plan-adopt,
}
use sysnode_backend.Receipts.Reconcile.Pointwise.{revise, revise_changed}
use sysnode_backend.Receipts.Reconcile.Guarantees.{read_at, of_key, lookup-reconcile_for_proposal}

-- The ways in which a reconciliation may change the row `x`.
pub data Revision (d : Reading) (votes : List ChainVote) (x : Receipt) : Receipt → Type 0 where
  kept : Revision d votes x x
  observed :
      {v : ChainVote}
      → IsListed votes x v
      → x.status ≢ submission_unknown
      → Revision d votes x (set_confirmed v none d.now x)
  settled :
      {v : ChainVote}
      → IsListed votes x v
      → x.status ≡ submission_unknown
      → is_exact v x ≡ true
      → supersedes_intent v x ≡ false
      → Revision d votes x (set_confirmed v none d.now x)
  superseded :
      {v : ChainVote}
      → IsListed votes x v
      → x.status ≡ submission_unknown
      → supersedes_intent v x ≡ true
      → Revision d votes x (set_confirmed v (some (codes "superseded_by_later_vote")) d.now x)
  expired : x.status ≡ relayed → x.submitted_at + d.grace < d.now → Revision d votes x (set_stale x)
  abandoned :
      x.status ≡ submission_unknown
      → d.fresh ≡ true
      → x.submitted_at + d.grace < d.started_at
      → Revision d votes x (set_stale x)

module _ {r x : Receipt} (tw : Twin r x) where
  is_exact-Twin : (v : ChainVote) → is_exact v x ≡ is_exact v r
  unfolding is_exact
  is_exact-Twin v = rw (tw.time, tw.outcome) refl

  supersedes_intent-Twin : (v : ChainVote) → supersedes_intent v x ≡ supersedes_intent v r
  unfolding supersedes_intent
  supersedes_intent-Twin v = rw (tw.time, tw.outcome) refl

  IsListed-Twin : {votes : List ChainVote} {v : ChainVote} → IsListed votes r v → IsListed votes x v
  IsListed-Twin l = record {
    listed = l.listed;
    hash = rw tw.key l.hash;
    index = rw tw.key l.index;
    signal = rw tw.signal l.signal;
  }

  Revision-stale :
      (d : Reading) (votes : List ChainVote) (base : ℕ)
      → plan d r (chain_vote votes r) ≡ turn_stale base
      → x.submitted_at + d.grace < base
      → Revision d votes x (set_stale x)
  Revision-stale d votes base h lt = elim (plan-turn_stale d r (chain_vote votes r) base h) [
    | inl (e, b) ↦ expired (tw.status ∙ e) (rw (← b) lt)
    | inr (e, f, b) ↦ abandoned (tw.status ∙ e) f (rw (← b) lt)
  ]

  Revision-adopt :
      (d : Reading) (votes : List ChainVote) (v : ChainVote) (e : Option Text) (t : ℕ)
      → plan d r (chain_vote votes r) ≡ adopt v e t
      → Revision d votes x (set_confirmed v e t x)
  Revision-adopt d votes v e t h =
      let (found, (at, why)) = plan-adopt d r (chain_vote votes r) v e t h in
      let listed = IsListed-Twin (chain_vote-IsListed votes r v found) in
      rw at (elim why [
        | inl (other, err) ↦ rw err (observed listed (λ k. other (sym tw.status ∙ k)))
        | inr (inl (unknown, exact, earlier, err)) ↦ rw err (
            settled listed (tw.status ∙ unknown) (is_exact-Twin v ∙ exact)
              (supersedes_intent-Twin v ∙ earlier))
        | inr (inr (unknown, later, err)) ↦
            rw err (superseded listed (tw.status ∙ unknown) (supersedes_intent-Twin v ∙ later))
      ])

selected-Revision :
    (d : Reading) (votes : List ChainVote) (r x : Receipt) (c : Change)
    → plan d r (chain_vote votes r) ≡ c
    → selects d.grace r c x ≡ true
    → Revision d votes x (rewrites c x)
unfolding selects rewrites
selected-Revision d votes r x leave h s = kept
selected-Revision d votes r x (turn_stale base) h s =
    let (same, old) = &&-true (unchanged r x) (ltb (x.submitted_at + d.grace) base) s in
    Revision-stale (unchanged-Twin r x same) d votes base h (ltb→lt _ _ old)
selected-Revision d votes r x (adopt v e t) h s =
    Revision-adopt (unchanged-Twin r x s) d votes v e t h

pub revise-Revision :
    (d : Reading) (votes : List ChainVote) (o : Option Receipt) (x : Receipt)
    → Revision d votes x (revise d votes o x)
unfolding revise
revise-Revision d votes none x = kept
revise-Revision d votes (some r) x =
    let c = plan d r (chain_vote votes r) in
    elim (Bool-cases (selects d.grace r c x)) [
      | inl hit ↦ rw hit (selected-Revision d votes r x c refl hit)
      | inr miss ↦ rw miss kept
    ]

-- Whatever the table holds when the transaction runs, each row after a reconciliation by a
-- positive user id of a 64-digit proposal hash stood in the table at that time, and is unchanged
-- or changed in one of the ways of `Revision`: an uncertain submission is resolved only by a
-- listed vote with exactly its time and outcome, by one that supersedes it, or, on a fresh
-- reading, by a grace interval that had passed before the reading began. The receipts that were
-- read must have unique keys.
pub reconcile-Revision :
    (d : Reading) (u : ℕ) (hash : Text) (votes : List ChainVote) (before t : Table) (k : ReceiptKey)
    (y : Receipt)
    → Unique key_of before.rows
    → is_hex64 hash ≡ true
    → lookup key_of k
        (reconcile_for_proposal d (int (pos (suc u))) (str hash) (some votes) before t).0.rows
      ≡ some y
    → (x : Receipt) × (lookup key_of k t.rows ≡ some x) × Revision d votes x y
reconcile-Revision d u hash votes before t k y unique hex h =
    let o = read_at (suc u) (to_lower_case hash) before k in
    let e = sym (lookup-reconcile_for_proposal d u hash votes before t k unique hex) ∙ h in
    elim (Option-cases (lookup key_of k t.rows)) [
      | inl missing ↦ cc (rw missing at e)
      | inr (x, found) ↦ (
        x,
        found,
        subst (Revision d votes x) (some_inj (rw found at e)) (revise-Revision d votes o x),
      )
    ]

keeps_if :
    (d : Reading) (votes : List ChainVote) (r x : Receipt)
    → unchanged r x ≡ false
    → (b : Bool) → revise d votes (if b then some r else none) x ≡ x
keeps_if d votes r x changed true = revise_changed d votes r x changed
keeps_if d votes r x changed false = unfold revise in refl

-- The row `x` differs from the receipt `r` that was read under its key: another request came.
abbrev pub IsRewritten : Receipt → Receipt → Type 0
IsRewritten r x =
    (x.submitted_at ≢ r.submitted_at)
    ⊎ (x.vote_time ≢ r.vote_time)
    ⊎ (x.vote_outcome ≢ r.vote_outcome)
    ⊎ (x.vote_signal ≢ r.vote_signal)
    ⊎ (x.status ≢ r.status)

IsRewritten-unchanged : (r x : Receipt) → IsRewritten r x → unchanged r x ≡ false
IsRewritten-unchanged r x w = elim (Bool-cases (unchanged r x)) [
  | inl same ↦
      let tw = unchanged-Twin r x same in
      ground (arith, tw.submitted, tw.time, tw.outcome, tw.signal, tw.status)
  | inr other ↦ other
]

-- Where the receipts that were read have unique keys, a row that another request has written since
-- they were read, with another submission time, vote time, outcome, signal or status, is left alone
-- by the reconciliation of a positive user id and a 64-digit hash: a late reading never overwrites
-- a newer request.
pub reconcile_keeps_newer :
    (d : Reading) (u : ℕ) (hash : Text) (votes : List ChainVote) (before t : Table) (k : ReceiptKey)
    (r x : Receipt)
    → Unique key_of before.rows
    → is_hex64 hash ≡ true
    → lookup key_of k before.rows ≡ some r
    → lookup key_of k t.rows ≡ some x
    → IsRewritten r x
    → lookup key_of k
        (reconcile_for_proposal d (int (pos (suc u))) (str hash) (some votes) before t).0.rows
      ≡ some x
reconcile_keeps_newer d u hash votes before t k r x unique hex read found changed =
    rw (lookup-reconcile_for_proposal d u hash votes before t k unique hex, found, read)
      (ap some (
        keeps_if d votes r x (IsRewritten-unchanged r x changed)
          (of_key (suc u) (to_lower_case hash) k)))
