-- ===== src/Receipts/Reconcile/Pointwise.antt =====
-- What a reconciliation makes of each row.
use sysnode_backend.Base.{
  ℕ, ◌≡◌, refl, ◌∙◌, sym, true, false, Option, none, some, List, [], ◌∷◌, arith, if◌then◌else◌,
  Option-cases, inl, inr, Bool-cases,
}
use mathlib.Core.Option
use sysnode_backend.Rows.{lookup, Unique}
use sysnode_backend.Rows.Laws.{lookup-update_where, lookup-key, Unique-update_where}
use sysnode_backend.Receipts.Parse.{ChainVote}
use sysnode_backend.Receipts.Table.{ReceiptKey, same_key, same_key_iff, key_eq, Receipt, key_of}
use sysnode_backend.Receipts.Reconcile.{
  Reading, Change, leave, turn_stale, adopt, chain_vote, plan, unchanged, selects, rewrites,
  run_change, transact,
}

-- A row at commit time, changed as the receipt that was read under its key demands.
unfoldable pub revise : Reading → List ChainVote → Option Receipt → Receipt → Receipt
revise d votes none x = x
revise d votes (some r) x =
    let c = plan d r (chain_vote votes r) in if selects d.grace r c x then rewrites c x else x

pub key-rewrites : (c : Change) (x : Receipt) → (rewrites c x).key ≡ x.key
unfolding rewrites
key-rewrites leave x = refl
key-rewrites (turn_stale base) x = refl
key-rewrites (adopt v e t) x = refl

selects-key :
    (g : ℕ) (r : Receipt) (c : Change) (x : Receipt) → selects g r c x ≡ true → x.key ≡ r.key
unfolding selects unchanged
selects-key g r leave x h = cc
selects-key g r (turn_stale base) x h = ground (arith, same_key_iff x.key r.key)
selects-key g r (adopt v e t) x h = ground (arith, same_key_iff x.key r.key)

selects_ne :
    (g : ℕ) (r : Receipt) (c : Change) (x : Receipt)
    → same_key r.key x.key ≡ false
    → selects g r c x ≡ false
selects_ne g r c x h = elim (Bool-cases (selects g r c x)) [
  | inl e ↦ cc ((same_key_iff r.key x.key).1 (sym (selects-key g r c x e)))
  | inr e ↦ e
]

-- One change touches only the row under the key of its receipt.
lookup-run_change :
    (g : ℕ) (r : Receipt) (c : Change) (k : ReceiptKey) (rows : List Receipt) (n : ℕ)
    → lookup key_of k (run_change g r c (rows, n)).0
      ≡ Option.map
          (λ x. if same_key r.key k then (if selects g r c x then rewrites c x else x) else x)
          (lookup key_of k rows)
unfolding run_change
lookup-run_change g r c k rows n = elim (Option-cases (lookup key_of k rows)) [
  | inl e ↦
      rw (lookup-update_where key_of (selects g r c) (rewrites c) (key-rewrites c) k rows, e) refl
  | inr (x, e) ↦
      rw (lookup-update_where key_of (selects g r c) (rewrites c) (key-rewrites c) k rows, e)
        (ground (arith, lookup-key key_of k rows x e, selects_ne g r c x))
]

-- After the transaction a row is the row that stood at commit time, revised by the receipt that was
-- read under its key.
pub lookup-transact :
    (d : Reading) (votes : List ChainVote) (k : ReceiptKey) (read : List Receipt)
    (rows : List Receipt) (n : ℕ)
    → Unique key_of read
    → lookup key_of k (transact d votes read (rows, n)).0
      ≡ Option.map (revise d votes (lookup key_of k read)) (lookup key_of k rows)
unfolding transact lookup revise
lookup-transact d votes k [] rows n u = elim (Option-cases (lookup key_of k rows)) [
  | inl e ↦ rw e refl
  | inr (x, e) ↦ rw e refl
]
lookup-transact d votes k (r ∷ rs) rows n u =
    let c = plan d r (chain_vote votes r) in
    lookup-transact d votes k rs _ _ u.1 ∙ elim (Option-cases (lookup key_of k rows)) [
      | inl e ↦ rw (lookup-run_change d.grace r c k rows n, e) refl
      | inr (x, e) ↦
          rw (lookup-run_change d.grace r c k rows n, e) (ground (arith, same_key_iff r.key k, u.0))
    ]

pub Unique-transact :
    (d : Reading) (votes : List ChainVote) (read : List Receipt) (rows : List Receipt) (n : ℕ)
    → Unique key_of rows
    → Unique key_of (transact d votes read (rows, n)).0
unfolding transact run_change
Unique-transact d votes [] rows n u = u
Unique-transact d votes (r ∷ rs) rows n u =
    let c = plan d r (chain_vote votes r) in
    Unique-transact d votes rs _ _
      (Unique-update_where key_of (selects d.grace r c) (rewrites c) (key-rewrites c) rows u)

selects_changed :
    (g : ℕ) (r : Receipt) (c : Change) (x : Receipt)
    → unchanged r x ≡ false
    → selects g r c x ≡ false
unfolding selects
selects_changed g r leave x h = refl
selects_changed g r (turn_stale base) x h = rw h refl
selects_changed g r (adopt v e t) x h = h

-- A row that is no longer what was read is left alone.
pub revise_changed :
    (d : Reading) (votes : List ChainVote) (r x : Receipt)
    → unchanged r x ≡ false
    → revise d votes (some r) x ≡ x
unfolding revise
revise_changed d votes r x h =
    rw (selects_changed d.grace r (plan d r (chain_vote votes r)) x h) refl
