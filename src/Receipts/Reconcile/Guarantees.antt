-- ===== src/Receipts/Reconcile/Guarantees.antt =====
-- What `reconcileForProposal` guarantees, whatever happened between its read and its transaction.
use sysnode_backend.Base.{
  ℕ, suc, ◌≡◌, refl, sym, ◌∙◌, Bool, true, ◌&&◌, Option, none, some, List, [], ◌∷◌, ◌==◌,
  if◌then◌else◌, Text, to_lower_case, is_hex64, same_text, pos, filter,
}
use mathlib.Core.Option
use sysnode_backend.Js.{int, str}
use sysnode_backend.Rows.{lookup, Unique}
use sysnode_backend.Rows.Laws.{lookup-filter, Unique-filter}
use sysnode_backend.Rows.Sorted.{lookup-order_by, Unique-order_by}
use sysnode_backend.Receipts.Parse.{ChainVote}
use sysnode_backend.Receipts.Table.{ReceiptKey, key_eq, Receipt, key_of, Table}
use sysnode_backend.Receipts.Queries.{list_by_proposal_stmt, of_proposal, later_first}
use sysnode_backend.Receipts.Reconcile.{Reading, reconcile_listed, reconcile_for_proposal}
use sysnode_backend.Receipts.Reconcile.Pointwise.{revise, lookup-transact}

abbrev pub of_key : ℕ → Text → ReceiptKey → Bool
of_key user proposal k = k.user_id == user && same_text k.proposal_hash proposal

-- The receipt that a reconciliation reads under a key: only the user's own, for the proposal.
abbrev pub read_at : ℕ → Text → Table → ReceiptKey → Option Receipt
read_at user proposal t k = if of_key user proposal k then lookup key_of k t.rows else none

lookup-list_by_proposal :
    (user : ℕ) (proposal : Text) (t : Table) (k : ReceiptKey)
    → Unique key_of t.rows
    → lookup key_of k (list_by_proposal_stmt user proposal t.rows) ≡ read_at user proposal t k
unfolding list_by_proposal_stmt
lookup-list_by_proposal user proposal t k u =
    lookup-order_by key_of later_first k (filter (of_proposal user proposal) t.rows)
      (Unique-filter key_of (of_key user proposal) t.rows u)
    ∙ lookup-filter key_of (of_key user proposal) k t.rows

Unique-list_by_proposal :
    (user : ℕ) (proposal : Text) (t : Table)
    → Unique key_of t.rows
    → Unique key_of (list_by_proposal_stmt user proposal t.rows)
unfolding list_by_proposal_stmt
Unique-list_by_proposal user proposal t u =
    Unique-order_by key_of later_first _ (Unique-filter key_of (of_key user proposal) t.rows u)

revise-none :
    (d : Reading) (votes : List ChainVote) (o : Option Receipt)
    → Option.map (revise d votes none) o ≡ o
unfolding revise
revise-none d votes none = refl
revise-none d votes (some x) = refl

lookup-reconcile_listed :
    (d : Reading) (user : ℕ) (proposal : Text) (read : List Receipt) (votes : List ChainVote)
    (t : Table) (k : ReceiptKey)
    → Unique key_of read
    → lookup key_of k (reconcile_listed d user proposal read (some votes) t).0.rows
      ≡ Option.map (revise d votes (lookup key_of k read)) (lookup key_of k t.rows)
unfolding reconcile_listed lookup
lookup-reconcile_listed d user proposal [] votes t k u =
    sym (revise-none d votes (lookup key_of k t.rows))
lookup-reconcile_listed d user proposal (r ∷ rs) votes t k u =
    lookup-transact d votes k (r ∷ rs) t.rows 0 u

-- For a positive user id and a 64-digit hash, with Core's votes at hand and unique keys among
-- the receipts that were read, each row of the table at commit time is revised by the receipt
-- that was read under its key, if that was the user's own for the proposal; no row is added or
-- removed.
pub lookup-reconcile_for_proposal :
    (d : Reading) (u : ℕ) (hash : Text) (votes : List ChainVote) (before t : Table) (k : ReceiptKey)
    → Unique key_of before.rows
    → is_hex64 hash ≡ true
    → lookup key_of k
        (reconcile_for_proposal d (int (pos (suc u))) (str hash) (some votes) before t).0.rows
      ≡ Option.map
          (revise d votes (read_at (suc u) (to_lower_case hash) before k))
          (lookup key_of k t.rows)
unfolding reconcile_for_proposal
lookup-reconcile_for_proposal d u hash votes before t k unique hex =
    let proposal = to_lower_case hash in
    let listed = list_by_proposal_stmt (suc u) proposal before.rows in
    rw (hex, reconcile_for_proposal, ← lookup-list_by_proposal (suc u) proposal before k unique)
      (lookup-reconcile_listed d (suc u) proposal listed votes t k
        (Unique-list_by_proposal (suc u) proposal before unique))
