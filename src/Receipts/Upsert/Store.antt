-- ===== src/Receipts/Upsert/Store.antt =====
-- Which row the upsert leaves under each key.
use sysnode_backend.Base.{
  ℕ, ◌≡◌, refl, Option, none, some, arith, if◌then◌else◌, Option-cases, inl, inr,
}
use sysnode_backend.Rows.{lookup}
use sysnode_backend.Rows.Laws.{lookup-append, lookup-update_key}
use sysnode_backend.Receipts.Table.{
  ReceiptKey, same_key, same_key_iff, key_eq, Receipt, key_of, Table, Attempt,
}
use sysnode_backend.Receipts.Upsert.{accepts, overwrite, fresh_row, upsert_stmt}

-- The row that one key has after an attempt at it, from the row it had.
unfoldable pub settle : Attempt → ℕ → ℕ → Option Receipt → Option Receipt
settle a now id none = some (fresh_row a now id)
settle a now id (some r) = some (if accepts r a then overwrite a now r else r)

-- After the upsert the attempt's key has the settled row, and every other key the row it had.
pub lookup-upsert_stmt :
    (a : Attempt) (now : ℕ) (t : Table) (k : ReceiptKey)
    → lookup key_of k (upsert_stmt a now t).rows ≡ (
        if same_key a.key k
        then settle a now t.next_id (lookup key_of a.key t.rows)
        else lookup key_of k t.rows)
unfolding upsert_stmt settle
lookup-upsert_stmt a now t k = elim (Option-cases (lookup key_of a.key t.rows)) [
  | inl missing ↦
      ground
        (arith, lookup-append key_of k t.rows (fresh_row a now t.next_id), same_key_iff a.key k)
  | inr (r, found) ↦ ground (
    arith,
    lookup-update_key key_of (overwrite a now) (λ x. refl) a.key k t.rows,
    same_key_iff a.key k,
  )
]
