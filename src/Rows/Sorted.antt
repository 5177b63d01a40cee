-- ===== src/Rows/Sorted.antt =====
-- ORDER BY: rows inserted one by one before the first row that must not precede them. Ties keep
-- the order of the table.
use sysnode_backend.Base.{
  ◌≡◌, refl, Bool, none, some, List, [], ◌∷◌, arith, if◌then◌else◌, Bool-cases, inl, inr,
}
use sysnode_backend.Eq.{Eq}
use sysnode_backend.Rows.{lookup, Unique}

module _ {ℓ} {R : Type ℓ} (before : R → R → Bool) where
  pub insert_row : R → List R → List R
  insert_row r [] = r ∷ []
  insert_row r (x ∷ rs) = let rest = insert_row r rs in if before x r then x ∷ rest else r ∷ x ∷ rs

  unfoldable pub order_by : List R → List R
  unfolding insert_row
  order_by [] = []
  order_by (r ∷ rs) = insert_row r (order_by rs)

module _ {ℓ κ} {K : Type κ} {R : Type ℓ} ⦃e : Eq K⦄ (key : R → K) (before : R → R → Bool) where
  lookup-insert_row :
      (k : K) (r : R) (rs : List R)
      → lookup key (key r) rs ≡ none
      → lookup key k (insert_row before r rs)
        ≡ (if e.beq (key r) k then some r else lookup key k rs)
  unfolding lookup insert_row
  lookup-insert_row k r [] h = refl
  lookup-insert_row k r (x ∷ rs) h = ground (
    arith,
    lookup-insert_row k r rs,
    e.beq_iff (key x) (key r),
    e.beq_iff (key x) k,
    e.beq_iff (key r) k,
  )

  Unique-insert_row :
      (r : R) (rs : List R)
      → lookup key (key r) rs ≡ none
      → Unique key rs
      → Unique key (insert_row before r rs)
  unfolding lookup insert_row
  Unique-insert_row r [] h u = (refl, tt)
  Unique-insert_row r (x ∷ rs) h u = elim (Bool-cases (before x r)) [
    | inl first ↦ rw first (
      ground (
        arith,
        lookup-insert_row (key x) r rs,
        e.beq_iff (key x) (key r),
        e.beq_iff (key r) (key x),
      ),
      Unique-insert_row r rs (ground (arith, e.beq_iff (key x) (key r))) u.1,
    )
    | inr second ↦ rw second (h, u)
  ]

  -- Sorting keeps every row under its key.
  pub lookup-order_by :
      (k : K) (rs : List R) → Unique key rs → lookup key k (order_by before rs) ≡ lookup key k rs
  unfolding order_by
  lookup-order_by k [] u = refl
  lookup-order_by k (r ∷ rs) u =
      rw
        (
          lookup-insert_row k r (order_by before rs) (rw (lookup-order_by (key r) rs u.1) u.0),
          lookup-order_by k rs u.1,
        )
        (unfold lookup in refl)

  pub Unique-order_by : (rs : List R) → Unique key rs → Unique key (order_by before rs)
  unfolding order_by
  Unique-order_by [] u = tt
  Unique-order_by (r ∷ rs) u =
      Unique-insert_row r (order_by before rs) (rw (lookup-order_by (key r) rs u.1) u.0)
        (Unique-order_by rs u.1)
