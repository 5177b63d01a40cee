-- ===== src/Rows.antt =====
-- Tables of a SQL database: rows with a key, and the statements that the program runs on them.
pub mod Laws
pub mod Sorted
use sysnode_backend.Base.{
  ℕ, zero, suc, ◌≡◌, Bool, true, false, not, Option, none, some, List, [], ◌∷◌, ◌++◌, map, filter,
  if◌then◌else◌, ◌<◌,
}
use sysnode_backend.Eq.{Eq}

module _ {ℓ} {R : Type ℓ} where
  -- UPDATE … SET … WHERE …
  unfoldable pub update_where : (R → Bool) → (R → R) → List R → List R
  update_where p f [] = []
  update_where p f (r ∷ rs) = (if p r then f r else r) ∷ update_where p f rs

  -- DELETE FROM … WHERE …
  unfoldable pub delete_where : (R → Bool) → List R → List R
  delete_where p [] = []
  delete_where p (r ∷ rs) = let rest = delete_where p rs in if p r then rest else r ∷ rest

  -- The number of rows that a statement's WHERE clause selects.
  unfoldable pub count_where : (R → Bool) → List R → ℕ
  count_where p [] = zero
  count_where p (r ∷ rs) = let rest = count_where p rs in if p r then suc rest else rest

module _ {ℓ κ} {K : Type κ} {R : Type ℓ} ⦃e : Eq K⦄ (key : R → K) where
  -- The row with a key.
  unfoldable pub lookup : K → List R → Option R
  lookup k [] = none
  lookup k (r ∷ rs) = let rest = lookup k rs in if e.beq (key r) k then some r else rest

  -- A UNIQUE constraint: no two rows share a key.
  abbrev pub Unique : List R → Type ℓ
  Unique [] = Unit
  Unique (r ∷ rs) = (lookup (key r) rs ≡ none) × Unique rs
