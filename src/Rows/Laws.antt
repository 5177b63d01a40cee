-- ===== src/Rows/Laws.antt =====
-- What lookup finds after each statement, and that the statements keep keys unique.
use sysnode_backend.Base.{
  ◌≡◌, refl, Bool, none, some, List, [], ◌∷◌, ◌++◌, arith, if◌then◌else◌, Bool-cases, inl, inr,
  ◌>>=◌, filter,
}
use sysnode_backend.Eq.{Eq}
use sysnode_backend.Rows.{update_where, delete_where, lookup, Unique}
use mathlib.Core.Option

module _ {ℓ κ} {K : Type κ} {R : Type ℓ} ⦃e : Eq K⦄ (key : R → K) where
  pub lookup-append :
      (k : K) (rs : List R) (r : R)
      → lookup key k (rs ++ r ∷ []) ≡ elim (lookup key k rs) [
        | some x ↦ some x
        | none ↦ if e.beq (key r) k then some r else none
      ]
  unfolding lookup
  lookup-append k [] r = refl
  lookup-append k (x ∷ rs) r = ground (arith, lookup-append k rs r)

  pub lookup-key : (k : K) (rs : List R) (r : R) → lookup key k rs ≡ some r → key r ≡ k
  unfolding lookup
  lookup-key k [] r h = cc
  lookup-key k (x ∷ rs) r h = ground (arith, lookup-key k rs r, e.beq_iff (key x) k)

  pub lookup-update_where :
      (p : R → Bool) (f : R → R)
      → ((r : R) → key (f r) ≡ key r)
      → (k : K) (rs : List R)
      → lookup key k (update_where p f rs)
        ≡ Option.map (λ r. if p r then f r else r) (lookup key k rs)
  unfolding lookup update_where
  lookup-update_where p f same k [] = refl
  lookup-update_where p f same k (r ∷ rs) =
      ground (arith, same r, lookup-update_where p f same k rs)

  -- An update of one key's row.
  pub lookup-update_key :
      (f : R → R)
      → ((r : R) → key (f r) ≡ key r)
      → (k j : K) (rs : List R)
      → lookup key j (update_where (λ r. e.beq (key r) k) f rs)
        ≡ (if e.beq k j then Option.map f (lookup key k rs) else lookup key j rs)
  unfolding lookup update_where
  lookup-update_key f same k j [] = ground arith
  lookup-update_key f same k j (r ∷ rs) = ground (
    arith,
    same r,
    lookup-update_key f same k j rs,
    e.beq_iff (key r) k,
    e.beq_iff (key r) j,
    e.beq_iff k j,
  )

  pub Unique-update_where :
      (p : R → Bool) (f : R → R)
      → ((r : R) → key (f r) ≡ key r)
      → (rs : List R) → Unique key rs
      → Unique key (update_where p f rs)
  unfolding update_where
  Unique-update_where p f same [] u = tt
  Unique-update_where p f same (r ∷ rs) u = (
    ground (arith, same r, lookup-update_where p f same (key r) rs),
    Unique-update_where p f same rs u.1,
  )

  pub Unique-append :
      (rs : List R) (r : R)
      → lookup key (key r) rs ≡ none
      → Unique key rs
      → Unique key (rs ++ r ∷ [])
  unfolding lookup
  Unique-append [] r h u = (refl, tt)
  Unique-append (x ∷ rs) r h u = (
    ground
        (arith, lookup-append (key x) rs r, e.beq_iff (key r) (key x), e.beq_iff (key x) (key r)),
    Unique-append rs r (ground (arith, e.beq_iff (key x) (key r))) u.1,
  )

  pub lookup-delete_where :
      (p : R → Bool) (k : K) (rs : List R)
      → Unique key rs
      → lookup key k (delete_where p rs) ≡ (lookup key k rs >>= λ r. if p r then none else some r)
  unfolding lookup delete_where
  lookup-delete_where p k [] u = refl
  lookup-delete_where p k (r ∷ rs) u =
      ground (arith, lookup-delete_where p k rs u.1, e.beq_iff (key r) k, u.0)

  pub Unique-delete_where :
      (p : R → Bool) (rs : List R) → Unique key rs → Unique key (delete_where p rs)
  unfolding delete_where
  Unique-delete_where p [] u = tt
  Unique-delete_where p (r ∷ rs) u = elim (Bool-cases (p r)) [
    | inl gone ↦ rw gone (Unique-delete_where p rs u.1)
    | inr kept ↦
        rw kept (ground (arith, lookup-delete_where p (key r) rs u.1), Unique-delete_where p rs u.1)
  ]

  -- A filter by a test of the key.
  pub lookup-filter :
      (p : K → Bool) (k : K) (rs : List R)
      → lookup key k (filter (λ r. p (key r)) rs) ≡ (if p k then lookup key k rs else none)
  unfolding lookup
  lookup-filter p k [] = ground arith
  lookup-filter p k (r ∷ rs) = ground (arith, lookup-filter p k rs, e.beq_iff (key r) k)

  pub Unique-filter :
      (p : K → Bool) (rs : List R) → Unique key rs → Unique key (filter (λ r. p (key r)) rs)
  Unique-filter p [] u = tt
  Unique-filter p (r ∷ rs) u = elim (Bool-cases (p (key r))) [
    | inl kept ↦ rw kept (ground (arith, lookup-filter p (key r) rs, u.0), Unique-filter p rs u.1)
    | inr gone ↦ rw gone (Unique-filter p rs u.1)
  ]
