-- ===== src/Receipts/Upsert/Completion.antt =====
-- Completion order is not intent order: relays of one vote slot may complete in any order.
use sysnode_backend.Base.{ℕ, ◌≡◌, refl, sym, ◌∙◌, ap, Option, none, some, List, [], ◌∷◌, All}
use mathlib.Core.Path.{subst, subst₂}
use mathlib.Core.List.{Perm, Permᴰ}
use mathlib.Core.Logic.{∥∥₁_elim}
use sysnode_backend.Rows.{lookup}
use sysnode_backend.Receipts.Types.{Signal}
use sysnode_backend.Receipts.Table.{ReceiptKey, key_eq, key_of, Table, Attempt}
use sysnode_backend.Receipts.Upsert.{upsert_stmt}
use sysnode_backend.Receipts.Upsert.Order.{
  Claim, Claim-set, attempted, claim_at, HasSignal, raise, highest, highest_comm, highest_assoc,
  claim_at-upsert_stmt, HasSignal-upsert_stmt,
}

-- Relays that complete one after the other, each at its own time.
unfoldable pub complete : List (ℕ × Attempt) → Table → Table
complete [] t = t
complete ((now, a) ∷ cs) t = complete cs (upsert_stmt a now t)

-- All relays are for one user, masternode and proposal, with one signal.
abbrev pub Concern : ReceiptKey → Signal → ℕ × Attempt → Type 0
Concern k s c = (c.1.key ≡ k) × (c.1.vote_signal ≡ s)

raise_all : List (ℕ × Attempt) → Option Claim → Option Claim
raise_all [] c = c
raise_all ((now, a) ∷ cs) c = raise_all cs (some (raise (attempted a) c))

claim_at-complete :
    (k : ReceiptKey) (s : Signal) (cs : List (ℕ × Attempt)) (t : Table)
    → All (Concern k s) cs
    → HasSignal s (lookup key_of k t.rows)
    → claim_at k (complete cs t) ≡ raise_all cs (claim_at k t)
unfolding complete raise_all
claim_at-complete k s [] t h p = refl
claim_at-complete k s ((now, a) ∷ cs) t h p =
    let at : HasSignal a.vote_signal (lookup key_of a.key t.rows) = rw (h.0.0, h.0.1) p in
    claim_at-complete k s cs (upsert_stmt a now t) h.1 (
      subst₂ (λ j u. HasSignal u (lookup key_of j (upsert_stmt a now t).rows)) h.0.0 h.0.1
        (HasSignal-upsert_stmt a now t at))
    ∙ ap (raise_all cs) (
        subst (λ j. claim_at j (upsert_stmt a now t) ≡ some (raise (attempted a) (claim_at j t)))
          h.0.0 (claim_at-upsert_stmt a now t at))

raise_swap :
    (c d : Claim) (o : Option Claim)
    → some (raise d (some (raise c o))) ≡ some (raise c (some (raise d o)))
raise_swap c d none = ap some (highest_comm c d)
raise_swap c d (some e) =
    ap some (highest_assoc e c d ∙ ap (highest e) (highest_comm c d) ∙ sym (highest_assoc e d c))

raise_all-permᴰ :
    {xs ys : List (ℕ × Attempt)}
    → Permᴰ xs ys
    → (o : Option Claim) → raise_all xs o ≡ raise_all ys o
unfolding raise_all
raise_all-permᴰ Permᴰ.nil o = refl
raise_all-permᴰ (Permᴰ.cons {a = x} {b = y} {l₁ = l} {l₂ = m} e p) o =
    rw e (raise_all-permᴰ p (some (raise (attempted y.1) o)))
raise_all-permᴰ (Permᴰ.swap {a = x} {b = y} {a' = z} {b' = w} {l = l} e f) o =
    rw (e, f) (ap (raise_all l) (raise_swap (attempted w.1) (attempted z.1) o))
raise_all-permᴰ (Permᴰ.trans p q) o = raise_all-permᴰ p o ∙ raise_all-permᴰ q o

Concern-permᴰ :
    (k : ReceiptKey) (s : Signal) {xs ys : List (ℕ × Attempt)}
    → Permᴰ xs ys
    → All (Concern k s) xs
    → All (Concern k s) ys
Concern-permᴰ k s Permᴰ.nil h = h
Concern-permᴰ k s (Permᴰ.cons e p) h = (subst (Concern k s) e h.0, Concern-permᴰ k s p h.1)
Concern-permᴰ k s (Permᴰ.swap e f) h =
    (subst (Concern k s) f h.1.0, (subst (Concern k s) e h.0, h.1.1))
Concern-permᴰ k s (Permᴰ.trans p q) h = Concern-permᴰ k s q (Concern-permᴰ k s p h)

-- For relays of one vote slot with one signal, over a table whose row there, if any, has that
-- signal: in whatever order they complete and at whatever times, the row ends with the same vote
-- time, the same outcome and the same rank of evidence.
pub complete-perm :
    (k : ReceiptKey) (s : Signal) (xs ys : List (ℕ × Attempt)) (t : Table)
    → Perm xs ys
    → All (Concern k s) xs
    → HasSignal s (lookup key_of k t.rows)
    → claim_at k (complete xs t) ≡ claim_at k (complete ys t)
complete-perm k s xs ys t p h sig = ∥∥₁_elim p (Claim-set _ _) λ q.
    claim_at-complete k s xs t h sig
    ∙ raise_all-permᴰ q (claim_at k t)
    ∙ sym (claim_at-complete k s ys t (Concern-permᴰ k s q h) sig)
