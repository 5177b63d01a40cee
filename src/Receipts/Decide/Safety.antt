-- ===== src/Receipts/Decide/Safety.antt =====
-- What each decision of `decideRelay` means for the receipt on file.
use mathlib.Core.Path.{subst}
use sysnode_backend.Base.{
  sym, some_inj, ℕ, ◌+◌, ◌≤◌, ◌<◌, ◌≡◌, refl, ◌↔◌, ◌⊎◌, inl, inr, Bool, true, false, Option, none,
  some, arith,
}
use sysnode_backend.Receipts.Types.{
  Outcome, Signal, Status, relayed, confirmed, stale, failed, submission_unknown,
}
use sysnode_backend.Receipts.Table.{Receipt}
use sysnode_backend.Receipts.Upsert.{signal_number, outcome_order}
use sysnode_backend.Receipts.Decide.{
  Windows, Decision, relay_new, relay_again, stale_confirmed, decide_receipt, decide_existing,
  is_fresh,
}

-- The receipt is for the requested vote.
abbrev pub SameVote : Outcome → Signal → Receipt → Type 0
SameVote o s r = (r.vote_outcome ≡ o) × (r.vote_signal ≡ s)

-- A time not after now and less than the window ago.
abbrev pub IsWithin : ℕ → ℕ → ℕ → Type 0
IsWithin now since window = (since ≤ now) × (now < since + window)

-- Why a submission may be left out.
abbrev pub Covers : Windows → ℕ → Outcome → Signal → Receipt → Type 0
Covers w now o s r =
    SameVote o s r
    × (((r.status ≡ confirmed)
          × ((at : ℕ) × (r.verified_at ≡ some at)
              × (0 < at)
              × IsWithin now at w.confirmed_skip_freshness_ms))
        ⊎ ((r.status ≡ relayed) × IsWithin now r.submitted_at w.recent_relay_ms))

-- Whether a decision calls Core.
abbrev pub relays : Decision → Bool
relays relay_new = true
relays (relay_again r) = true
relays (stale_confirmed r) = true
relays _ = false

same_of_signal : (a b : Signal) → signal_number a ≡ signal_number b → a ≡ b
same_of_signal a b h = ground arith

same_of_order : (a b : Outcome) → outcome_order a ≡ outcome_order b → a ≡ b
same_of_order a b h = ground arith

fresh-IsWithin :
    (w : Windows) (now : ℕ) (v : Option ℕ)
    → is_fresh w now v ≡ true
    → (at : ℕ) × (v ≡ some at) × (0 < at) × IsWithin now at w.confirmed_skip_freshness_ms
fresh-IsWithin w now none h = cc
fresh-IsWithin w now (some at) h = (at, refl, ground arith, ground arith)

IsWithin-fresh :
    (w : Windows) (now at : ℕ) (v : Option ℕ)
    → v ≡ some at
    → 0 < at
    → IsWithin now at w.confirmed_skip_freshness_ms
    → is_fresh w now v ≡ true
IsWithin-fresh w now at v e p h = rw e (ground arith)

module _ (w : Windows) (now : ℕ) (o : Outcome) (s : Signal) (r : Receipt) where
  Covers-of_confirmed :
      r.status ≡ confirmed
      → relays (decide_existing w now o s r confirmed) ≡ false
      → Covers w now o s r
  unfolding decide_existing
  Covers-of_confirmed e h = (
    (
      ground (arith, same_of_order r.vote_outcome o),
      ground (arith, same_of_signal r.vote_signal s),
    ),
    inl (e, fresh-IsWithin w now r.verified_at (ground arith)),
  )

  Covers-of_relayed :
      r.status ≡ relayed → relays (decide_existing w now o s r relayed) ≡ false → Covers w now o s r
  unfolding decide_existing
  Covers-of_relayed e h = (
    (
      ground (arith, same_of_order r.vote_outcome o),
      ground (arith, same_of_signal r.vote_signal s),
    ),
    inr (e, (ground arith, ground arith)),
  )

  unresolved_of_status :
      (st : Status)
      → r.status ≡ st
      → relays (decide_existing w now o s r st) ≡ false
      → (r.status ≡ submission_unknown) ⊎ Covers w now o s r
  unfolding decide_existing
  unresolved_of_status confirmed e h = inr (Covers-of_confirmed e h)
  unresolved_of_status relayed e h = inr (Covers-of_relayed e h)
  unresolved_of_status submission_unknown e h = inl e
  unresolved_of_status stale e h = ground arith
  unresolved_of_status failed e h = ground arith

  silent_of_unresolved :
      (r.status ≡ submission_unknown) ⊎ Covers w now o s r
      → relays (decide_existing w now o s r r.status) ≡ false
  unfolding decide_existing
  silent_of_unresolved (inl e) = rw e refl
  silent_of_unresolved (inr ((same_o, same_s), inl (e, (at, v, p, h)))) =
      ground (arith, IsWithin-fresh w now at r.verified_at v p h)
  silent_of_unresolved (inr ((same_o, same_s), inr (e, h))) = ground arith

-- A vote is not relayed exactly when a receipt for its slot is unresolved, or covers the same vote:
-- confirmed with a verification inside the freshness window, or relayed inside the recent window.
pub decide_receipt_iff :
    (w : Windows) (now : ℕ) (o : Outcome) (s : Signal) (existing : Option Receipt)
    → (relays (decide_receipt w now o s existing) ≡ false) ↔ (
        (r : Receipt) × (existing ≡ some r)
        × ((r.status ≡ submission_unknown) ⊎ Covers w now o s r))
unfolding decide_receipt
decide_receipt_iff w now o s none = (λ h. cc, λ h. cc (h.1))
decide_receipt_iff w now o s (some r) = (
  λ h. (r, refl, unresolved_of_status w now o s r r.status refl h),
  λ (x, e, h).
      silent_of_unresolved w now o s r
        (subst (λ y. (y.status ≡ submission_unknown) ⊎ Covers w now o s y) (sym (some_inj e)) h),
)
