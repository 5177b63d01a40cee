-- ===== src/Receipts/Reconcile/Plan.antt =====
-- What the plan for one receipt says, and the columns that the compare-and-swap fixes.
use sysnode_backend.Base.{
  ℕ, ◌≡◌, ◌≢◌, refl, ap, ◌⊎◌, inl, inr, Bool, true, false, ◌&&◌, Option, none, some, List, [], ◌∷◌,
  arith, ◌==◌, if◌then◌else◌, Option-cases, Bool-cases, ==_iff, Text, codes, same_text_iff, eqb_ℤ,
  eqb_ℤ_iff,
}
use mathlib.Core.List.{Memᴰ}
use sysnode_backend.Receipts.Types.{
  Outcome, Signal, Status, relayed, confirmed, stale, failed, submission_unknown,
}
use sysnode_backend.Receipts.Parse.{ChainVote}
use sysnode_backend.Receipts.Table.{same_key, same_key_iff, key_eq, Receipt}
use sysnode_backend.Receipts.Upsert.{same_outcome, same_signal}
use sysnode_backend.Receipts.Reconcile.{
  Reading, turn_stale, adopt, chain_vote, plan, plan_absent, plan_present, unchanged,
  supersedes_intent, is_exact, same_slot, same_status,
}

-- The columns that a reconciliation compares before it writes.
pub record Twin (r x : Receipt) : Type 0 where
  pub key : x.key ≡ r.key
  pub time : x.vote_time ≡ r.vote_time
  pub outcome : x.vote_outcome ≡ r.vote_outcome
  pub signal : x.vote_signal ≡ r.vote_signal
  pub submitted : x.submitted_at ≡ r.submitted_at
  pub status : x.status ≡ r.status

six_tests :
    (a b c d e f : Bool)
    → (a && b && c && d && e && f) ≡ true
    → (a ≡ true) × (b ≡ true) × (c ≡ true) × (d ≡ true) × (e ≡ true) × (f ≡ true)
six_tests a b c d e f h = ground arith

same_outcome-eq : (a b : Outcome) → same_outcome a b ≡ true → a ≡ b
same_outcome-eq a b h = ground arith

same_signal-eq : (a b : Signal) → same_signal a b ≡ true → a ≡ b
same_signal-eq a b h = ground arith

same_status-eq : (a b : Status) → same_status a b ≡ true → a ≡ b
same_status-eq a b h = ground arith

pub unchanged-Twin : (r x : Receipt) → unchanged r x ≡ true → Twin r x
unfolding unchanged
unchanged-Twin r x h =
    let (key, time, outcome, signal, submitted, status) =
      six_tests (same_key x.key r.key) (eqb_ℤ x.vote_time r.vote_time)
        (same_outcome x.vote_outcome r.vote_outcome) (same_signal x.vote_signal r.vote_signal)
        (x.submitted_at == r.submitted_at) (same_status x.status r.status) h in
    record {
      key = (same_key_iff x.key r.key).0 key;
      time = (eqb_ℤ_iff x.vote_time r.vote_time).0 time;
      outcome = same_outcome-eq x.vote_outcome r.vote_outcome outcome;
      signal = same_signal-eq x.vote_signal r.vote_signal signal;
      submitted = (==_iff x.submitted_at r.submitted_at).0 submitted;
      status = same_status-eq x.status r.status status;
    }

-- A vote in the list that Core returned, for the collateral output and the signal of a receipt.
pub record IsListed (votes : List ChainVote) (x : Receipt) (v : ChainVote) : Type 0 where
  pub listed : Memᴰ v votes
  pub hash : v.collateral_hash ≡ x.key.collateral_hash
  pub index : v.collateral_index ≡ x.key.collateral_index
  pub signal : v.vote_signal ≡ x.vote_signal

IsListed-cons :
    {votes : List ChainVote} {x : Receipt} {v u : ChainVote}
    → IsListed votes x v
    → IsListed (u ∷ votes) x v
IsListed-cons l = record {
  listed = Memᴰ.tail l.listed;
  hash = l.hash;
  index = l.index;
  signal = l.signal;
}

picked :
    (u v : ChainVote) (r : Receipt)
    → (if same_slot u r then some u else none) ≡ some v
    → (u ≡ v) × (same_slot u r ≡ true)
picked u v r h = elim (Bool-cases (same_slot u r)) [
  | inl e ↦ (cc (rw e at h), e)
  | inr e ↦ cc (rw e at h)
]

IsListed-head :
    (u : ChainVote) (us : List ChainVote) (r : Receipt)
    → same_slot u r ≡ true
    → IsListed (u ∷ us) r u
IsListed-head u us r h = record {
  listed = Memᴰ.head refl;
  hash = ground (arith, same_text_iff u.collateral_hash r.key.collateral_hash);
  index = ground arith;
  signal = same_signal-eq u.vote_signal r.vote_signal (ground arith);
}

pub chain_vote-IsListed :
    (votes : List ChainVote) (r : Receipt) (v : ChainVote)
    → chain_vote votes r ≡ some v
    → IsListed votes r v
unfolding chain_vote
chain_vote-IsListed [] r v h = cc
chain_vote-IsListed (u ∷ us) r v h = elim (Option-cases (chain_vote us r)) [
  | inl e ↦
      let (same, slot) = picked u v r (rw (e, chain_vote) at h) in
      rw (← same) (IsListed-head u us r slot)
  | inr (w, e) ↦ IsListed-cons (chain_vote-IsListed us r v (ground arith))
]

module _ (d : Reading) (r : Receipt) where
  plan_absent-turn_stale :
      (base : ℕ) (s : Status)
      → plan_absent d r s ≡ turn_stale base
      → ((s ≡ relayed) × (base ≡ d.now))
        ⊎ ((s ≡ submission_unknown) × (d.fresh ≡ true) × (base ≡ d.started_at))
  unfolding plan_absent
  plan_absent-turn_stale base submission_unknown h = inr (refl, ground arith, ground arith)
  plan_absent-turn_stale base relayed h = inl (refl, ground arith)
  plan_absent-turn_stale base failed h = cc
  plan_absent-turn_stale base stale h = cc
  plan_absent-turn_stale base confirmed h = cc

  plan_absent-adopt :
      (v : ChainVote) (e : Option Text) (t : ℕ) (s : Status) → plan_absent d r s ≢ adopt v e t
  unfolding plan_absent
  plan_absent-adopt v e t submission_unknown h = ground arith
  plan_absent-adopt v e t relayed h = ground arith
  plan_absent-adopt v e t failed h = cc
  plan_absent-adopt v e t stale h = cc
  plan_absent-adopt v e t confirmed h = cc

  plan_present-turn_stale :
      (u : ChainVote) (base : ℕ) (s : Status)
      → plan_present d r u s ≡ turn_stale base
      → (s ≡ submission_unknown) × (d.fresh ≡ true) × (base ≡ d.started_at)
  unfolding plan_present
  plan_present-turn_stale u base submission_unknown h =
      ground (arith, plan_absent-turn_stale base submission_unknown)
  plan_present-turn_stale u base relayed h = cc
  plan_present-turn_stale u base failed h = cc
  plan_present-turn_stale u base stale h = cc
  plan_present-turn_stale u base confirmed h = cc

  -- What the plan says of a vote that it adopts.
  abbrev pub Adopts : ChainVote → Option Text → ℕ → Status → Type 0
  Adopts v e t s =
      (t ≡ d.now)
      × (((s ≢ submission_unknown) × (e ≡ none))
          ⊎ ((s ≡ submission_unknown)
              × (is_exact v r ≡ true)
              × (supersedes_intent v r ≡ false)
              × (e ≡ none))
          ⊎ ((s ≡ submission_unknown)
              × (supersedes_intent v r ≡ true)
              × (e ≡ some (codes "superseded_by_later_vote"))))

  plan_present-adopt :
      (u v : ChainVote) (e : Option Text) (t : ℕ) (s : Status)
      → plan_present d r u s ≡ adopt v e t
      → (u ≡ v) × Adopts v e t s
  unfolding plan_present
  plan_present-adopt u v e t submission_unknown h = elim (Bool-cases (supersedes_intent u r)) [
    | inl later ↦ ground arith
    | inr earlier ↦ elim (Bool-cases (is_exact u r)) [
      | inl exact ↦ ground arith
      | inr other ↦ absurd (plan_absent-adopt v e t submission_unknown (rw (other, earlier) at h))
    ]
  ]
  plan_present-adopt u v e t relayed h = (cc, (cc, inl (λ k. cc, cc)))
  plan_present-adopt u v e t failed h = (cc, (cc, inl (λ k. cc, cc)))
  plan_present-adopt u v e t stale h = (cc, (cc, inl (λ k. cc, cc)))
  plan_present-adopt u v e t confirmed h = (cc, (cc, inl (λ k. cc, cc)))

  pub plan-turn_stale :
      (o : Option ChainVote) (base : ℕ)
      → plan d r o ≡ turn_stale base
      → ((r.status ≡ relayed) × (base ≡ d.now))
        ⊎ ((r.status ≡ submission_unknown) × (d.fresh ≡ true) × (base ≡ d.started_at))
  unfolding plan
  plan-turn_stale none base h = plan_absent-turn_stale base r.status h
  plan-turn_stale (some u) base h = inr (plan_present-turn_stale u base r.status h)

  pub plan-adopt :
      (o : Option ChainVote) (v : ChainVote) (e : Option Text) (t : ℕ)
      → plan d r o ≡ adopt v e t
      → (o ≡ some v) × Adopts v e t r.status
  unfolding plan
  plan-adopt none v e t h = absurd (plan_absent-adopt v e t r.status h)
  plan-adopt (some u) v e t h =
      let (same, a) = plan_present-adopt u v e t r.status h in (ap some same, a)
