-- ===== src/Receipts/Upsert/Order.antt =====
-- The upsert keeps the highest claim: a later time first, then Core's order of outcomes, then the
-- stronger evidence of delivery.
use sysnode_backend.Base.{
  ℕ, ◌≡◌, refl, ap, Bool, true, false, ◌&&◌, ◌||◌, Option, none, some, arith, ltb, ◌==◌,
  if◌then◌else◌, ℤ, pos, ltb_ℤ, eqb_ℤ,
}
use mathlib.Core.Option
use sysnode_backend.Rows.{lookup}
use sysnode_backend.Receipts.Types.{Outcome, Signal}
use sysnode_backend.Receipts.Table.{
  ReceiptKey, same_key_iff, key_eq, Receipt, key_of, Table, Attempt,
}
use sysnode_backend.Receipts.Upsert.{outcome_order, evidence, accepts, overwrite, upsert_stmt}
use sysnode_backend.Receipts.Upsert.Store.{settle, lookup-upsert_stmt}

-- What a receipt or an attempt says of the vote.
pub record Claim : Type 0 where
  pub time : ℤ
  pub outcome : Outcome
  pub strength : ℕ

abbrev pub claim_of : Receipt → Claim
claim_of r = record { time = r.vote_time; outcome = r.vote_outcome; strength = evidence r.status }

abbrev pub attempted : Attempt → Claim
attempted a = record {
  time = pos a.vote_time;
  outcome = a.vote_outcome;
  strength = evidence a.status;
}

-- `d` is strictly higher than `c`.
pub outranks : Claim → Claim → Bool
outranks d c =
    ltb_ℤ c.time d.time
    || (eqb_ℤ c.time d.time
        && (ltb (outcome_order c.outcome) (outcome_order d.outcome)
            || (outcome_order c.outcome == outcome_order d.outcome && ltb c.strength d.strength)))

pub highest : Claim → Claim → Claim
highest c d = if outranks d c then d else c

outcome_order-injective : (a b : Outcome) → outcome_order a ≡ outcome_order b → a ≡ b
outcome_order-injective a b h = ground arith

outranks_trans : (a b c : Claim) → outranks a b ≡ true → outranks b c ≡ true → outranks a c ≡ true
unfolding outranks
outranks_trans a b c h k = ground arith

outranks_asymm : (a b : Claim) → outranks a b ≡ true → outranks b a ≡ false
unfolding outranks
outranks_asymm a b h = ground arith

outranks_total : (a b : Claim) → outranks a b ≡ false → outranks b a ≡ false → a ≡ b
unfolding outranks
outranks_total a b h k = ground (arith, outcome_order-injective a.outcome b.outcome)

pub highest_comm : (c d : Claim) → highest c d ≡ highest d c
unfolding highest
highest_comm c d = ground (arith, outranks_asymm c d, outranks_asymm d c, outranks_total c d)

pub highest_assoc : (a b c : Claim) → highest (highest a b) c ≡ highest a (highest b c)
unfolding highest
highest_assoc a b c = ground (
  arith,
  outranks_trans c b a,
  outranks_trans b a c,
  outranks_trans c a b,
  outranks_trans a c b,
  outranks_asymm a c,
  outranks_asymm c a,
  outranks_asymm b a,
  outranks_asymm a b,
  outranks_asymm c b,
  outranks_total c a,
  outranks_total a b,
  outranks_total c b,
)

-- For votes with one signal the conditional statement keeps the higher of the two claims.
claim-overwrite :
    (a : Attempt) (now : ℕ) (r : Receipt)
    → r.vote_signal ≡ a.vote_signal
    → claim_of (if accepts r a then overwrite a now r else r) ≡ highest (claim_of r) (attempted a)
unfolding accepts highest outranks
claim-overwrite a now r h = ground (arith, outcome_order-injective r.vote_outcome a.vote_outcome)

-- The claim under a key, once attempts at it were made.
abbrev pub claim_at : ReceiptKey → Table → Option Claim
claim_at k t = Option.map claim_of (lookup key_of k t.rows)

-- The receipt under a key, if there is one, is for this signal.
abbrev pub HasSignal : Signal → Option Receipt → Type 0
HasSignal s none = Unit {0}
HasSignal s (some r) = r.vote_signal ≡ s

abbrev pub raise : Claim → Option Claim → Claim
raise d none = d
raise d (some c) = highest c d

claim-settle :
    (a : Attempt) (now id : ℕ) (o : Option Receipt)
    → HasSignal a.vote_signal o
    → Option.map claim_of (settle a now id o) ≡ some (raise (attempted a) (Option.map claim_of o))
unfolding settle
claim-settle a now id none h = refl
claim-settle a now id (some r) h = ap some (claim-overwrite a now r h)

HasSignal-settle :
    (a : Attempt) (now id : ℕ) (o : Option Receipt)
    → HasSignal a.vote_signal o
    → HasSignal a.vote_signal (settle a now id o)
unfolding settle
HasSignal-settle a now id none h = refl
HasSignal-settle a now id (some r) h = ground arith

-- One attempt leaves the higher of the claim that stood and its own.
pub claim_at-upsert_stmt :
    (a : Attempt) (now : ℕ) (t : Table)
    → HasSignal a.vote_signal (lookup key_of a.key t.rows)
    → claim_at a.key (upsert_stmt a now t) ≡ some (raise (attempted a) (claim_at a.key t))
claim_at-upsert_stmt a now t h =
    rw (lookup-upsert_stmt a now t a.key, (same_key_iff a.key a.key).1 refl)
      (claim-settle a now t.next_id (lookup key_of a.key t.rows) h)

pub HasSignal-upsert_stmt :
    (a : Attempt) (now : ℕ) (t : Table)
    → HasSignal a.vote_signal (lookup key_of a.key t.rows)
    → HasSignal a.vote_signal (lookup key_of a.key (upsert_stmt a now t).rows)
HasSignal-upsert_stmt a now t h =
    rw (lookup-upsert_stmt a now t a.key, (same_key_iff a.key a.key).1 refl)
      (HasSignal-settle a now t.next_id (lookup key_of a.key t.rows) h)

Outcome-set : IsSet Outcome
Outcome-set = hlevel

pub Claim-set : IsSet (Option Claim)
Claim-set = hlevel
