-- ===== src/Reminders/Gates.antt =====
-- lib/reminderDispatcher.js: when a tick goes on to the candidates.
use mathlib.Core.Path.{subst}
use sysnode_backend.Base.{
  ℕ, ◌+◌, ◌*◌, ◌/◌, ◌≡◌, ◌≤◌, ◌<◌, ◌↔◌, true, some, List, All, length, is_lower_hex64,
}
use sysnode_backend.Js.{Js}
use sysnode_backend.Results.{ok, or_throw-ok, >>=-eq-ok, ok_inj}
use sysnode_backend.Reminders.{
  final_24h, final_24h_ms, days_before_ms, governance_fudge_seconds, max_snapshot_age_ms,
  max_presentation_epoch, Proposal,
}
use sysnode_backend.Reminders.Tick.{
  Cycle, Turn, users_unavailable, Inputs, first_gate, second_gate, gates,
}

pub gates-ok :
    (i : Inputs) (c : Cycle) (eligible : List Proposal) (vs : List Turn)
    → gates i ≡ ok (c, eligible, vs)
    → (first_gate i.snapshot i.now_ms ≡ ok c)
      × (second_gate c i.now_ms i.proposals ≡ ok eligible)
      × (i.candidates ≡ some vs)
unfolding gates
gates-ok i c eligible vs h =
    let (c', first, h1) = >>=-eq-ok (first_gate i.snapshot i.now_ms) _ h in
    let (e', second, h2) = >>=-eq-ok (second_gate c' i.now_ms i.proposals) _ h1 in
    let (vs', third, h3) = or_throw-ok i.candidates users_unavailable _ h2 in
    subst
      (λ (x : Cycle × List Proposal × List Turn).
        (first_gate i.snapshot i.now_ms ≡ ok x.0)
        × (second_gate x.0 i.now_ms i.proposals ≡ ok x.1)
        × (i.candidates ≡ some x.2))
      (ok_inj h3) (first, second, third)

-- A proposal that the superblock can fund.
pub record Fundable (now_ms sb_epoch_sec : ℕ) (p : Proposal) : Type 0 where
  pub hash : is_lower_hex64 p.hash ≡ true
  pub window : p.start_epoch < p.end_epoch
  pub presentable : p.end_epoch ≤ max_presentation_epoch
  pub not_over : now_ms < p.end_epoch * 1000
  pub not_before : p.start_epoch ≤ sb_epoch_sec + governance_fudge_seconds
  pub not_after : sb_epoch_sec ≤ p.end_epoch + governance_fudge_seconds

-- What a tick that goes on to the candidates announces.
pub record Announced (i : Inputs) (c : Cycle) (eligible : List Proposal) : Type 0 where
  pub observed : i.now_ms ≤ c.observed_at + max_snapshot_age_ms
  pub ahead : i.now_ms / 1000 < c.sb_epoch_sec
  pub open_for : 0 < c.ms_remaining
  pub near : c.ms_remaining ≤ days_before_ms
  pub bucket : (c.bucket ≡ final_24h) ↔ (c.ms_remaining ≤ final_24h_ms)
  pub some_proposal : 1 ≤ length eligible
  pub fundable : All (Fundable i.now_ms c.sb_epoch_sec) eligible

-- What the first gate settles.
abbrev InTime : ℕ → Cycle → Type 0
InTime now_ms c =
    (now_ms ≤ c.observed_at + max_snapshot_age_ms)
    × (now_ms / 1000 < c.sb_epoch_sec)
    × (0 < c.ms_remaining)
    × (c.ms_remaining ≤ days_before_ms)
    × ((c.bucket ≡ final_24h) ↔ (c.ms_remaining ≤ final_24h_ms))
