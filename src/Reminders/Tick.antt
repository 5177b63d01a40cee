-- ===== src/Reminders/Tick.antt =====
-- lib/reminderDispatcher.js: `runTick`. What is awaited or may throw is given: the snapshot, the
-- proposals, and for each candidate the clock, the table of receipts and what fails. The clock is
-- past the first minute of 1970, so that a negative time of observation is refused as too old.
use sysnode_backend.Base.{
  ℕ, suc, ◌+◌, ◌-◌, ◌*◌, ◌/◌, ◌^◌, Bool, true, false, not, ◌&&◌, Option, none, some, List, [], ◌∷◌,
  ◌==◌, ltb, leb, length, if◌then◌else◌, Text, pos,
}
use sysnode_backend.Js.{Js, int, str, arr, Items, nil, cons}
use sysnode_backend.Results.{Result, ok, err, require, or_throw, ◌>>◌, ◌>>=◌}
use sysnode_backend.Receipts.Table.{Table}
use sysnode_backend.Receipts.Queries.{has_any_relayed_in_cycle}
use sysnode_backend.Reminders.{
  Bucket, LogKey, LogRow, has, insert, core_block_seconds, max_snapshot_age_ms,
  bucket_for_time_remaining, safe_natural, Proposal, Deadline, format_deadline_text,
  eligible_proposals,
}

pub record Snapshot : Type 0 where
  pub height : Js
  pub current_height : Js
  pub maturity_blocks : Js
  pub observed_at : Js

pub data Skipped : Type 0 where
  next_superblock_unavailable maturity_window_open too_early proposals_unavailable
        no_active_proposals users_unavailable tick_in_progress :
      Skipped

-- What the first gate makes of a snapshot.
pub record Cycle : Type 0 where
  pub height : ℕ
  pub observed_at : ℕ
  pub sb_epoch_sec : ℕ
  pub ms_remaining : ℕ
  pub bucket : Bucket

abbrev pub is_sane : ℕ → ℕ → ℕ → ℕ → ℕ → Bool
is_sane now_ms height current maturity observed =
    ltb 0 height
    && ltb current height
    && ltb 0 maturity
    && leb maturity height
    && leb observed (now_ms + 1000)
    && leb now_ms (observed + max_snapshot_age_ms)
    && ltb (observed / 1000 + (height - current) * core_block_seconds) (2 ^ 53)
    && ltb (now_ms / 1000) (observed / 1000 + (height - current) * core_block_seconds)

-- Seconds since the epoch at which the selection starts, for a height before that.
abbrev pub maturity_opens : ℕ → ℕ → ℕ → ℕ → ℕ
maturity_opens height current maturity observed =
    observed / 1000 + (height - maturity - current) * core_block_seconds

-- With the numbers of the snapshot.
unfoldable pub cycle_of : ℕ → ℕ → ℕ → ℕ → ℕ → Result Skipped Cycle
cycle_of now_ms height current maturity observed = do
  require (is_sane now_ms height current maturity observed) next_superblock_unavailable
  let opens : ℕ = maturity_opens height current maturity observed * 1000
  require (ltb current (height - maturity) && ltb now_ms opens) maturity_window_open
  bucket ← or_throw (bucket_for_time_remaining (opens - now_ms)) too_early
  ok record {
    height = height;
    observed_at = observed;
    sb_epoch_sec = observed / 1000 + (height - current) * core_block_seconds;
    ms_remaining = opens - now_ms;
    bucket = bucket;
  }

unfoldable pub first_gate : Option Snapshot → ℕ → Result Skipped Cycle
unfolding cycle_of
first_gate snapshot now_ms = do
  s ← or_throw snapshot next_superblock_unavailable
  height ← or_throw (safe_natural s.height) next_superblock_unavailable
  current ← or_throw (safe_natural s.current_height) next_superblock_unavailable
  maturity ← or_throw (safe_natural s.maturity_blocks) next_superblock_unavailable
  observed ← or_throw (safe_natural s.observed_at) next_superblock_unavailable
  cycle_of now_ms height current maturity observed

abbrev pub items_of : Js → Items
items_of (arr xs) = xs
items_of _ = nil

-- `none` is a throw of `getActiveProposals`.
unfoldable pub second_gate : Cycle → ℕ → Option Js → Result Skipped (List Proposal)
unfolding eligible_proposals
second_gate c now_ms none = err proposals_unavailable
second_gate c now_ms (some raw) =
    let eligible = eligible_proposals (items_of raw) now_ms c.sb_epoch_sec in
    require (ltb 0 (length eligible)) no_active_proposals >> ok eligible

-- A candidate, and what happens at its turn.
pub record Turn : Type 0 where
  pub user_id : ℕ
  pub email : Text
  pub clock : ℕ
  pub receipts : Option Table
  pub log_readable : Bool
  pub accepted : Bool
  pub log_writable : Bool

-- `unlogged` is a mail that went out although its row could not be written, `raced` one whose row was
-- already there.
pub data Event : Type 0 where
  not_a_candidate snapshot_expired vote_check_failed voted log_check_failed already_logged
        send_failed sent raced unlogged :
      Event

abbrev pub hashes_of : List Proposal → Items
hashes_of [] = nil
hashes_of (p ∷ ps) = cons (str p.hash) (hashes_of ps)

abbrev pub key_at : Cycle → Turn → LogKey
key_at c v = record { user_id = v.user_id; scope = c.height; bucket = c.bucket }

-- The mail, and then the row.
unfoldable pub send_and_log : Cycle → ℕ → Turn → List LogRow → List LogRow × Event
unfolding insert
send_and_log c now_ms v log =
    let (after, inserted) = insert (key_at c v) now_ms log in
    if not v.accepted
    then (log, send_failed)
    else if not v.log_writable
    then (log, unlogged)
    else (after, if inserted then sent else raced)

-- With the table of receipts, or the throw of reading it.
unfoldable pub check_and_send :
    Cycle → List Proposal → ℕ → Turn → List LogRow → Option Table → List LogRow × Event
unfolding send_and_log has
check_and_send c eligible now_ms v log none = (log, vote_check_failed)
check_and_send c eligible now_ms v log (some t) =
    if has_any_relayed_in_cycle (int (pos v.user_id)) (arr (hashes_of eligible)) t
    then (log, voted)
    else if not v.log_readable
    then (log, log_check_failed)
    else if has (key_at c v) log
    then (log, already_logged)
    else send_and_log c now_ms v log

unfoldable pub take_turn : Cycle → List Proposal → ℕ → Turn → List LogRow → List LogRow × Event
unfolding check_and_send
take_turn c eligible now_ms v log =
    if length v.email == 0
    then (log, not_a_candidate)
    else if ltb (c.observed_at + max_snapshot_age_ms) v.clock
    then (log, snapshot_expired)
    else check_and_send c eligible now_ms v log v.receipts

abbrev pub ends_loop : Event → Bool
ends_loop snapshot_expired = true
ends_loop _ = false

-- The candidates in turn; an expired snapshot ends the loop.
unfoldable pub take_turns :
    Cycle → List Proposal → ℕ → List Turn → List LogRow → List LogRow × List (Turn × Event)
unfolding take_turn
take_turns c eligible now_ms [] log = (log, [])
take_turns c eligible now_ms (v ∷ vs) log =
    let one = take_turn c eligible now_ms v log in
    let rest = take_turns c eligible now_ms vs one.0 in
    if ends_loop one.1 then (one.0, (v, one.1) ∷ []) else (rest.0, (v, one.1) ∷ rest.1)

pub record Tally : Type 0 where
  pub sent : ℕ
  pub skipped_voted : ℕ
  pub skipped_logged : ℕ
  pub failed : ℕ
  pub bucket : Bucket
  pub height : ℕ
  pub proposal_count : ℕ
  pub candidate_count : ℕ

unfoldable pub count_events : (Event → Bool) → List (Turn × Event) → ℕ
count_events p [] = 0
count_events p (e ∷ es) = let rest = count_events p es in if p e.1 then suc rest else rest

abbrev pub is_sent : Event → Bool
is_sent sent = true
is_sent unlogged = true
is_sent _ = false

abbrev pub is_voted : Event → Bool
is_voted voted = true
is_voted _ = false

abbrev pub is_logged : Event → Bool
is_logged already_logged = true
is_logged raced = true
is_logged _ = false

abbrev pub is_failed : Event → Bool
is_failed send_failed = true
is_failed _ = false

-- What one tick reads; `none` for the candidates is a throw of `listWithRemindersEnabled`.
pub record Inputs : Type 0 where
  pub snapshot : Option Snapshot
  pub now_ms : ℕ
  pub proposals : Option Js
  pub candidates : Option (List Turn)

pub record Report : Type 0 where
  pub tally : Tally
  pub cycle : Cycle
  pub eligible : List Proposal
  pub deadline : Deadline
  pub events : List (Turn × Event)

unfoldable pub gates : Inputs → Result Skipped (Cycle × List Proposal × List Turn)
unfolding first_gate second_gate
gates i = do
  cycle ← first_gate i.snapshot i.now_ms
  eligible ← second_gate cycle i.now_ms i.proposals
  candidates ← or_throw i.candidates users_unavailable
  ok (cycle, eligible, candidates)

abbrev pub report : Cycle → List Proposal → List Turn → List (Turn × Event) → Report
report cycle eligible candidates events = record {
  tally = record {
    sent = count_events is_sent events;
    skipped_voted = count_events is_voted events;
    skipped_logged = count_events is_logged events;
    failed = count_events is_failed events;
    bucket = cycle.bucket;
    height = cycle.height;
    proposal_count = length eligible;
    candidate_count = length candidates;
  };
  cycle = cycle;
  eligible = eligible;
  deadline = format_deadline_text cycle.ms_remaining;
  events = events;
}

unfoldable pub run_tick : Inputs → List LogRow → List LogRow × Result Skipped Report
unfolding gates take_turns count_events
run_tick i log = elim (gates i) [
  | err reason ↦ (log, err reason)
  | ok (cycle, eligible, candidates) ↦
      let done = take_turns cycle eligible i.now_ms candidates log in
      (done.0, ok (report cycle eligible candidates done.1))
]

-- `tick`: nothing while a tick of this process runs.
unfoldable pub tick : Bool → Inputs → List LogRow → List LogRow × Result Skipped Report
unfolding run_tick
tick running i log = if running then (log, err tick_in_progress) else run_tick i log
