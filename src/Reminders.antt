-- ===== src/Reminders.antt =====
-- lib/reminderLog.js, lib/reminderProposals.js and lib/reminderDispatcher.js: the log of the reminders
-- sent, and the tests on times and proposals. A superblock's scope key, `sb:` and its height, is the
-- height.
pub mod Proposals
pub mod Tick
pub mod Gates
pub mod Once
pub mod Tests
use sysnode_backend.Base.{
  ℕ, zero, suc, ◌+◌, ◌-◌, ◌*◌, ◌/◌, ◌^◌, ◌≡◌, ◌↔◌, Bool, true, false, not, ◌&&◌, ◌||◌, Option, none,
  some, List, [], ◌∷◌, ◌++◌, arith, ◌==◌, ltb, leb, if◌then◌else◌, Text, codes, is_lower_hex64,
  to_lower_case, pos, ◌>>=◌, ◌>>◌, check, eqb_ℤ,
}
use sysnode_backend.Eq.{Eq, nat_eq}
use sysnode_backend.Js.{Js, int, str, obj, property, Items, nil, cons}
use sysnode_backend.Rows.{lookup}

pub data Bucket : Type 0 where
  final_24h days_before : Bucket

abbrev pub same_bucket : Bucket → Bucket → Bool
same_bucket final_24h final_24h = true
same_bucket days_before days_before = true
same_bucket _ _ = false

pub record LogKey : Type 0 where
  pub user_id : ℕ
  pub scope : ℕ
  pub bucket : Bucket

abbrev pub same_key : LogKey → LogKey → Bool
same_key a b = a.user_id == b.user_id && a.scope == b.scope && same_bucket a.bucket b.bucket

pub same_key_iff : (a b : LogKey) → (same_key a b ≡ true) ↔ (a ≡ b)
same_key_iff a b = ground arith

instance abbrev pub log_key_eq : Eq LogKey
log_key_eq = record { beq = same_key; beq_iff = same_key_iff }

pub record LogRow : Type 0 where
  pub key : LogKey
  pub sent_at : ℕ

abbrev pub key_of : LogRow → LogKey
key_of r = r.key

abbrev pub is_present {ℓ} : {A : Type ℓ} → Option A → Bool
is_present none = false
is_present (some a) = true

unfoldable pub has : LogKey → List LogRow → Bool
has k log = is_present (lookup key_of k log)

-- INSERT, and whether a row was inserted: a UNIQUE hit is not an error.
unfoldable pub insert : LogKey → ℕ → List LogRow → List LogRow × Bool
unfolding has
insert k sent_at log =
    if has k log then (log, false) else (log ++ record { key = k; sent_at = sent_at } ∷ [], true)

abbrev pub core_block_seconds : ℕ
core_block_seconds = 150

abbrev pub governance_fudge_seconds : ℕ
governance_fudge_seconds = 7200

abbrev pub max_snapshot_age_ms : ℕ
max_snapshot_age_ms = 60000

abbrev pub final_24h_ms : ℕ
final_24h_ms = 86400000

abbrev pub days_before_ms : ℕ
days_before_ms = 259200000

abbrev pub max_presentation_epoch : ℕ
max_presentation_epoch = 253402300799

unfoldable pub bucket_for_time_remaining : ℕ → Option Bucket
bucket_for_time_remaining ms =
    if ms == 0
    then none
    else if leb ms final_24h_ms
    then some final_24h
    else if leb ms days_before_ms
    then some days_before
    else none

-- `Number.isSafeInteger(n) && n >= 0`
abbrev pub safe_natural : Js → Option ℕ
safe_natural (int (pos n)) = if ltb n (2 ^ 53) then some n else none
safe_natural _ = none

unfoldable pub supported_proposal_window : Js → Js → Option (ℕ × ℕ)
supported_proposal_window start_epoch end_epoch = do
  first ← safe_natural start_epoch
  last ← safe_natural end_epoch
  check (ltb first last && leb last max_presentation_epoch)
  some (first, last)

pub record Proposal : Type 0 where
  pub hash : Text
  pub start_epoch : ℕ
  pub end_epoch : ℕ

abbrev pub member_of : Text → Js → Js
member_of k (obj fs) = property k fs
member_of _ _ = Js.undefined

abbrev pub lower_hash_of : Js → Option Text
lower_hash_of (str s) = if is_lower_hex64 (to_lower_case s) then some (to_lower_case s) else none
lower_hash_of _ = none

unfoldable pub normalize_proposal : Js → ℕ → Option Proposal
unfolding supported_proposal_window
normalize_proposal raw now_ms = do
  hash ← lower_hash_of (member_of (codes "hash") raw)
  (first, last) ←
      supported_proposal_window (member_of (codes "startEpoch") raw)
        (member_of (codes "endEpoch") raw)
  check (ltb now_ms (last * 1000))
  some record { hash = hash; start_epoch = first; end_epoch = last }

unfoldable pub proposal_is_eligible_for_sb : Proposal → ℕ → Bool
proposal_is_eligible_for_sb p sb_epoch_sec =
    ltb 0 sb_epoch_sec
    && leb p.start_epoch (sb_epoch_sec + governance_fudge_seconds)
    && leb sb_epoch_sec (p.end_epoch + governance_fudge_seconds)

-- The text of the time left.
pub data Deadline : Type 0 where
  soon in_less_than_an_hour : Deadline
  in_hours in_days : ℕ → Deadline

unfoldable pub format_deadline_text : ℕ → Deadline
format_deadline_text ms =
    let hours = ms / 3600000 in
    if ms == 0
    then soon
    else if hours == 0
    then in_less_than_an_hour
    else if ltb hours 24
    then in_hours hours
    else in_days (ms / 86400000)

-- The proposals of a list that pass both tests.
unfoldable pub eligible_proposals : Items → ℕ → ℕ → List Proposal
unfolding normalize_proposal proposal_is_eligible_for_sb
eligible_proposals nil now_ms sb_epoch_sec = []
eligible_proposals (cons raw rest) now_ms sb_epoch_sec =
    let others = eligible_proposals rest now_ms sb_epoch_sec in
    elim (normalize_proposal raw now_ms) [
      | none ↦ others
      | some p ↦ if proposal_is_eligible_for_sb p sb_epoch_sec then p ∷ others else others
    ]
