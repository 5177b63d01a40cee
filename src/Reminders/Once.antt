-- ===== src/Reminders/Once.antt =====
-- lib/reminderDispatcher.js: who gets a mail, and how often.
use mathlib.Core.Path.{subst}
use sysnode_backend.Base.{
  ℕ, ◌+◌, ◌≡◌, ◌≤◌, refl, sym, ◌∙◌, inl, inr, Bool, true, false, not, ◌&&◌, ◌||◌, Option, none,
  some, List, [], ◌∷◌, ◌++◌, All, arith, ◌==◌, ltb, length, if◌then◌else◌, Bool-cases, pos,
}
use sysnode_backend.Results.{Result, ok, err, Result-cases}
use sysnode_backend.Js.{int, arr}
use sysnode_backend.Rows.Laws.{lookup-append}
use sysnode_backend.Receipts.Table.{Table}
use sysnode_backend.Receipts.Queries.{has_any_relayed_in_cycle}
use sysnode_backend.Reminders.{
  LogKey, LogRow, same_key, same_key_iff, log_key_eq, key_of, has, insert, max_snapshot_age_ms,
  Proposal,
}
use sysnode_backend.Reminders.Gates.{gates-ok}
use sysnode_backend.Reminders.Tick.{
  Cycle, Turn, Event, send_failed, sent, raced, unlogged, hashes_of, key_at, send_and_log,
  check_and_send, take_turn, ends_loop, take_turns, Skipped, Inputs, Report, gates, run_tick,
}

-- The mail was handed over.
abbrev pub went_out : Event → Bool
went_out sent = true
went_out raced = true
went_out unlogged = true
went_out _ = false

abbrev pub one_if : Bool → ℕ
one_if true = 1
one_if false = 0

-- How many of the mails of a tick are for a key.
unfoldable pub mails : LogKey → Cycle → List (Turn × Event) → ℕ
mails k c [] = 0
mails k c (e ∷ es) = one_if (went_out e.1 && same_key (key_at c e.0) k) + mails k c es

has-append :
    (k : LogKey) (log : List LogRow) (r : LogRow)
    → has k (log ++ r ∷ []) ≡ (has k log || same_key r.key k)
unfolding has
has-append k log r = ground (arith, lookup-append key_of k log r)

-- The rows of a key are not fewer than before, by the mail that went out.
abbrev Counted : LogKey → Cycle → Turn → List LogRow → List LogRow × Event → Type 0
Counted k c v log after =
    one_if (went_out after.1 && same_key (key_at c v) k) + one_if (has k log)
    ≤ one_if (has k after.0)

Counted-quiet :
    (k : LogKey) (c : Cycle) (v : Turn) (log : List LogRow) (e : Event)
    → went_out e ≡ false
    → Counted k c v log (log, e)
Counted-quiet k c v log e h = rw h (omega arith)

-- What the turn of a candidate comes to: a mail only in the one case that the code allows.
pub data Turned (c : Cycle) (eligible : List Proposal) (now_ms : ℕ) (v : Turn) (log : List LogRow)
    : List LogRow × Event → Type 0 where
  no_mail : {e : Event} → went_out e ≡ false → Turned c eligible now_ms v log (log, e)
  a_mail :
      {after : List LogRow × Event} {t : Table}
      → v.clock ≤ c.observed_at + max_snapshot_age_ms
      → v.receipts ≡ some t
      → has_any_relayed_in_cycle (int (pos v.user_id)) (arr (hashes_of eligible)) t ≡ false
      → has (key_at c v) log ≡ false
      → after ≡ (
          if v.log_writable
          then (log ++ record { key = key_at c v; sent_at = now_ms } ∷ [], sent)
          else (log, unlogged))
      → Turned c eligible now_ms v log after

send_and_log-result :
    (c : Cycle) (now_ms : ℕ) (v : Turn) (log : List LogRow)
    → has (key_at c v) log ≡ false
    → send_and_log c now_ms v log ≡ (
        if not v.accepted
        then (log, send_failed)
        else (if v.log_writable
            then (log ++ record { key = key_at c v; sent_at = now_ms } ∷ [], sent)
            else (log, unlogged)))
unfolding send_and_log insert
send_and_log-result c now_ms v log absent = ground arith

module _ (c : Cycle) (eligible : List Proposal) (now_ms : ℕ) (v : Turn) (log : List LogRow) where
  Turned-if :
      (b : Bool) {x y : List LogRow × Event}
      → (b ≡ true → Turned c eligible now_ms v log x)
      → (b ≡ false → Turned c eligible now_ms v log y)
      → Turned c eligible now_ms v log (if b then x else y)
  Turned-if true f g = f refl
  Turned-if false f g = g refl

  send_and_log-Turned :
      (t : Table)
      → v.clock ≤ c.observed_at + max_snapshot_age_ms
      → v.receipts ≡ some t
      → has_any_relayed_in_cycle (int (pos v.user_id)) (arr (hashes_of eligible)) t ≡ false
      → has (key_at c v) log ≡ false
      → Turned c eligible now_ms v log (send_and_log c now_ms v log)
  send_and_log-Turned t fresh table none_voted absent =
      subst (Turned c eligible now_ms v log) (sym (send_and_log-result c now_ms v log absent)) (
        Turned-if (not v.accepted) (λ _. no_mail refl)
          (λ _. a_mail fresh table none_voted absent refl))

  check_and_send-Turned :
      (o : Option Table)
      → v.clock ≤ c.observed_at + max_snapshot_age_ms
      → v.receipts ≡ o
      → Turned c eligible now_ms v log (check_and_send c eligible now_ms v log o)
  unfolding check_and_send
  check_and_send-Turned none fresh e = no_mail refl
  check_and_send-Turned (some t) fresh e =
      Turned-if (has_any_relayed_in_cycle (int (pos v.user_id)) (arr (hashes_of eligible)) t)
        (λ _. no_mail refl)
        (λ none_voted.
          Turned-if (not v.log_readable) (λ _. no_mail refl)
            (λ _.
              Turned-if (has (key_at c v) log) (λ _. no_mail refl)
                (λ absent. send_and_log-Turned t fresh e none_voted absent)))

  -- A candidate gets a mail only while the snapshot is at most a minute old, when the receipts read
  -- at that turn show no vote of the user on an eligible proposal, and when the log has no row of the
  -- user for the cycle and the bucket.
  pub take_turn-Turned : Turned c eligible now_ms v log (take_turn c eligible now_ms v log)
  unfolding take_turn
  take_turn-Turned =
      Turned-if (length v.email == 0) (λ _. no_mail refl)
        (λ _.
          Turned-if (ltb (c.observed_at + max_snapshot_age_ms) v.clock) (λ _. no_mail refl)
            (λ fresh. check_and_send-Turned v.receipts (ground arith) refl))

-- The row of a mail is new.
logged :
    (k : LogKey) (c : Cycle) (now_ms : ℕ) (v : Turn) (log : List LogRow)
    → has (key_at c v) log ≡ false
    → Counted k c v log (log ++ record { key = key_at c v; sent_at = now_ms } ∷ [], sent)
logged k c now_ms v log absent = elim (Bool-cases (same_key (key_at c v) k)) [
  | inl same ↦
      let here : has k log ≡ false = rw⁻¹ ((same_key_iff (key_at c v) k).0 same) absent in
      rw (has-append k log (record { key = key_at c v; sent_at = now_ms }), here, same)
        (omega arith)
  | inr other ↦
      rw (has-append k log (record { key = key_at c v; sent_at = now_ms }), other) (ground arith)
]

written {ℓ} : {A : Type ℓ} {b : Bool} {x : A} (y : A) → b ≡ true → (if b then x else y) ≡ x
written y e = rw e refl

Turned-Counted :
    (k : LogKey) (c : Cycle) (eligible : List Proposal) (now_ms : ℕ) (v : Turn) (log : List LogRow)
    (after : List LogRow × Event)
    → v.log_writable ≡ true
    → Turned c eligible now_ms v log after
    → Counted k c v log after
Turned-Counted k c eligible now_ms v log _ w (no_mail {e} quiet) = Counted-quiet k c v log e quiet
Turned-Counted k c eligible now_ms v log after w (a_mail fresh table none_voted absent e) =
    subst (Counted k c v log) (sym (e ∙ written (log, unlogged) w)) (logged k c now_ms v log absent)

take_turns-Counted :
    (k : LogKey) (c : Cycle) (eligible : List Proposal) (now_ms : ℕ) (vs : List Turn)
    (log : List LogRow)
    → All (λ v. v.log_writable ≡ true) vs
    → mails k c (take_turns c eligible now_ms vs log).1 + one_if (has k log)
      ≤ one_if (has k (take_turns c eligible now_ms vs log).0)
unfolding take_turns mails
take_turns-Counted k c eligible now_ms [] log w = omega arith
take_turns-Counted k c eligible now_ms (v ∷ vs) log w =
    let one = take_turn c eligible now_ms v log in
    let counted =
      Turned-Counted k c eligible now_ms v log one w.0 (take_turn-Turned c eligible now_ms v log) in
    let rest = take_turns-Counted k c eligible now_ms vs one.0 w.1 in
    elim (Bool-cases (ends_loop one.1)) [
      | inl last ↦ rw last (omega (arith, counted))
      | inr more ↦ rw more (omega (arith, counted, rest))
    ]

-- The mails for a key of one tick.
unfoldable pub mails_of : LogKey → Result Skipped Report → ℕ
unfolding mails
mails_of k (err reason) = 0
mails_of k (ok r) = mails k r.cycle r.events

-- The ticks of a process, which do not overlap, and the mails for a key.
unfoldable pub mails_in_all : LogKey → List Inputs → List LogRow → ℕ
unfolding mails_of
mails_in_all k [] log = 0
mails_in_all k (i ∷ is) log =
    let after = run_tick i log in mails_of k after.1 + mails_in_all k is after.0

abbrev pub turns_of : Option (List Turn) → List Turn
turns_of none = []
turns_of (some vs) = vs

-- No row of the log fails to be written.
abbrev pub Writes : Inputs → Type 0
Writes i = All (λ v. v.log_writable ≡ true) (turns_of i.candidates)

run_tick-Counted :
    (k : LogKey) (i : Inputs) (log : List LogRow)
    → Writes i
    → mails_of k (run_tick i log).1 + one_if (has k log) ≤ one_if (has k (run_tick i log).0)
unfolding run_tick mails_of
run_tick-Counted k i log w = elim (Result-cases (gates i)) [
  | inl (reason, e) ↦ rw (e, run_tick) (omega arith)
  | inr ((cycle, eligible, candidates), e) ↦
      rw (e, run_tick)
        (take_turns-Counted k cycle eligible i.now_ms candidates log (
          subst (λ o. All (λ v. v.log_writable ≡ true) (turns_of o))
            (gates-ok i cycle eligible candidates e).2 w))
]

mails_and_row :
    (k : LogKey) (is : List Inputs) (log : List LogRow)
    → All Writes is
    → mails_in_all k is log + one_if (has k log) ≤ 1
unfolding mails_in_all
mails_and_row k [] log w = ground arith
mails_and_row k (i ∷ is) log w =
    omega (arith, run_tick-Counted k i log w.0, mails_and_row k is (run_tick i log).0 w.1)

-- However many ticks a process runs one after the other, as long as every row of the log can be
-- written a user gets at most one mail for a superblock and a bucket.
pub mails_in_all-IsBounded :
    (k : LogKey) (ticks : List Inputs) (log : List LogRow)
    → All Writes ticks
    → mails_in_all k ticks log ≤ 1
mails_in_all-IsBounded k ticks log w = omega (arith, mails_and_row k ticks log w)
