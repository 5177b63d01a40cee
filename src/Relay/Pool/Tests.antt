-- ===== src/Relay/Pool/Tests.antt =====
-- lib/gov.js: `mapLimited` on three items and two workers.
use sysnode_backend.Base.{ℕ, ◌≡◌, ◌≤◌, ◌<◌, ◌⊎◌, ◌+◌, refl, some, none, [], ◌∷◌, List, length}
use sysnode_backend.Relay.Pool.{Pool, stopped, busy, start, run_schedule, larger}
use sysnode_backend.Relay.Pool.Workers.{active, waits}
use sysnode_backend.Relay.Pool.Completion.{
  Complete, Open, run_schedule-ends, run_schedule-IsBounded,
}

abbrev pub three : List ℕ
three = 10 ∷ 20 ∷ 30 ∷ []

abbrev pub work : ℕ → ℕ → ℕ
work a i = a + i

abbrev pub all_done : Pool ℕ
all_done = record {
  next = 5;
  out = some 10 ∷ some 21 ∷ some 32 ∷ [];
  workers = stopped ∷ stopped ∷ [];
}

abbrev pub late_first : List ℕ
late_first = 1 ∷ 1 ∷ 0 ∷ []

-- The second worker takes two items, and the first call resolves last.
runs : run_schedule three work late_first (start three work 2) ≡ some all_done
unfolding run_schedule start
runs = refl

abbrev pub one_left : Pool ℕ
one_left = record { next = 4; out = none ∷ some 21 ∷ some 32 ∷ []; workers = busy 0 ∷ stopped ∷ [] }

waits_for_one : run_schedule three work (1 ∷ 1 ∷ []) (start three work 2) ≡ some one_left
unfolding run_schedule start
waits_for_one = refl

run_schedule-ends_example :
    ((length late_first < length three) × Open three work all_done)
    ⊎ ((length late_first ≡ length three) × Complete three work all_done)
run_schedule-ends_example = run_schedule-ends three work 2 late_first all_done runs

run_schedule-IsBounded_example :
    (active one_left.workers ≤ larger 1 2) × ((i : ℕ) → waits i one_left.workers ≤ 1)
run_schedule-IsBounded_example =
    run_schedule-IsBounded three work 2 (1 ∷ 1 ∷ []) one_left waits_for_one
