-- ===== src/Relay/Pool.antt =====
-- lib/gov.js: `mapLimited`. A worker waits for one call of `work` at a time; `resume` is what happens
-- when the call of the worker at a position resolves, and a schedule is the order of these events.
pub mod Workers
pub mod Completion
pub mod Tests
use mathlib.Core.Option
use sysnode_backend.Base.{
  ℕ, zero, suc, ◌+◌, Bool, true, false, not, ◌&&◌, Option, none, some, List, [], ◌∷◌, length, all,
  ltb, if◌then◌else◌, ◌>>=◌,
}

pub data Worker : Type 0 where
  busy : ℕ → Worker
  stopped : Worker

-- Where the next item is, the results so far, and what each worker waits for.
pub record Pool {ℓ} (B : Type ℓ) : Type ℓ where
  pub next : ℕ
  pub out : List (Option B)
  pub workers : List Worker

abbrev pub is_stopped : Worker → Bool
is_stopped (busy i) = false
is_stopped stopped = true

-- `const i = next++; if (i >= items.length) return;` up to the call of `work`
unfoldable pub claim : ℕ → ℕ → Worker
claim m i = if ltb i m then busy i else stopped

unfoldable pub start_workers : ℕ → ℕ → ℕ → List Worker
unfolding claim
start_workers m zero i = []
start_workers m (suc n) i = claim m i ∷ start_workers m n (i + 1)

abbrev pub larger : ℕ → ℕ → ℕ
larger a b = if ltb a b then b else a

abbrev pub smaller : ℕ → ℕ → ℕ
smaller a b = if ltb b a then b else a

abbrev pub worker_count : ℕ → ℕ → ℕ
worker_count concurrency m = larger 1 (smaller concurrency m)

module _ {ℓ} {A : Type ℓ} where
  -- `new Array(n)`
  unfoldable pub blank : ℕ → List (Option A)
  blank zero = []
  blank (suc n) = none ∷ blank n

  unfoldable pub nth : ℕ → List A → Option A
  nth i [] = none
  nth zero (x ∷ xs) = some x
  nth (suc i) (x ∷ xs) = nth i xs

  -- `out[i]`
  unfoldable pub slot : ℕ → List (Option A) → Option A
  slot i [] = none
  slot zero (x ∷ xs) = x
  slot (suc i) (x ∷ xs) = slot i xs

  unfoldable pub set_at : ℕ → Option A → List (Option A) → List (Option A)
  set_at i a [] = []
  set_at zero a (x ∷ xs) = a ∷ xs
  set_at (suc i) a (x ∷ xs) = x ∷ set_at i a xs

-- The item that the worker at a position was busy with, and the workers when it has moved on.
unfoldable pub advance_worker : ℕ → ℕ → ℕ → List Worker → Option (ℕ × List Worker)
unfolding claim
advance_worker m next p [] = none
advance_worker m next zero (busy i ∷ ws) = some (i, claim m next ∷ ws)
advance_worker m next zero (stopped ∷ ws) = none
advance_worker m next (suc p) (w ∷ ws) =
    advance_worker m next p ws >>= λ (i, rest). some (i, w ∷ rest)

module _ {ℓ κ} {A : Type ℓ} {B : Type κ} (items : List A) (work : A → ℕ → B) where
  -- What the call for an item resolves to.
  unfoldable pub answer : ℕ → Option B
  unfolding nth
  answer i = Option.map (λ a. work a i) (nth i items)

  unfoldable pub start : ℕ → Pool B
  unfolding start_workers blank
  start concurrency = record {
    next = worker_count concurrency (length items);
    out = blank (length items);
    workers = start_workers (length items) (worker_count concurrency (length items)) 0;
  }

  unfoldable pub resume : ℕ → Pool B → Option (Pool B)
  unfolding advance_worker set_at answer
  resume p s = advance_worker (length items) s.next p s.workers >>= λ (i, workers).
      some record { next = s.next + 1; out = set_at i (answer i) s.out; workers = workers }

  unfoldable pub run_schedule : List ℕ → Pool B → Option (Pool B)
  unfolding resume
  run_schedule [] s = some s
  run_schedule (p ∷ ps) s = resume p s >>= run_schedule ps

-- `Promise.all(workers)` resolves.
unfoldable pub is_finished {ℓ} : {B : Type ℓ} → Pool B → Bool
is_finished s = all is_stopped s.workers
