-- ===== src/Relay/Pool/Completion.antt =====
-- lib/gov.js: `mapLimited` ends, in whatever order the calls resolve.
use mathlib.Core.Option
use mathlib.Core.Path.{subst}
use sysnode_backend.Base.{
  ℕ, zero, suc, ◌+◌, ◌-◌, ◌≡◌, ◌≤◌, ◌<◌, ◌⊎◌, refl, ap, ◌∙◌, Bool, true, false, ◌&&◌, Option, none,
  some, List, [], ◌∷◌, arith, length, ltb, ◌==◌, if◌then◌else◌, some_inj, >>=-eq-some, inl, inr,
  Bool-cases,
}
use sysnode_backend.Relay.Pool.{
  Pool, Worker, larger, worker_count, blank, nth, slot, set_at, advance_worker, answer, start,
  resume, run_schedule, is_finished,
}
use sysnode_backend.Relay.Pool.Workers.{
  one_if, waits, active, stops, no_waits, active-length, active-all, active-not_all, Advanced,
  advance_worker-Advanced, active-advance_worker, waits-start_workers, stops-start_workers,
  length-start_workers, active-start_workers,
}

module _ {ℓ} {B : Type ℓ} where
  slot-set_at :
      (i j : ℕ) (a : Option B) (xs : List (Option B))
      → slot j (set_at i a xs) ≡ (if i == j && ltb i (length xs) then a else slot j xs)
  unfolding slot set_at
  slot-set_at i j a [] = ground arith
  slot-set_at zero zero a (x ∷ xs) = ground arith
  slot-set_at zero (suc j) a (x ∷ xs) = ground arith
  slot-set_at (suc i) zero a (x ∷ xs) = ground arith
  slot-set_at (suc i) (suc j) a (x ∷ xs) = ground (arith, slot-set_at i j a xs)

  length-set_at : (i : ℕ) (a : Option B) (xs : List (Option B)) → length (set_at i a xs) ≡ length xs
  unfolding set_at
  length-set_at i a [] = refl
  length-set_at zero a (x ∷ xs) = refl
  length-set_at (suc i) a (x ∷ xs) = ap suc (length-set_at i a xs)

  slot-blank : (n j : ℕ) → slot j (blank {A = B} n) ≡ none
  unfolding slot blank
  slot-blank zero j = refl
  slot-blank (suc n) zero = refl
  slot-blank (suc n) (suc j) = slot-blank n j

length-blank {ℓ} : (B : Type ℓ) (n : ℕ) → length (blank {A = B} n) ≡ n
unfolding blank
length-blank B zero = refl
length-blank B (suc n) = ap suc (length-blank B n)

nth_beyond {ℓ} : {A : Type ℓ} (i : ℕ) (xs : List A) → length xs ≤ i → nth i xs ≡ none
unfolding nth
nth_beyond i [] h = refl
nth_beyond zero (x ∷ xs) h = ground arith
nth_beyond (suc i) (x ∷ xs) h = nth_beyond i xs (omega arith)

either_same {ℓ} : {A : Type ℓ} (b : Bool) (x : A) → (if b then x else x) ≡ x
either_same true x = refl
either_same false x = refl

zero_or_more : (n : ℕ) → (n ≡ 0) ⊎ (0 < n)
zero_or_more zero = inl refl
zero_or_more (suc n) = inr (omega arith)

module _ {ℓ κ} {A : Type ℓ} {B : Type κ} (items : List A) (work : A → ℕ → B) where
  -- After `k` calls have resolved, of at most `n` workers.
  record State (n k : ℕ) (s : Pool B) : Type κ where
    size : length s.out ≡ length items
    team : length s.workers ≡ n
    waiting : (j : ℕ) → waits j s.workers ≤ one_if (ltb j (length items) && ltb j s.next)
    slots :
        (j : ℕ)
        → slot j s.out ≡ (
            if waits j s.workers == 0 && ltb j (length items) && ltb j s.next
            then answer items work j
            else none)
    stopping : 0 < stops s.workers → length items ≤ s.next
    remaining : k + ((length items - s.next) + active s.workers) ≡ length items

  State-start :
      (concurrency : ℕ)
      → State (worker_count concurrency (length items)) 0 (start items work concurrency)
  unfolding start
  State-start concurrency =
      let m = length items in
      let n = worker_count concurrency m in
      record {
        size = length-blank B m;
        team = length-start_workers m n 0;
        waiting = λ j. ground (arith, waits-start_workers m n 0 j);
        slots = λ j. ground (arith, waits-start_workers m n 0 j, slot-blank {B = B} m j);
        stopping = λ h. omega (arith, stops-start_workers m n 0 h);
        remaining = omega (arith, active-start_workers m n 0);
      }

  resumed : ℕ → List Worker → Pool B → Pool B
  resumed i workers s = record {
    next = s.next + 1;
    out = set_at i (answer items work i) s.out;
    workers = workers;
  }

  State-resumed :
      (n k i : ℕ) (workers : List Worker) (s : Pool B)
      → State n k s
      → Advanced (length items) s.next i s.workers workers
      → State n (suc k) (resumed i workers s)
  unfolding resumed
  State-resumed n k i workers s v a = record {
    size = length-set_at i (answer items work i) s.out ∙ v.size;
    team = a.length ∙ v.team;
    waiting = λ j. ground (arith, a.waiting j, v.waiting j);
    slots = λ j. ground (
      arith,
      a.waiting j,
      v.waiting j,
      v.slots j,
      a.was_waiting,
      v.size,
      v.waiting i,
      slot-set_at i j (answer items work i) s.out,
    );
    stopping = λ h. ground (arith, a.stopping, v.stopping);
    remaining =
        ground (
          arith,
          a.stopping,
          a.length,
          active-length s.workers,
          active-length workers,
          v.remaining,
        );
  }

  State-resume :
      (n k p : ℕ) (s u : Pool B) → State n k s → resume items work p s ≡ some u → State n (suc k) u
  unfolding resume resumed
  State-resume n k p s u v h =
      let ((i, workers), moved, e) =
        >>=-eq-some (advance_worker (length items) s.next p s.workers)
          (λ (i, workers). some (resumed i workers s)) h in
      subst (State n (suc k)) (some_inj e) (
        State-resumed n k i workers s v
          (advance_worker-Advanced (length items) s.next p i s.workers workers moved))

  State-run_schedule :
      (n k : ℕ) (ps : List ℕ) (s u : Pool B)
      → State n k s
      → run_schedule items work ps s ≡ some u
      → State n (k + length ps) u
  unfolding run_schedule
  State-run_schedule n k [] s u v h =
      subst (State n (k + 0)) (some_inj h) (subst (λ j. State n j s) (omega arith) v)
  State-run_schedule n k (p ∷ ps) s u v h =
      let (after, one, rest) = >>=-eq-some (resume items work p s) (run_schedule items work ps) h in
      subst (λ j. State n j u) (omega arith)
        (State-run_schedule n (suc k) ps after u (State-resume n k p s after v one) rest)

  -- Every result is in its place.
  abbrev pub Complete : Pool B → Type κ
  Complete s =
      (is_finished s ≡ true)
      × (length s.out ≡ length items)
      × ((i : ℕ) → slot i s.out ≡ Option.map (λ a. work a i) (nth i items))

  -- A call is still waited for.
  abbrev pub Open : Pool B → Type κ
  Open s = (is_finished s ≡ false) × (p : ℕ) × (u : Pool B) × (resume items work p s ≡ some u)

  one_slot :
      (n k : ℕ) (s : Pool B)
      → State n k s
      → 1 ≤ n
      → active s.workers ≡ 0
      → (i : ℕ) → slot i s.out ≡ answer items work i
  unfolding answer
  one_slot n k s v h quiet i = elim (Bool-cases (ltb i (length items))) [
    | inl inside ↦
        ground (arith, v.slots i, no_waits i s.workers, active-length s.workers, v.team, v.stopping)
    | inr outside ↦ v.slots i ∙ rw (outside, nth_beyond i items (ground arith)) (either_same _ none)
  ]

  Complete-active : (n k : ℕ) (s : Pool B) → State n k s → 1 ≤ n → active s.workers ≡ 0 → Complete s
  unfolding is_finished answer
  Complete-active n k s v h quiet = (active-all s.workers quiet, v.size, one_slot n k s v h quiet)

  Open-active : (n k : ℕ) (s : Pool B) → State n k s → 0 < active s.workers → Open s
  unfolding is_finished resume resumed
  Open-active n k s v h =
      let (p, i, workers, e) = active-advance_worker (length items) s.next s.workers h in
      (active-not_all s.workers h, p, resumed i workers s, rw e refl)

  positive : (concurrency : ℕ) → 1 ≤ worker_count concurrency (length items)
  positive concurrency = ground arith

  -- In whatever order the calls resolve, `mapLimited` makes one call for each item and ends: after
  -- fewer events than items a call is still waited for, and there are never more events than items;
  -- after as many, all workers have stopped and the result of each item is in its place.
  pub run_schedule-ends :
      (concurrency : ℕ) (schedule : List ℕ) (s : Pool B)
      → run_schedule items work schedule (start items work concurrency) ≡ some s
      → ((length schedule < length items) × Open s)
        ⊎ ((length schedule ≡ length items) × Complete s)
  run_schedule-ends concurrency schedule s h =
      let n = worker_count concurrency (length items) in
      let k = length schedule in
      let v : State n (0 + k) s =
        State-run_schedule n 0 schedule (start items work concurrency) s (State-start concurrency)
          h in
      elim (zero_or_more (active s.workers)) [
        | inl quiet ↦ inr (
          ground (
            arith,
            v.remaining,
            v.stopping,
            active-length s.workers,
            v.team,
            positive concurrency,
          ),
          Complete-active n (0 + k) s v (positive concurrency) quiet,
        )
        | inr more ↦ inl (omega (arith, v.remaining), Open-active n (0 + k) s v more)
      ]

  -- At every point at most `concurrency` calls are waited for, or one where it is 0, and never two
  -- for the same item.
  pub run_schedule-IsBounded :
      (concurrency : ℕ) (schedule : List ℕ) (s : Pool B)
      → run_schedule items work schedule (start items work concurrency) ≡ some s
      → (active s.workers ≤ larger 1 concurrency) × ((i : ℕ) → waits i s.workers ≤ 1)
  run_schedule-IsBounded concurrency schedule s h =
      let n = worker_count concurrency (length items) in
      let v =
        State-run_schedule n 0 schedule (start items work concurrency) s (State-start concurrency)
          h in
      (ground (arith, active-length s.workers, v.team), λ i. ground (arith, v.waiting i))
