-- ===== src/Relay/Pool/Workers.antt =====
-- lib/gov.js: `mapLimited`, what an event does to the workers.
use sysnode_backend.Base.{
  ℕ, zero, suc, ◌+◌, ◌-◌, ◌≡◌, ◌≤◌, ◌<◌, refl, Bool, true, false, ◌&&◌, some, List, [], ◌∷◌, arith,
  length, all, ltb, leb, ◌==◌, ==_refl, some_inj, >>=-eq-some,
}
use mathlib.Core.Path.{subst}
use sysnode_backend.Relay.Pool.{
  Worker, busy, stopped, is_stopped, claim, start_workers, advance_worker,
}

abbrev pub one_if : Bool → ℕ
one_if true = 1
one_if false = 0

-- How many workers wait for an item, how many wait at all, and how many have stopped.
unfoldable pub waits : ℕ → List Worker → ℕ
waits j [] = 0
waits j (busy i ∷ ws) = one_if (i == j) + waits j ws
waits j (stopped ∷ ws) = waits j ws

unfoldable pub active : List Worker → ℕ
active [] = 0
active (busy i ∷ ws) = suc (active ws)
active (stopped ∷ ws) = active ws

unfoldable pub stops : List Worker → ℕ
stops [] = 0
stops (busy i ∷ ws) = stops ws
stops (stopped ∷ ws) = suc (stops ws)

pub active-length : (ws : List Worker) → active ws + stops ws ≡ length ws
unfolding active stops
active-length [] = refl
active-length (busy i ∷ ws) = omega (arith, active-length ws)
active-length (stopped ∷ ws) = omega (arith, active-length ws)

pub no_waits : (j : ℕ) (ws : List Worker) → active ws ≡ 0 → waits j ws ≡ 0
unfolding active waits
no_waits j [] h = refl
no_waits j (busy i ∷ ws) h = ground arith
no_waits j (stopped ∷ ws) h = no_waits j ws h

pub active-all : (ws : List Worker) → active ws ≡ 0 → all is_stopped ws ≡ true
unfolding active
active-all [] h = refl
active-all (busy i ∷ ws) h = ground arith
active-all (stopped ∷ ws) h = active-all ws h

pub active-not_all : (ws : List Worker) → 0 < active ws → all is_stopped ws ≡ false
unfolding active
active-not_all [] h = ground arith
active-not_all (busy i ∷ ws) h = refl
active-not_all (stopped ∷ ws) h = active-not_all ws h

-- The worker that was busy with `i` has claimed the next item, or stopped.
pub record Advanced (m next i : ℕ) (ws after : List Worker) : Type 0 where
  pub waiting :
      (j : ℕ) → waits j after + one_if (i == j) ≡ waits j ws + one_if (next == j && ltb next m)
  pub stopping : stops after ≡ stops ws + one_if (leb m next)
  pub length : length after ≡ length ws
  pub was_waiting : 0 < waits i ws

claim-waits :
    (m next j : ℕ) (ws : List Worker)
    → waits j (claim m next ∷ ws) ≡ one_if (next == j && ltb next m) + waits j ws
unfolding claim waits
claim-waits m next j ws = ground arith

claim-stops :
    (m next : ℕ) (ws : List Worker) → stops (claim m next ∷ ws) ≡ one_if (leb m next) + stops ws
unfolding claim stops
claim-stops m next ws = ground arith

claim-active :
    (m next : ℕ) (ws : List Worker) → active (claim m next ∷ ws) ≡ one_if (ltb next m) + active ws
unfolding claim active
claim-active m next ws = ground arith

waits_cons :
    (j : ℕ) (w : Worker) (ws : List Worker) → waits j (w ∷ ws) ≡ waits j (w ∷ []) + waits j ws
unfolding waits
waits_cons j (busy i) ws = omega arith
waits_cons j stopped ws = omega arith

stops_cons : (w : Worker) (ws : List Worker) → stops (w ∷ ws) ≡ stops (w ∷ []) + stops ws
unfolding stops
stops_cons (busy i) ws = omega arith
stops_cons stopped ws = omega arith

Advanced-cons :
    {m next i : ℕ} {ws after : List Worker} (w : Worker)
    → Advanced m next i ws after
    → Advanced m next i (w ∷ ws) (w ∷ after)
Advanced-cons {m} {next} {i} {ws} {after} w a = record {
  waiting = λ j. omega (arith, a.waiting j, waits_cons j w ws, waits_cons j w after);
  stopping = omega (arith, a.stopping, stops_cons w ws, stops_cons w after);
  length = omega (arith, a.length);
  was_waiting = omega (arith, a.was_waiting, waits_cons i w ws);
}

Advanced-first :
    (m next k : ℕ) (ws : List Worker) → Advanced m next k (busy k ∷ ws) (claim m next ∷ ws)
unfolding waits stops
Advanced-first m next k ws = record {
  waiting = λ j. omega (arith, claim-waits m next j ws);
  stopping = omega (arith, claim-stops m next ws);
  length = refl;
  was_waiting = ground (arith, ==_refl k);
}

pub advance_worker-Advanced :
    (m next p i : ℕ) (ws after : List Worker)
    → advance_worker m next p ws ≡ some (i, after)
    → Advanced m next i ws after
unfolding advance_worker waits stops
advance_worker-Advanced m next p i [] after h = cc
advance_worker-Advanced m next zero i (busy k ∷ ws) after h =
    subst (λ (x : ℕ × List Worker). Advanced m next x.0 (busy k ∷ ws) x.1) (some_inj h)
      (Advanced-first m next k ws)
advance_worker-Advanced m next zero i (stopped ∷ ws) after h = cc
advance_worker-Advanced m next (suc p) i (w ∷ ws) after h =
    let ((k, rest), inner, e) =
      >>=-eq-some (advance_worker m next p ws) (λ (j, r). some (j, w ∷ r)) h in
    subst (λ (x : ℕ × List Worker). Advanced m next x.0 (w ∷ ws) x.1) (some_inj e)
      (Advanced-cons w (advance_worker-Advanced m next p k ws rest inner))

-- A worker that waits can be resumed.
pub active-advance_worker :
    (m next : ℕ) (ws : List Worker)
    → 0 < active ws
    → (p i : ℕ) × (after : List Worker) × (advance_worker m next p ws ≡ some (i, after))
unfolding advance_worker active
active-advance_worker m next [] h = ground arith
active-advance_worker m next (busy i ∷ ws) h = (0, i, claim m next ∷ ws, refl)
active-advance_worker m next (stopped ∷ ws) h =
    let (p, i, after, e) = active-advance_worker m next ws h in
    (suc p, i, stopped ∷ after, rw e refl)

-- The workers that start claim the items in turn.
pub waits-start_workers :
    (m n i j : ℕ) → waits j (start_workers m n i) ≡ one_if (leb i j && ltb j (i + n) && ltb j m)
unfolding start_workers waits
waits-start_workers m zero i j = ground arith
waits-start_workers m (suc n) i j =
    ground (arith, claim-waits m i j (start_workers m n (i + 1)), waits-start_workers m n (i + 1) j)

pub stops-start_workers : (m n i : ℕ) → 0 < stops (start_workers m n i) → m ≤ i + n
unfolding start_workers stops
stops-start_workers m zero i h = ground arith
stops-start_workers m (suc n) i h =
    ground (arith, claim-stops m i (start_workers m n (i + 1)), stops-start_workers m n (i + 1))

pub active-start_workers : (m n i : ℕ) → active (start_workers m n i) + (m - (i + n)) ≡ m - i
unfolding start_workers active
active-start_workers m zero i = omega arith
active-start_workers m (suc n) i =
    ground (arith, claim-active m i (start_workers m n (i + 1)), active-start_workers m n (i + 1))

pub length-start_workers : (m n i : ℕ) → length (start_workers m n i) ≡ n
unfolding start_workers
length-start_workers m zero i = refl
length-start_workers m (suc n) i = omega (arith, length-start_workers m n (i + 1))
