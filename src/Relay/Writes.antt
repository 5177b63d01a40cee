-- ===== src/Relay/Writes.antt =====
-- lib/gov.js: what a relayed batch writes to the receipts, and what it leaves alone.
use mathlib.Core.List.{Perm, Permᴰ}
use mathlib.Core.Logic.{∥∥₁_elim}
use sysnode_backend.Rows.{lookup}
use sysnode_backend.Receipts.Upsert.{upsert_stmt}
use sysnode_backend.Receipts.Upsert.Store.{lookup-upsert_stmt}
use sysnode_backend.Base.{
  ℕ, ◌≡◌, ◌⊎◌, inl, inr, refl, sym, ap, ◌∙◌, Bool, true, false, not, ◌&&◌, Option, none, some, List,
  [], ◌∷◌, Text, codes, same_text, arith, all, all-append, &&-true, Bool-cases, All,
}
use sysnode_backend.Receipts.Types.{Status, relayed, confirmed, stale, failed, submission_unknown}
use sysnode_backend.Receipts.Table.{
  ReceiptKey, same_key, same_key_iff, key_eq, key_of, Receipt, Table, Attempt,
}
use sysnode_backend.Receipts.Decide.{
  Windows, relay_new, relay_again, stale_confirmed, hold, already_on_chain, recently_relayed,
  decide_receipt, decide_existing,
}
use sysnode_backend.Relay.Codes.{classify_rpc_error, is_duplicate_vote_code}
use sysnode_backend.Relay.Visit.{
  entry_key, Request, Entry, Refusal, Reply, voted, refused, Visit, Gate, no_receipts, unavailable,
  decided, gate_of, Write, previous, has_good_state, refused_with, after_reply, calls_core,
  relay_entry, visit,
}
use sysnode_backend.Relay.Batch.{
  process_all, relay_votes, persist, Moment, own, foreign, run_moments,
}

-- The message tells of a transport error and Core's refusal was not marked as definite.
abbrev pub IsVague : Refusal → Type 0
IsVague x =
    (same_text (classify_rpc_error x.message) (codes "rpc_error") ≡ true)
    × (x.definite_core_rejection ≡ false)

-- What a write tells: relayed, that Core accepted; failed, that Core refused for certain, and for a
-- duplicate that no confirmed or relayed receipt was there; the unknown outcome, that the vote may
-- have been sent and nothing tells whether Core took it. No other status is written.
abbrev pub Justifies : Gate → Reply → Status → Type 0
Justifies g r relayed = r ≡ voted
Justifies g r failed =
    (x : Refusal) × (r ≡ refused x)
    × (x.not_submitted ≡ false)
    × (x.uncertain ≡ false)
    × ¬ IsVague x
    × ((is_duplicate_vote_code (classify_rpc_error x.message) && has_good_state (previous g))
        ≡ false)
Justifies g r submission_unknown =
    (x : Refusal) × (r ≡ refused x) × (x.not_submitted ≡ false) × ((x.uncertain ≡ true) ⊎ IsVague x)
Justifies g r _ = ⊥

after_reply-Justifies :
    (g : Gate) (e : Entry) (r : Reply) (s : Status) (d : Option Text)
    → (after_reply g e r).0 ≡ some (s, d)
    → Justifies g r s
unfolding after_reply refused_with
after_reply-Justifies g e voted relayed d h = refl
after_reply-Justifies g e voted confirmed d h = ground arith
after_reply-Justifies g e voted stale d h = ground arith
after_reply-Justifies g e voted failed d h = ground arith
after_reply-Justifies g e voted submission_unknown d h = ground arith
after_reply-Justifies g e (refused x) relayed d h = ground arith
after_reply-Justifies g e (refused x) confirmed d h = ground arith
after_reply-Justifies g e (refused x) stale d h = ground arith
after_reply-Justifies g e (refused x) failed d h =
    (x, refl, ground arith, ground arith, ground arith, ground arith)
after_reply-Justifies g e (refused x) submission_unknown d h = (x, refl, ground arith, ground arith)

relay_entry-Justifies :
    (g : Gate) (v : Visit) (s : Status) (d : Option Text)
    → (relay_entry g v).0 ≡ some (s, d)
    → (v.aborted ≡ false) × Justifies g v.reply s
unfolding relay_entry
relay_entry-Justifies g v s d h = elim (Bool-cases v.aborted) [
  | inl late ↦ ground (arith, rw (late, relay_entry) at h)
  | inr live ↦ (live, after_reply-Justifies g v.entry v.reply s d (rw (live, relay_entry) at h))
]

-- A receipt is written only for an entry that Core was asked about, and says what it answered:
-- relayed, that it accepted; failed, that the vote was sent and Core refused it for certain, neither
-- with an uncertain outcome nor with an unclassified error that is not marked as a definite
-- rejection, and for a duplicate that no confirmed or relayed receipt was there before; the unknown
-- outcome, that the vote may have been sent and the refusal is uncertain or unclassified.
pub visit-Justifies :
    (g : Gate) (v : Visit) (s : Status) (d : Option Text)
    → (visit g v).0 ≡ some (s, d)
    → (calls_core g v ≡ true) × Justifies g v.reply s
unfolding visit calls_core
visit-Justifies no_receipts v s d h =
    let r = relay_entry-Justifies no_receipts v s d h in (ground (arith, r.0), r.1)
visit-Justifies unavailable v s d h = cc
visit-Justifies (decided relay_new) v s d h =
    let r = relay_entry-Justifies (decided relay_new) v s d h in (ground (arith, r.0), r.1)
visit-Justifies (decided (relay_again x)) v s d h =
    let r = relay_entry-Justifies (decided (relay_again x)) v s d h in (ground (arith, r.0), r.1)
visit-Justifies (decided (stale_confirmed x)) v s d h =
    let r = relay_entry-Justifies (decided (stale_confirmed x)) v s d h in
    (ground (arith, r.0), r.1)
visit-Justifies (decided (hold x)) v s d h = cc
visit-Justifies (decided (already_on_chain x)) v s d h = cc
visit-Justifies (decided (recently_relayed x)) v s d h = cc

abbrev pub spares : ReceiptKey → ℕ × Attempt → Bool
spares k c = not (same_key c.1.key k)

-- The writes of the batch itself.
abbrev pub own_writes : List Moment → List (ℕ × Attempt)
own_writes [] = []
own_writes (own c ∷ ms) = c ∷ own_writes ms
own_writes (foreign f ∷ ms) = own_writes ms

-- Another request leaves the receipt of a key alone.
abbrev pub LeavesRow : ReceiptKey → Moment → Type 0
LeavesRow k (own c) = Unit
LeavesRow k (foreign f) = (u : Table) → lookup key_of k (f u).rows ≡ lookup key_of k u.rows

run_moments-spares :
    (k : ReceiptKey) (ms : List Moment) (t : Table)
    → all (spares k) (own_writes ms) ≡ true
    → All (LeavesRow k) ms
    → lookup key_of k (run_moments ms t).rows ≡ lookup key_of k t.rows
unfolding run_moments
run_moments-spares k [] t h l = refl
run_moments-spares k (own (now, a) ∷ ms) t h l =
    run_moments-spares k ms (upsert_stmt a now t) (&&-true _ _ h).1 l.1
    ∙ lookup-upsert_stmt a now t k
    ∙ ground arith
run_moments-spares k (foreign f ∷ ms) t h l = run_moments-spares k ms (f t) h l.1 ∙ l.0 t

all-permᴰ :
    {xs ys : List (ℕ × Attempt)} (p : ℕ × Attempt → Bool) → Permᴰ xs ys → all p xs ≡ all p ys
all-permᴰ p Permᴰ.nil = refl
all-permᴰ p (Permᴰ.cons {a = x} {b = y} {l₁ = l} {l₂ = m} e q) =
    rw e (ap (◌&&◌ (p y)) (all-permᴰ p q))
all-permᴰ p (Permᴰ.swap {a = x} {b = y} {a' = z} {b' = w} {l = l} e f) = rw (e, f) (ground arith)
all-permᴰ p (Permᴰ.trans q r) = all-permᴰ p q ∙ all-permᴰ p r

Bool-set : IsSet Bool
Bool-set = hlevel

all-perm : (p : ℕ × Attempt → Bool) (xs ys : List (ℕ × Attempt)) → Perm xs ys → all p xs ≡ all p ys
all-perm p xs ys q = ∥∥₁_elim q (Bool-set _ _) λ r. all-permᴰ p r

persist-spares :
    (req : Request) (v : Visit) (k : ReceiptKey)
    → same_key (entry_key req v.entry) k ≡ false
    → (s : Write) → all (spares k) (persist true req v s) ≡ true
unfolding persist
persist-spares req v k other none = refl
persist-spares req v k other (some s) = elim (Bool-cases v.stores) [
  | inl can ↦ rw (can, persist) (ground arith)
  | inr cannot ↦ rw (cannot, persist) refl
]

-- An entry whose receipt is unknown is held, or its receipt could not be read.
held-gate :
    (w : Windows) (now : ℕ) (req : Request) (t : Table) (v : Visit) (r : Receipt)
    → lookup key_of (entry_key req v.entry) t.rows ≡ some r
    → r.status ≡ submission_unknown
    → (gate_of true w now req t v ≡ unavailable) ⊎ (gate_of true w now req t v ≡ decided (hold r))
unfolding gate_of decide_receipt decide_existing
held-gate w now req t v r found unknown = elim (Bool-cases v.readable) [
  | inl can ↦ inr (rw (can, gate_of, found, decide_receipt, unknown) refl)
  | inr cannot ↦ inl (rw (cannot, gate_of) refl)
]

-- The entry's receipt is at a key in an unknown state: nothing is written for it.
held-spares :
    (w : Windows) (now : ℕ) (req : Request) (t : Table) (k : ReceiptKey) (r : Receipt)
    → lookup key_of k t.rows ≡ some r
    → r.status ≡ submission_unknown
    → (v : Visit)
    → all (spares k) (persist true req v (visit (gate_of true w now req t v) v).0) ≡ true
unfolding visit persist
held-spares w now req t k r found unknown v =
    elim (Bool-cases (same_key (entry_key req v.entry) k)) [
      | inl same ↦
          let at : lookup key_of (entry_key req v.entry) t.rows ≡ some r =
            rw ((same_key_iff (entry_key req v.entry) k).0 same) found in
          elim (held-gate w now req t v r at unknown) [
            | inl shut ↦ rw shut refl
            | inr held ↦ rw held refl
          ]
      | inr other ↦ persist-spares req v k other _
    ]

process_all-spares :
    (w : Windows) (now : ℕ) (req : Request) (t : Table) (k : ReceiptKey) (r : Receipt)
    → lookup key_of k t.rows ≡ some r
    → r.status ≡ submission_unknown
    → (vs : List Visit) → all (spares k) (process_all true w now req t vs).1 ≡ true
unfolding process_all
process_all-spares w now req t k r found unknown [] = refl
process_all-spares w now req t k r found unknown (v ∷ vs) =
    all-append (spares k) (persist true req v (visit (gate_of true w now req t v) v).0)
      (process_all true w now req t vs).1 (held-spares w now req t k r found unknown v)
      (process_all-spares w now req t k r found unknown vs)

-- With receipts, a vote of unknown outcome is left alone by every later batch, whatever its entries
-- and answers and in whatever order they complete: if the requests that write in between leave its
-- receipt alone too, it is still exactly the one it had.
pub relay_votes-unknown :
    (w : Windows) (now : ℕ) (req : Request) (schedule : List (ℕ × Attempt) → List Moment)
    (vs : List Visit) (t : Table) (k : ReceiptKey) (r : Receipt)
    → ((ws : List (ℕ × Attempt)) → Perm ws (own_writes (schedule ws)))
    → ((ws : List (ℕ × Attempt)) → All (LeavesRow k) (schedule ws))
    → lookup key_of k t.rows ≡ some r
    → r.status ≡ submission_unknown
    → lookup key_of k (relay_votes true w now req schedule vs t).0.rows ≡ some r
unfolding relay_votes
relay_votes-unknown w now req schedule vs t k r shuffles leaves found unknown =
    let ws : List (ℕ × Attempt) = (process_all true w now req t vs).1 in
    run_moments-spares k (schedule ws) t
      (sym (all-perm (spares k) ws (own_writes (schedule ws)) (shuffles ws))
        ∙ process_all-spares w now req t k r found unknown vs)
      (leaves ws)
    ∙ found

-- Core is not asked again about a vote of unknown outcome.
pub calls_core-unknown :
    (w : Windows) (now : ℕ) (req : Request) (t : Table) (v : Visit) (r : Receipt)
    → lookup key_of (entry_key req v.entry) t.rows ≡ some r
    → r.status ≡ submission_unknown
    → calls_core (gate_of true w now req t v) v ≡ false
unfolding calls_core
calls_core-unknown w now req t v r found unknown = elim (held-gate w now req t v r found unknown) [
  | inl shut ↦ rw shut refl
  | inr held ↦ rw held refl
]
