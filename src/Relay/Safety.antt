-- ===== src/Relay/Safety.antt =====
-- lib/gov.js: what a relayed batch guarantees.
use sysnode_backend.Base.{
  ℕ, ◌+◌, ◌≡◌, ◌↔◌, ◌⊎◌, refl, Bool, true, false, not, ◌&&◌, List, [], ◌∷◌, length, Text, arith,
}
use sysnode_backend.Receipts.Table.{Table, Attempt}
use sysnode_backend.Receipts.Decide.{
  Windows, relay_new, relay_again, stale_confirmed, hold, already_on_chain, recently_relayed,
}
use sysnode_backend.Relay.Codes.{classify_rpc_error}
use sysnode_backend.Relay.Visit.{
  Request, Entry, Reply, voted, refused, Visit, Gate, no_receipts, unavailable, decided, gate_of,
  EntryResult, refused_with, after_reply, calls_core, relay_entry, visit,
}
use sysnode_backend.Relay.Batch.{process_all, count, response, Moment, relay_votes}

-- A result is in one of the four classes, and in one only.
abbrev pub rejects : EntryResult → Bool
rejects r = not r.ok && not r.uncertain && not r.not_submitted

abbrev pub number : Bool → ℕ
number true = 1
number false = 0

abbrev pub IsOneClass : EntryResult → Type 0
IsOneClass r = number r.ok + number (rejects r) + number r.uncertain + number r.not_submitted ≡ 1

refused_with-IsOneClass :
    (g : Gate) (e : Entry) (code : Text) → IsOneClass (refused_with g e code).1
unfolding refused_with
refused_with-IsOneClass g e code = ground arith

after_reply-IsOneClass : (g : Gate) (e : Entry) (r : Reply) → IsOneClass (after_reply g e r).1
unfolding after_reply
after_reply-IsOneClass g e voted = refl
after_reply-IsOneClass g e (refused x) =
    ground (arith, refused_with-IsOneClass g e (classify_rpc_error x.message))

relay_entry-IsOneClass : (g : Gate) (v : Visit) → IsOneClass (relay_entry g v).1
unfolding relay_entry
relay_entry-IsOneClass g v = ground (arith, after_reply-IsOneClass g v.entry v.reply)

visit-IsOneClass : (g : Gate) (v : Visit) → IsOneClass (visit g v).1
unfolding visit
visit-IsOneClass no_receipts v = relay_entry-IsOneClass no_receipts v
visit-IsOneClass unavailable v = refl
visit-IsOneClass (decided relay_new) v = relay_entry-IsOneClass (decided relay_new) v
visit-IsOneClass (decided (relay_again r)) v = relay_entry-IsOneClass (decided (relay_again r)) v
visit-IsOneClass (decided (stale_confirmed r)) v =
    relay_entry-IsOneClass (decided (stale_confirmed r)) v
visit-IsOneClass (decided (hold r)) v = refl
visit-IsOneClass (decided (already_on_chain r)) v = refl
visit-IsOneClass (decided (recently_relayed r)) v = refl

process_all-counts :
    (b : Bool) (w : Windows) (now : ℕ) (req : Request) (t : Table) (vs : List Visit)
    → count (λ r. r.ok) (process_all b w now req t vs).0
        + count rejects (process_all b w now req t vs).0
        + count (λ r. r.uncertain) (process_all b w now req t vs).0
        + count (λ r. r.not_submitted) (process_all b w now req t vs).0
      ≡ length vs
unfolding process_all count
process_all-counts b w now req t [] = refl
process_all-counts b w now req t (v ∷ vs) =
    ground
      (arith, visit-IsOneClass (gate_of b w now req t v) v, process_all-counts b w now req t vs)

-- The four totals of a response add up to the number of entries of the request.
pub relay_votes-counts :
    (b : Bool) (w : Windows) (now : ℕ) (req : Request) (schedule : List (ℕ × Attempt) → List Moment)
    (vs : List Visit) (t : Table)
    → let r = (relay_votes b w now req schedule vs t).1 in
      r.accepted + r.rejected + r.unknown + r.not_submitted ≡ length vs
unfolding relay_votes response
relay_votes-counts b w now req schedule vs t = process_all-counts b w now req t vs

abbrev pub skips : Gate → Bool
skips (decided (already_on_chain r)) = true
skips (decided (recently_relayed r)) = true
skips _ = false

relay_entry-ok :
    (g : Gate) (v : Visit)
    → ((relay_entry g v).1.ok ≡ true) ↔ ((v.aborted ≡ false) × (v.reply ≡ voted))
unfolding relay_entry after_reply refused_with
relay_entry-ok g v = ground arith

-- An entry is reported as accepted exactly where Core was asked and accepted the vote, or where the
-- receipt shows the same vote on the chain or just relayed.
pub visit-ok :
    (g : Gate) (v : Visit)
    → ((visit g v).1.ok ≡ true) ↔ (((calls_core g v ≡ true) × (v.reply ≡ voted)) ⊎ (skips g ≡ true))
unfolding visit calls_core
visit-ok no_receipts v = ground (arith, relay_entry-ok no_receipts v)
visit-ok unavailable v = ground arith
visit-ok (decided relay_new) v = ground (arith, relay_entry-ok (decided relay_new) v)
visit-ok (decided (relay_again r)) v = ground (arith, relay_entry-ok (decided (relay_again r)) v)
visit-ok (decided (stale_confirmed r)) v =
    ground (arith, relay_entry-ok (decided (stale_confirmed r)) v)
visit-ok (decided (hold r)) v = ground arith
visit-ok (decided (already_on_chain r)) v = ground arith
visit-ok (decided (recently_relayed r)) v = ground arith
