-- ===== src/Relay/Batch.antt =====
-- lib/gov.js: `relayVotes` on a whole batch. All decisions are taken first, on one table; the
-- entries then complete in some order, each with its write, and other requests write in between.
use sysnode_backend.Base.{
  ℕ, Bool, not, ◌&&◌, Option, none, some, List, [], ◌∷◌, ◌++◌, filter, length, Text, if◌then◌else◌,
}
use sysnode_backend.Receipts.Types.{Status}
use sysnode_backend.Receipts.Table.{Table, Attempt}
use sysnode_backend.Receipts.Upsert.{upsert_stmt}
use sysnode_backend.Receipts.Decide.{Windows}
use sysnode_backend.Relay.Visit.{
  Request, Entry, Visit, entry_key, gate_of, EntryResult, Write, visit,
}

abbrev pub attempt_of : Request → Entry → Status × Option Text → Attempt
attempt_of req e (status, last_error) = record {
  key = entry_key req e;
  vote_outcome = req.vote_outcome;
  vote_signal = req.vote_signal;
  vote_time = req.time;
  status = status;
  last_error = last_error;
}

-- `persistReceipt`: nothing without receipts, and nothing where the database throws.
unfoldable pub persist : Bool → Request → Visit → Write → List (ℕ × Attempt)
persist has_receipts req v none = []
persist has_receipts req v (some s) =
    if has_receipts && v.stores then (v.at, attempt_of req v.entry s) ∷ [] else []

-- The results, in the order of the entries, and the writes of each entry.
unfoldable pub process_all :
    Bool → Windows → ℕ → Request → Table → List Visit → List EntryResult × List (ℕ × Attempt)
process_all has_receipts w now req t [] = ([], [])
process_all has_receipts w now req t (v ∷ vs) =
    let one = visit (gate_of has_receipts w now req t v) v in
    let rest = process_all has_receipts w now req t vs in
    (one.1 ∷ rest.0, persist has_receipts req v one.0 ++ rest.1)

unfoldable pub count : (EntryResult → Bool) → List EntryResult → ℕ
count p rs = length (filter p rs)

pub record Response : Type 0 where
  pub accepted : ℕ
  pub rejected : ℕ
  pub unknown : ℕ
  pub not_submitted : ℕ
  pub results : List EntryResult

unfoldable pub response : List EntryResult → Response
unfolding count
response rs = record {
  accepted = count (λ r. r.ok) rs;
  rejected = count (λ r. not r.ok && not r.uncertain && not r.not_submitted) rs;
  unknown = count (λ r. r.uncertain) rs;
  not_submitted = count (λ r. r.not_submitted) rs;
  results = rs;
}

-- What happens to the table while the entries are with Core: the write of an entry that completes, or
-- that of another request.
pub data Moment : Type 0 where
  own : ℕ × Attempt → Moment
  foreign : (Table → Table) → Moment

unfoldable pub run_moments : List Moment → Table → Table
run_moments [] t = t
run_moments (own (now, a) ∷ ms) t = run_moments ms (upsert_stmt a now t)
run_moments (foreign f ∷ ms) t = run_moments ms (f t)

-- The batch decides on `t`. `schedule` puts its writes in the order in which the entries complete, and
-- between them the writes of other requests.
unfoldable pub relay_votes :
    Bool
    → Windows
    → ℕ
    → Request
    → (List (ℕ × Attempt) → List Moment)
    → List Visit
    → Table
    → Table × Response
unfolding run_moments
relay_votes has_receipts w now req schedule vs t =
    let processed = process_all has_receipts w now req t vs in
    (run_moments (schedule processed.1) t, response processed.0)
