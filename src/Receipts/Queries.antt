-- ===== src/Receipts/Queries.antt =====
-- lib/voteReceipts.js: the reads of the repository.
use sysnode_backend.Base.{
  ℕ, Bool, true, false, ◌&&◌, Option, none, some, List, [], ◌∷◌, ltb, ◌==◌, if◌then◌else◌, Text,
  to_lower_case, same_text, filter, ◌>>=◌, ◌||◌, take,
}
use sysnode_backend.Js.{Js, arr, Items, nil, cons, hash_of, positive_integer, non_negative_integer}
use sysnode_backend.Rows.{lookup}
use sysnode_backend.Rows.Sorted.{order_by}
use sysnode_backend.Receipts.Types.{Status, relayed, confirmed}
use sysnode_backend.Receipts.Table.{key_eq, Receipt, key_of, Table}

-- `getByOutpoint`: null where an argument is malformed or no row is there.
unfoldable pub get_by_outpoint : Js → Js → Js → Js → Table → Option Receipt
get_by_outpoint user hash index proposal t = do
  user_id ← positive_integer user
  collateral_hash ← hash_of hash
  collateral_index ← non_negative_integer index
  proposal_hash ← hash_of proposal
  lookup key_of
      (record {
        user_id = user_id;
        collateral_hash = to_lower_case collateral_hash;
        collateral_index = collateral_index;
        proposal_hash = to_lower_case proposal_hash;
      })
      t.rows

-- ORDER BY submitted_at DESC
abbrev pub later_first : Receipt → Receipt → Bool
later_first a b = ltb b.submitted_at a.submitted_at

-- `WHERE user_id = ? AND proposal_hash = ?`
abbrev pub of_proposal : ℕ → Text → Receipt → Bool
of_proposal user proposal r = r.key.user_id == user && same_text r.key.proposal_hash proposal

unfoldable pub list_by_proposal_stmt : ℕ → Text → List Receipt → List Receipt
list_by_proposal_stmt user proposal rows =
    order_by later_first (filter (of_proposal user proposal) rows)

unfoldable pub list_for_proposal : Js → Js → Table → List Receipt
list_for_proposal user hash t = elim (positive_integer user) [
  | none ↦ []
  | some user_id ↦ elim (hash_of hash) [
    | none ↦ []
    | some proposal ↦ list_by_proposal_stmt user_id (to_lower_case proposal) t.rows
  ]
]

-- `Math.min(limit, 100)` of a positive integer, else 10.
unfoldable pub recent_limit : Js → ℕ
recent_limit limit = elim (positive_integer limit) [
  | none ↦ 10
  | some n ↦ if ltb 100 n then 100 else n
]

unfoldable pub list_recent : Js → Js → Table → List Receipt
unfolding recent_limit
list_recent user limit t = elim (positive_integer user) [
  | none ↦ []
  | some user_id ↦
      take (recent_limit limit)
        (order_by later_first (filter (λ r. r.key.user_id == user_id) t.rows))
]

-- The hashes that pass the test, lower-cased.
unfoldable pub normalized : Items → List Text
normalized nil = []
normalized (cons h hs) = elim (hash_of h) [
  | none ↦ normalized hs
  | some s ↦ to_lower_case s ∷ normalized hs
]

abbrev pub member : Text → List Text → Bool
member h [] = false
member h (x ∷ xs) = same_text x h || member h xs

-- `status IN ('relayed', 'confirmed')`
abbrev pub is_engaged : Status → Bool
is_engaged relayed = true
is_engaged confirmed = true
is_engaged _ = false

abbrev pub engaged_row : ℕ → List Text → Receipt → Bool
engaged_row user hashes r =
    r.key.user_id == user && member r.key.proposal_hash hashes && is_engaged r.status

unfoldable pub any_row : (Receipt → Bool) → List Receipt → Bool
any_row p [] = false
any_row p (r ∷ rs) = p r || any_row p rs

unfoldable pub has_any_relayed_in_cycle : Js → Js → Table → Bool
unfolding normalized any_row
has_any_relayed_in_cycle user (arr hashes) t = elim (positive_integer user) [
  | none ↦ false
  | some user_id ↦ any_row (engaged_row user_id (normalized hashes)) t.rows
]
has_any_relayed_in_cycle user _ t = false
