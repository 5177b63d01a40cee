-- ===== src/Submissions/Types.antt =====
-- lib/proposalSubmissions.js: the rows of proposal_submissions and the lookups.
use sysnode_backend.Base.{
  ℕ, Bool, false, ◌&&◌, Option, none, some, List, [], ◌∷◌, ◌==◌, if◌then◌else◌, Text, same_text,
  find, filter, ltb, ℤ, ◌||◌, length,
}
use sysnode_backend.Eq.{nat_eq}
use sysnode_backend.Rows.{lookup}
use sysnode_backend.Rows.Sorted.{order_by}

pub data Status : Type 0 where
  prepared awaiting_collateral submitted failed : Status

abbrev pub status_number : Status → ℕ
status_number prepared = 0
status_number awaiting_collateral = 1
status_number submitted = 2
status_number failed = 3

abbrev pub same_status : Status → Status → Bool
same_status a b = status_number a == status_number b

-- The columns that nothing changes: the frozen hashing fields and the proposal's text.
pub record Content : Type 0 where
  pub user_id : ℕ
  pub parent_hash : Text
  pub revision : ℤ
  pub time_unix : ℕ
  pub data_hex : Text
  pub proposal_hash : Text
  pub title : Text
  pub name : Text
  pub url : Text
  pub payment_address : Text
  pub payment_amount_sats : ℕ
  pub payment_count : ℤ
  pub start_epoch : ℤ
  pub end_epoch : ℤ
  pub created_at : ℕ

pub record Submission : Type 0 where
  pub id : ℕ
  pub content : Content
  pub draft_id : Option ℕ
  pub status : Status
  pub collateral_txid : Option Text
  pub collateral_confs : ℕ
  pub governance_hash : Option Text
  pub fail_reason : Option Text
  pub fail_detail : Option Text
  pub updated_at : ℕ

abbrev pub id_of : Submission → ℕ
id_of r = r.id

pub record Table : Type 0 where
  pub rows : List Submission
  pub next_id : ℕ

-- The `.code` of each error that the repository throws, and the three errors without one: a failed
-- conversion of the amount, an amount that cannot be bound, and SQLite's own refusal of an INSERT.
pub data SubmissionError : Type 0 where
  user_required time_required data_hex_required data_hex_invalid : SubmissionError
  proposal_hash_required proposal_hash_invalid name_required url_required : SubmissionError
  payment_address_required epoch_required amount_invalid amount_not_a_number amount_too_big :
      SubmissionError
  constraint_unique txid_invalid status_not_prepared txid_already_used : SubmissionError
  attach_cas_miss confs_invalid governance_hash_invalid status_not_awaiting : SubmissionError
  governance_hash_clash reason_required status_terminal status_invalid : SubmissionError

-- WHERE id = ?
abbrev pub by_id : ℕ → List Submission → Option Submission
by_id id rows = lookup id_of id rows

abbrev pub owned_by : ℕ → Option Submission → Option Submission
owned_by user none = none
owned_by user (some r) = if r.content.user_id == user then some r else none

-- WHERE id = ? AND user_id = ?
abbrev pub by_id_for_user : ℕ → ℕ → List Submission → Option Submission
by_id_for_user id user rows = owned_by user (by_id id rows)

abbrev pub has_text : Text → Option Text → Bool
has_text t none = false
has_text t (some s) = same_text s t

-- WHERE collateral_txid = ?, WHERE governance_hash = ?
abbrev pub by_txid : Text → List Submission → Option Submission
by_txid txid rows = find (λ r. has_text txid r.collateral_txid) rows

abbrev pub by_governance_hash : Text → List Submission → Option Submission
by_governance_hash hash rows = find (λ r. has_text hash r.governance_hash) rows

-- ORDER BY updated_at DESC, id DESC, and ORDER BY updated_at ASC, id ASC
abbrev pub newest_first : Submission → Submission → Bool
newest_first a b = ltb b.updated_at a.updated_at || (a.updated_at == b.updated_at && ltb b.id a.id)

abbrev pub oldest_first : Submission → Submission → Bool
oldest_first a b = ltb a.updated_at b.updated_at || (a.updated_at == b.updated_at && ltb a.id b.id)

unfoldable pub list_for_user : ℕ → Table → List Submission
list_for_user user t = order_by newest_first (filter (λ r. r.content.user_id == user) t.rows)

unfoldable pub list_by_status : Status → Table → List Submission
list_by_status s t = order_by oldest_first (filter (λ r. same_status r.status s) t.rows)

-- `if (!hash) return null`
unfoldable pub find_by_collateral_txid : Text → Table → Option Submission
find_by_collateral_txid txid t = if length txid == 0 then none else by_txid txid t.rows

unfoldable pub find_by_governance_hash : Text → Table → Option Submission
find_by_governance_hash hash t = if length hash == 0 then none else by_governance_hash hash t.rows

unfoldable pub find_by_proposal_hash_for_user : ℕ → Text → Table → Option Submission
find_by_proposal_hash_for_user user hash t =
    if length hash == 0
    then none
    else find (λ r. r.content.user_id == user && same_text r.content.proposal_hash hash) t.rows

-- A prepared row of the user for a payload.
abbrev pub is_prepared_payload : ℕ → Text → Submission → Bool
is_prepared_payload user data_hex r =
    same_status r.status prepared
    && r.content.user_id == user
    && same_text r.content.data_hex data_hex

-- ORDER BY created_at DESC, id DESC
abbrev pub latest_created : Submission → Submission → Bool
latest_created a b =
    ltb b.content.created_at a.content.created_at
    || (a.content.created_at == b.content.created_at && ltb b.id a.id)

abbrev first {ℓ} : {A : Type ℓ} → List A → Option A
first [] = none
first (x ∷ xs) = some x

unfoldable pub find_prepared_by_data_hex_for_user : ℕ → Text → Table → Option Submission
find_prepared_by_data_hex_for_user user data_hex t =
    if length data_hex == 0
    then none
    else first (order_by latest_created (filter (is_prepared_payload user data_hex) t.rows))
