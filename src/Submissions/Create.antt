-- ===== src/Submissions/Create.antt =====
-- lib/proposalSubmissions.js: `create`.
use sysnode_backend.Base.{
  ℕ, ◌+◌, ◌%◌, ◌^◌, ◌&&◌, Option, none, some, [], ◌∷◌, ◌++◌, ◌==◌, ltb, if◌then◌else◌, Text, codes,
  length, all, is_lower_hex, is_lower_hex64, find, ℤ, pos, negsuc,
}
use sysnode_backend.Js.{Js, int, str, Fields, positive_integer, property, decimal}
use sysnode_backend.Results.{Result, ok, err, ◌>>=◌, ◌>>◌, require, or_throw}
use sysnode_backend.Receipts.Parse.{is_digits}
use sysnode_backend.Submissions.Types.{
  prepared, Content, Submission, Table, SubmissionError, user_required, time_required,
  data_hex_required, data_hex_invalid, proposal_hash_required, proposal_hash_invalid, name_required,
  url_required, payment_address_required, epoch_required, amount_invalid, amount_not_a_number,
  amount_too_big, constraint_unique, is_prepared_payload,
}

-- The inputs that `create` stores as it finds them, after its defaults.
pub record Unchecked : Type 0 where
  pub draft_id : Option ℕ
  pub parent_hash : Text
  pub revision : ℤ
  pub title : Text
  pub payment_count : ℤ

-- `requireString`
abbrev pub require_string : Js → SubmissionError → Result SubmissionError Text
require_string (str []) e = err e
require_string (str (c ∷ s)) e = ok (c ∷ s)
require_string _ e = err e

-- `toBigIntSats` of a number or of digits; a negative amount is not told from zero, which the next
-- check refuses as well.
unfoldable pub to_big_int_sats : Js → Option ℕ
to_big_int_sats (int (pos n)) = some n
to_big_int_sats (int (negsuc n)) = some 0
to_big_int_sats (str s) =
    if is_digits s
    then some (decimal 0 s)
    else elim s [ [] ↦ none | c ∷ rest ↦ if c == b'-' && is_digits rest then some 0 else none ]
to_big_int_sats _ = none

abbrev pub integer : Js → Option ℤ
integer (int z) = some z
integer _ = none

-- `Math.trunc(Number(paymentCount)) || 1`, of an integer.
abbrev pub count_or_one : ℤ → ℤ
count_or_one (pos n) = if n == 0 then pos 1 else pos n
count_or_one (negsuc n) = negsuc n

-- The checks of `create`, in their order, and then that of the database: an amount of 2 ^ 63 or more is
-- not an SQLite integer, and binding it throws.
unfoldable pub check_input : Fields → Unchecked → ℕ → Result SubmissionError Content
unfolding to_big_int_sats property
check_input fs u now = do
  user_id ← or_throw (positive_integer (property (codes "userId") fs)) user_required
  time_unix ← or_throw (positive_integer (property (codes "timeUnix") fs)) time_required
  data_hex ← require_string (property (codes "dataHex") fs) data_hex_required
  require (all is_lower_hex data_hex && length data_hex % 2 == 0) data_hex_invalid
  hash ← require_string (property (codes "proposalHash") fs) proposal_hash_required
  require (is_lower_hex64 hash) proposal_hash_invalid
  name ← require_string (property (codes "name") fs) name_required
  url ← require_string (property (codes "url") fs) url_required
  address ← require_string (property (codes "paymentAddress") fs) payment_address_required
  start_epoch ← or_throw (integer (property (codes "startEpoch") fs)) epoch_required
  end_epoch ← or_throw (integer (property (codes "endEpoch") fs)) epoch_required
  amount ← or_throw (to_big_int_sats (property (codes "paymentAmountSats") fs)) amount_not_a_number
  require (ltb 0 amount) amount_invalid
  require (ltb amount (2 ^ 63)) amount_too_big
  ok (record {
    user_id = user_id;
    parent_hash = u.parent_hash;
    revision = u.revision;
    time_unix = time_unix;
    data_hex = data_hex;
    proposal_hash = hash;
    title = u.title;
    name = name;
    url = url;
    payment_address = address;
    payment_amount_sats = amount;
    payment_count = count_or_one u.payment_count;
    start_epoch = start_epoch;
    end_epoch = end_epoch;
    created_at = now;
  })

abbrev pub new_row : ℕ → Option ℕ → Content → Submission
new_row id draft c = record {
  id = id;
  content = c;
  draft_id = draft;
  status = prepared;
  collateral_txid = none;
  collateral_confs = 0;
  governance_hash = none;
  fail_reason = none;
  fail_detail = none;
  updated_at = c.created_at;
}

-- The INSERT, which the partial unique index on prepared payloads may refuse.
unfoldable pub insert_row : Option ℕ → Content → Table → Table × Result SubmissionError Submission
insert_row draft c t = elim (find (is_prepared_payload c.user_id c.data_hex) t.rows) [
  | some r ↦ (t, err constraint_unique)
  | none ↦ (
    record { rows = t.rows ++ new_row t.next_id draft c ∷ []; next_id = t.next_id + 1 },
    ok (new_row t.next_id draft c),
  )
]

unfoldable pub create : Fields → Unchecked → ℕ → Table → Table × Result SubmissionError Submission
create fs u now t = elim (check_input fs u now) [
  | err e ↦ (t, err e)
  | ok c ↦ insert_row u.draft_id c t
]
