-- ===== src/Drafts.antt =====
-- lib/proposalDrafts.js: the drafts of proposals. The values of a patch are what `String`,
-- `toBigIntSats` and `Math.trunc(Number(…))` make of the caller's values; `toBigIntSats` may throw.
pub mod Patches
pub mod Tests
use sysnode_backend.Base.{
  ℕ, ◌+◌, Bool, true, false, ◌&&◌, ◌||◌, Option, none, some, List, [], ◌∷◌, ◌++◌, ◌==◌, ltb, filter,
  if◌then◌else◌, Text, ℤ, pos,
}
use sysnode_backend.Eq.{nat_eq}
use sysnode_backend.Results.{Result, ok, err}
use sysnode_backend.Rows.{update_where, delete_where, count_where}
use sysnode_backend.Rows.Sorted.{order_by}

pub record Draft : Type 0 where
  pub id : ℕ
  pub user_id : ℕ
  pub title : Text
  pub name : Text
  pub url : Text
  pub description : Text
  pub payment_address : Text
  pub payment_amount_sats : ℤ
  pub payment_count : ℤ
  pub start_epoch : Option ℤ
  pub end_epoch : Option ℤ
  pub created_at : ℕ
  pub updated_at : ℕ

pub record Drafts : Type 0 where
  pub rows : List Draft
  pub next_id : ℕ

pub data DraftError : Type 0 where
  invalid_amount : DraftError

-- A field is none where the key is missing; the inner none of the amount is a throw, that of an epoch
-- is NULL.
pub record Patch : Type 0 where
  pub title : Option Text
  pub name : Option Text
  pub url : Option Text
  pub description : Option Text
  pub payment_address : Option Text
  pub payment_amount_sats : Option (Option ℤ)
  pub payment_count : Option ℤ
  pub start_epoch : Option (Option ℤ)
  pub end_epoch : Option (Option ℤ)

abbrev pub or_else {ℓ} : {A : Type ℓ} → Option A → A → A
or_else none a = a
or_else (some b) a = b

-- The amount that the patch gives, if it does not throw.
abbrev pub amount_of : Option (Option ℤ) → Result DraftError (Option ℤ)
amount_of none = ok none
amount_of (some none) = err invalid_amount
amount_of (some (some new)) = ok (some new)

-- `id = ? AND user_id = ?`
abbrev pub is_draft : ℕ → ℕ → Draft → Bool
is_draft i user r = r.id == i && r.user_id == user

unfoldable pub find_draft : (Draft → Bool) → List Draft → Option Draft
find_draft p [] = none
find_draft p (r ∷ rs) = let rest = find_draft p rs in if p r then some r else rest

unfoldable pub get_by_id_for_user : ℕ → ℕ → Drafts → Option Draft
unfolding find_draft
get_by_id_for_user i user s = find_draft (is_draft i user) s.rows

-- ORDER BY updated_at DESC, id DESC
abbrev pub newer : Draft → Draft → Bool
newer a b = ltb b.updated_at a.updated_at || (a.updated_at == b.updated_at && ltb b.id a.id)

unfoldable pub list_for_user : ℕ → Drafts → List Draft
list_for_user user s = order_by newer (filter (λ r. r.user_id == user) s.rows)

unfoldable pub count_for_user : ℕ → Drafts → ℕ
count_for_user user s = count_where (λ r. r.user_id == user) s.rows

abbrev pub new_draft : ℕ → ℕ → Patch → Option ℤ → ℕ → Draft
new_draft i user p amount t = record {
  id = i;
  user_id = user;
  title = or_else p.title [];
  name = or_else p.name [];
  url = or_else p.url [];
  description = or_else p.description [];
  payment_address = or_else p.payment_address [];
  payment_amount_sats = or_else amount (pos 0);
  payment_count = or_else p.payment_count (pos 1);
  start_epoch = or_else p.start_epoch none;
  end_epoch = or_else p.end_epoch none;
  created_at = t;
  updated_at = t;
}

unfoldable pub create_draft : ℕ → Patch → ℕ → Drafts → Drafts × Result DraftError Draft
create_draft user p t s = elim (amount_of p.payment_amount_sats) [
  | err e ↦ (s, err e)
  | ok amount ↦ (
    record { rows = s.rows ++ new_draft s.next_id user p amount t ∷ []; next_id = s.next_id + 1 },
    ok (new_draft s.next_id user p amount t),
  )
]

-- Both UPDATE statements: without a key of the patch only the time is set.
abbrev pub patched : Patch → Option ℤ → ℕ → Draft → Draft
patched p amount t r = record r {
  title = or_else p.title r.title;
  name = or_else p.name r.name;
  url = or_else p.url r.url;
  description = or_else p.description r.description;
  payment_address = or_else p.payment_address r.payment_address;
  payment_amount_sats = or_else amount r.payment_amount_sats;
  payment_count = or_else p.payment_count r.payment_count;
  start_epoch = or_else p.start_epoch r.start_epoch;
  end_epoch = or_else p.end_epoch r.end_epoch;
  updated_at = t;
}

unfoldable pub update_draft : ℕ → ℕ → Patch → ℕ → Drafts → Drafts × Result DraftError (Option Draft)
unfolding get_by_id_for_user
update_draft i user p t s = elim (get_by_id_for_user i user s) [
  | none ↦ (s, ok none)
  | some r ↦ elim (amount_of p.payment_amount_sats) [
    | err e ↦ (s, err e)
    | ok amount ↦ (
      record s { rows = update_where (is_draft i user) (patched p amount t) s.rows },
      ok (some (patched p amount t r)),
    )
  ]
]

unfoldable pub remove_draft : ℕ → ℕ → Drafts → Drafts × ℕ
remove_draft i user s = (
  record s { rows = delete_where (is_draft i user) s.rows },
  count_where (is_draft i user) s.rows,
)
