-- ===== src/Accounts/Users.antt =====
-- lib/users.js. The stored credential, lib/kdf.js's hash of what the client sends, the random salt and
-- the Unicode normalization are given.
use sysnode_backend.Base.{
  ℕ, ◌+◌, Bool, true, false, not, ◌&&◌, Option, none, some, List, [], ◌∷◌, ◌++◌, ◌==◌,
  if◌then◌else◌, Text, filter, codes,
}
use sysnode_backend.Eq.{nat_eq, text_eq}
use sysnode_backend.Js.{Js, bool, obj, undefined, property, end}
use sysnode_backend.Results.{Result, ok, err}
use sysnode_backend.Rows.{lookup, delete_where, update_where, count_where}
use sysnode_backend.Accounts.Email.{normalize_email, is_valid_email_syntax}

-- The preferences are what the stored JSON parses to, `{}` where it does not parse.
pub record User : Type 0 where
  pub id : ℕ
  pub email : Text
  pub stored_auth : Text
  pub salt_v : Text
  pub email_verified : Bool
  pub notification_prefs : Js
  pub created_at : ℕ
  pub updated_at : ℕ

abbrev pub id_of : User → ℕ
id_of r = r.id

abbrev pub email_of : User → Text
email_of r = r.email

pub record Users : Type 0 where
  pub rows : List User
  pub next_id : ℕ

pub data CreateError : Type 0 where
  invalid_email email_taken : CreateError

abbrev pub is_taken : Option User → Bool
is_taken none = false
is_taken (some r) = true

-- INSERT, under the UNIQUE constraint on the address.
unfoldable pub insert_user : Bool → Text → Text → Text → ℕ → Users → Users × Result CreateError ℕ
insert_user verified email stored_auth salt_v t s =
    if is_taken (lookup email_of email s.rows) then (s, err email_taken) else (
      record {
        rows =
            s.rows
            ++ record {
              id = s.next_id;
              email = email;
              stored_auth = stored_auth;
              salt_v = salt_v;
              email_verified = verified;
              notification_prefs = obj end;
              created_at = t;
              updated_at = t;
            }
              ∷ [];
        next_id = s.next_id + 1;
      },
      ok s.next_id,
    )

unfoldable pub create_user :
    Bool → (Text → Text) → Js → Text → Text → ℕ → Users → Users × Result CreateError ℕ
unfolding normalize_email is_valid_email_syntax insert_user
create_user verified nfkc email stored_auth salt_v t s =
    if is_valid_email_syntax (normalize_email nfkc email)
    then insert_user verified (normalize_email nfkc email) stored_auth salt_v t s
    else (s, err invalid_email)

-- `create` and `createVerifiedWithStoredAuth`
abbrev pub create : (Text → Text) → Js → Text → Text → ℕ → Users → Users × Result CreateError ℕ
create = create_user false

abbrev pub create_verified_with_stored_auth :
    (Text → Text) → Js → Text → Text → ℕ → Users → Users × Result CreateError ℕ
create_verified_with_stored_auth = create_user true

abbrev pub at_id : ℕ → (User → User) → Users → Users
at_id i f s = record s { rows = update_where (λ r. r.id == i) f s.rows }

unfoldable pub mark_email_verified : ℕ → ℕ → Users → Users
mark_email_verified i t s = at_id i (λ r. record r { email_verified = true; updated_at = t }) s

unfoldable pub update_auth_hash : ℕ → Text → ℕ → Users → Users
update_auth_hash i stored_auth t s =
    at_id i (λ r. record r { stored_auth = stored_auth; updated_at = t }) s

unfoldable pub update_notification_prefs : ℕ → Js → ℕ → Users → Users
update_notification_prefs i prefs t s =
    at_id i (λ r. record r { notification_prefs = prefs; updated_at = t }) s

-- `id = ? AND email_verified = 0`
abbrev pub is_unverified : ℕ → User → Bool
is_unverified i r = r.id == i && not r.email_verified

abbrev pub promoted : Text → ℕ → User → User
promoted stored_auth t r = record r {
  stored_auth = stored_auth;
  email_verified = true;
  updated_at = t;
}

unfoldable pub promote_unverified_with_stored_auth : ℕ → Text → ℕ → Users → Users × Bool
promote_unverified_with_stored_auth i stored_auth t s = (
  record s { rows = update_where (is_unverified i) (promoted stored_auth t) s.rows },
  count_where (is_unverified i) s.rows == 1,
)

unfoldable pub delete_by_id : ℕ → Users → Users × ℕ
delete_by_id i s =
    (record s { rows = delete_where (λ r. r.id == i) s.rows }, count_where (λ r. r.id == i) s.rows)

unfoldable pub find_by_id : ℕ → Users → Option User
find_by_id i s = lookup id_of i s.rows

unfoldable pub find_by_email : (Text → Text) → Js → Users → Option User
unfolding normalize_email
find_by_email nfkc email s = lookup email_of (normalize_email nfkc email) s.rows

abbrev pub member_of : Text → Js → Js
member_of k (obj fs) = property k fs
member_of _ _ = undefined

abbrev pub is_false : Js → Bool
is_false (bool false) = true
is_false _ = false

-- Verified, and not opted out.
abbrev pub wants_reminders : User → Bool
wants_reminders r =
    r.email_verified
    && not (
        is_false
          (member_of (codes "enabled") (member_of (codes "voteReminders") r.notification_prefs)))

unfoldable pub list_with_reminders_enabled : Users → List User
list_with_reminders_enabled s = filter wants_reminders s.rows
