-- ===== src/Accounts/Operations.antt =====
-- lib/users.js: the operations that change the table.
use sysnode_backend.Base.{ℕ, ◌≡◌, ◌≤◌, Bool, none, Text}
use sysnode_backend.Eq.{nat_eq, text_eq}
use sysnode_backend.Js.{Js}
use sysnode_backend.Rows.{lookup, Unique}
use sysnode_backend.Accounts.Users.{
  id_of, email_of, Users, create_user, mark_email_verified, update_auth_hash,
  update_notification_prefs, promote_unverified_with_stored_auth, delete_by_id,
}

-- The operations that change the table, with the values that a call is given.
pub data Operation : Type 0 where
  creates : Bool → Js → Text → Text → ℕ → Operation
  marks_verified : ℕ → ℕ → Operation
  changes_auth : ℕ → Text → ℕ → Operation
  changes_prefs : ℕ → Js → ℕ → Operation
  promotes : ℕ → Text → ℕ → Operation
  deletes : ℕ → Operation

unfoldable pub apply : (Text → Text) → Operation → Users → Users
unfolding create_user mark_email_verified update_auth_hash update_notification_prefs
    promote_unverified_with_stored_auth delete_by_id
apply nfkc (creates verified email stored_auth salt_v t) s =
    (create_user verified nfkc email stored_auth salt_v t s).0
apply nfkc (marks_verified i t) s = mark_email_verified i t s
apply nfkc (changes_auth i stored_auth t) s = update_auth_hash i stored_auth t s
apply nfkc (changes_prefs i prefs t) s = update_notification_prefs i prefs t s
apply nfkc (promotes i stored_auth t) s = (promote_unverified_with_stored_auth i stored_auth t s).0
apply nfkc (deletes i) s = (delete_by_id i s).0

-- Ids and addresses are unique, and the next id is not in use or any later one.
pub record Valid (s : Users) : Type 0 where
  pub ids : Unique id_of s.rows
  pub emails : Unique email_of s.rows
  pub fresh : (j : ℕ) → s.next_id ≤ j → lookup id_of j s.rows ≡ none
