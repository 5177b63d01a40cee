-- ===== src/Accounts/Tests.antt =====
-- lib/email.js, lib/pendingRegistrations.js, lib/verifications.js and lib/users.js: runs of the model on
-- small inputs, with the identity for every hash.
use sysnode_backend.Base.{◌≡◌, ◌≤◌, refl, true, false, [], ◌∷◌, arith, Text, codes, is_lower_hex64}
use sysnode_backend.Eq.{nat_eq, text_eq}
use sysnode_backend.Js.{str, obj, end}
use sysnode_backend.Results.{err}
use sysnode_backend.Rows.{lookup, delete_where, count_where}
use sysnode_backend.Receipts.Tests.{hash_a}
use sysnode_backend.Accounts.Email.{is_valid_email_syntax}
use sysnode_backend.Accounts.Pending.{Pending}
use sysnode_backend.Accounts.Redemption.{attempt, sweep, redemptions, redemptions-IsBounded}
use sysnode_backend.Accounts.Users.{User, Users, create_user, email_taken}
use sysnode_backend.Accounts.Operations.{Operation, promotes, apply, Valid}
use sysnode_backend.Accounts.Credentials.{Holds, apply-Holds}

abbrev pub plain : Text → Text
plain s = s

accepts_digit_label : is_valid_email_syntax (codes "a.b+c@1mail.example") ≡ true
unfolding is_valid_email_syntax
accepts_digit_label = refl

refuses_two_ats : is_valid_email_syntax (codes "a@b@mail.example") ≡ false
unfolding is_valid_email_syntax
refuses_two_ats = refl

abbrev pub pending : Pending
pending = record {
  token_hash = hash_a;
  email = codes "a@mail.example";
  stored_auth = codes "auth";
  created_at = 0;
  expires_at = 1800000;
}

-- Both handlers read the row before either of them deletes it.
redeems_once :
    redemptions plain plain
      (str hash_a)
      (attempt 5 (pending ∷ []) ∷ attempt 6 (pending ∷ []) ∷ [])
      (pending ∷ [])
    ≡ 1
unfolding redemptions is_lower_hex64 lookup delete_where count_where
redeems_once = refl

redemptions-IsBounded_example :
    redemptions plain plain
      (str hash_a)
      (attempt 5 (pending ∷ []) ∷ sweep 6 ∷ attempt 7 (pending ∷ []) ∷ [])
      (pending ∷ [])
    ≤ 1
unfolding lookup
redemptions-IsBounded_example =
    redemptions-IsBounded plain plain (str hash_a)
      (attempt 5 (pending ∷ []) ∷ sweep 6 ∷ attempt 7 (pending ∷ []) ∷ []) (pending ∷ []) (refl, tt)

abbrev pub verified_user : User
verified_user = record {
  id = 1;
  email = codes "a@mail.example";
  stored_auth = codes "auth";
  salt_v = codes "salt";
  email_verified = true;
  notification_prefs = obj end;
  created_at = 0;
  updated_at = 0;
}

abbrev pub one_user : Users
one_user = record { rows = verified_user ∷ []; next_id = 2 }

taken :
    (create_user true plain
      (str (codes " A@mail.example"))
      (codes "other")
      (codes "salt")
      9
      one_user).1
    ≡ err email_taken
unfolding create_user lookup
taken = refl

one_user-Valid : Valid one_user
unfolding lookup
one_user-Valid = record { ids = (refl, tt); emails = (refl, tt); fresh = λ j h. ground arith }

one_user-Holds : Holds 1 (codes "a@mail.example") (codes "auth") one_user
unfolding lookup
one_user-Holds = (verified_user, refl, refl, refl, refl)

abbrev pub takes_over : Operation
takes_over = promotes 1 (codes "other") 9

apply-Holds_example :
    Holds 1 (codes "a@mail.example") (codes "auth") (apply plain takes_over one_user)
apply-Holds_example =
    apply-Holds plain takes_over 1 (codes "a@mail.example") (codes "auth") one_user one_user-Valid
      tt one_user-Holds
