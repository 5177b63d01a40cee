-- ===== src/Accounts/Pending.antt =====
-- lib/pendingRegistrations.js. The hash of tokens, the hash of credentials and the random token are
-- given.
use sysnode_backend.Base.{
  ℕ, ◌+◌, Bool, Option, none, some, List, [], ◌∷◌, ◌++◌, ltb, ◌==◌, if◌then◌else◌, Text, same_text,
  is_lower_hex64,
}
use sysnode_backend.Eq.{text_eq}
use sysnode_backend.Js.{Js, str}
use sysnode_backend.Results.{Result, ok, err}
use sysnode_backend.Rows.{lookup, delete_where, count_where}
use sysnode_backend.Accounts.Email.{normalize_email, is_valid_email_syntax}

pub record Pending : Type 0 where
  pub token_hash : Text
  pub email : Text
  pub stored_auth : Text
  pub created_at : ℕ
  pub expires_at : ℕ

abbrev pub hash_of_pending : Pending → Text
hash_of_pending r = r.token_hash

pub data IssueError : Type 0 where
  invalid_email : IssueError

pub record Redeemed : Type 0 where
  pub email : Text
  pub stored_auth : Text

abbrev pub is_hash : Text → Pending → Bool
is_hash h r = same_text r.token_hash h

abbrev pub token_of : Js → Option Text
token_of (str s) = if is_lower_hex64 s then some s else none
token_of _ = none

module _ (nfkc : Text → Text) (hash_token : Text → Text) where
  unfoldable pub issue :
      ℕ → Js → Text → Text → ℕ → List Pending → List Pending × Result IssueError Text
  unfolding normalize_email is_valid_email_syntax
  issue ttl_ms email stored_auth token t rows =
      if is_valid_email_syntax (normalize_email nfkc email)
      then (
        rows
            ++ record {
              token_hash = hash_token token;
              email = normalize_email nfkc email;
              stored_auth = stored_auth;
              created_at = t;
              expires_at = t + ttl_ms;
            }
              ∷ [],
        ok token,
      )
      else (rows, err invalid_email)

  -- With the row of the token, as it was read.
  unfoldable pub redeem_row : Text → ℕ → Pending → List Pending → List Pending × Option Redeemed
  redeem_row h t r rows = if ltb r.expires_at t then (delete_where (is_hash h) rows, none) else (
    delete_where (is_hash h) rows,
    if count_where (is_hash h) rows == 1
        then some record { email = r.email; stored_auth = r.stored_auth }
        else none,
  )

  -- The row is read in `before`; the statement that deletes it finds `rows`.
  unfoldable pub redeem : Js → ℕ → List Pending → List Pending → List Pending × Option Redeemed
  unfolding redeem_row
  redeem token t before rows = elim (token_of token) [
    | none ↦ (rows, none)
    | some tok ↦ elim (lookup hash_of_pending (hash_token tok) before) [
      | none ↦ (rows, none)
      | some r ↦ redeem_row (hash_token tok) t r rows
    ]
  ]

  unfoldable pub purge_for_email : Js → List Pending → List Pending × ℕ
  unfolding normalize_email
  purge_for_email email rows =
      let p : Pending → Bool = λ r. same_text r.email (normalize_email nfkc email) in
      (delete_where p rows, count_where p rows)

unfoldable pub cleanup_expired : ℕ → List Pending → List Pending × ℕ
cleanup_expired t rows =
    (delete_where (λ r. ltb r.expires_at t) rows, count_where (λ r. ltb r.expires_at t) rows)
