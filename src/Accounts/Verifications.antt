-- ===== src/Accounts/Verifications.antt =====
-- lib/verifications.js. The hash of tokens and the random token are given.
use sysnode_backend.Base.{
  ℕ, ◌+◌, Bool, true, false, ◌&&◌, Option, none, some, List, [], ◌∷◌, ◌++◌, ltb, ◌==◌,
  if◌then◌else◌, Text,
}
use sysnode_backend.Eq.{text_eq}
use sysnode_backend.Js.{Js}
use sysnode_backend.Rows.{lookup, delete_where, update_where, count_where}
use sysnode_backend.Accounts.Pending.{token_of}

pub record Verification : Type 0 where
  pub id : ℕ
  pub user_id : ℕ
  pub token_hash : Text
  pub expires_at : ℕ
  pub consumed_at : Option ℕ
  pub created_at : ℕ

pub record Store : Type 0 where
  pub rows : List Verification
  pub next_id : ℕ

abbrev pub hash_of_verification : Verification → Text
hash_of_verification r = r.token_hash

abbrev pub is_unused : Option ℕ → Bool
is_unused none = true
is_unused (some _) = false

-- `id = ? AND consumed_at IS NULL`
abbrev pub is_open : ℕ → Verification → Bool
is_open i r = r.id == i && is_unused r.consumed_at

abbrev pub consumed : ℕ → Verification → Verification
consumed t r = record r { consumed_at = some t }

module _ (hash_token : Text → Text) where
  unfoldable pub issue : ℕ → ℕ → Text → ℕ → Store → Store × Text
  issue ttl_ms user token t s = (
    record {
      rows =
          s.rows
          ++ record {
            id = s.next_id;
            user_id = user;
            token_hash = hash_token token;
            expires_at = t + ttl_ms;
            consumed_at = none;
            created_at = t;
          }
            ∷ [];
      next_id = s.next_id + 1;
    },
    token,
  )

  -- With the row of the token, as it was read; the clock is read only when it is needed.
  unfoldable pub redeem_row : ℕ → Verification → Store → Store × Option ℕ
  redeem_row t r s =
      if is_unused r.consumed_at && (if ltb r.expires_at t then false else true)
      then (
        record s { rows = update_where (is_open r.id) (consumed t) s.rows },
        if count_where (is_open r.id) s.rows == 0 then none else some r.user_id,
      )
      else (s, none)

  -- The row is read in `before`; the statement that consumes it finds `s`.
  unfoldable pub redeem : Js → ℕ → Store → Store → Store × Option ℕ
  unfolding redeem_row
  redeem token t before s = elim (token_of token) [
    | none ↦ (s, none)
    | some tok ↦ elim (lookup hash_of_verification (hash_token tok) before.rows) [
      | none ↦ (s, none)
      | some r ↦ redeem_row t r s
    ]
  ]

unfoldable pub clear_for_user : ℕ → Store → Store
clear_for_user user s = record s { rows = delete_where (λ r. r.user_id == user) s.rows }
