-- ===== src/Sessions.antt =====
-- lib/sessions.js: the session store. The hash of a token is a parameter, and the random token is an
-- argument of `issue`.
pub mod Lifetime
pub mod Tests
use sysnode_backend.Base.{
  ℕ, ◌+◌, Bool, true, false, not, ◌&&◌, ◌||◌, Option, none, some, List, [], ◌∷◌, ◌++◌, ◌==◌, ltb,
  if◌then◌else◌, Text, same_text, is_lower_hex64,
}
use sysnode_backend.Eq.{text_eq}
use sysnode_backend.Js.{Js, str}
use sysnode_backend.Rows.{update_where, delete_where, count_where, lookup}

pub record Session : Type 0 where
  pub id : ℕ
  pub user_id : ℕ
  pub token_hash : Text
  pub created_at : ℕ
  pub expires_at : ℕ
  pub last_seen : ℕ
  pub user_agent : Option Text
  pub ip : Option Text

abbrev pub hash_of_row : Session → Text
hash_of_row r = r.token_hash

pub record Store : Type 0 where
  pub rows : List Session
  pub next_id : ℕ

pub record Lifetimes : Type 0 where
  pub sliding_ms : ℕ
  pub absolute_ms : ℕ

abbrev pub default_lifetimes : Lifetimes
default_lifetimes = record { sliding_ms = 1209600000; absolute_ms = 2592000000 }

-- What `verify` returns.
pub record Verified : Type 0 where
  pub id : ℕ
  pub user_id : ℕ
  pub created_at : ℕ
  pub expires_at : ℕ

abbrev pub earlier : ℕ → ℕ → ℕ
earlier a b = if ltb a b then a else b

abbrev pub token_of : Js → Option Text
token_of (str s) = if is_lower_hex64 s then some s else none
token_of _ = none

abbrev pub is_over : Lifetimes → ℕ → Session → Bool
is_over l t r = ltb r.expires_at t || ltb (r.created_at + l.absolute_ms) t

abbrev pub slid : Lifetimes → ℕ → Session → ℕ
slid l t r = earlier (t + l.sliding_ms) (r.created_at + l.absolute_ms)

abbrev pub slide : Lifetimes → ℕ → ℕ → Session → Session
slide l t until r = record r { expires_at = until; last_seen = t }

abbrev pub verified : Lifetimes → ℕ → Session → Verified
verified l t r = record {
  id = r.id;
  user_id = r.user_id;
  created_at = r.created_at;
  expires_at = slid l t r;
}

module _ (hash_token : Text → Text) where
  unfoldable pub issue :
      Lifetimes → ℕ → Text → Option Text → Option Text → ℕ → Store → Store × Text × ℕ
  issue l user token user_agent ip t s = (
    record {
      rows =
          s.rows
          ++ record {
            id = s.next_id;
            user_id = user;
            token_hash = hash_token token;
            created_at = t;
            expires_at = t + l.sliding_ms;
            last_seen = t;
            user_agent = user_agent;
            ip = ip;
          }
            ∷ [];
      next_id = s.next_id + 1;
    },
    token,
    t + l.sliding_ms,
  )

  -- The row is read in `before`; the update of its expiry by its id finds `s`.
  unfoldable pub verify : Lifetimes → Js → ℕ → (before at_write : Store) → Store × Option Verified
  verify l token t before s = elim (token_of token) [
    | none ↦ (s, none)
    | some tok ↦ elim (lookup hash_of_row (hash_token tok) before.rows) [
      | none ↦ (s, none)
      | some r ↦ if is_over l t r then (s, none) else (
        record s { rows = update_where (λ x. x.id == r.id) (slide l t (slid l t r)) s.rows },
        some (verified l t r),
      )
    ]
  ]

  unfoldable pub revoke : Js → Store → Store × Bool
  revoke token s = elim (token_of token) [
    | none ↦ (s, false)
    | some tok ↦
        let is_row : Session → Bool = λ r. same_text r.token_hash (hash_token tok) in
        (record s { rows = delete_where is_row s.rows }, ltb 0 (count_where is_row s.rows))
  ]

unfoldable pub revoke_all_for_user : ℕ → Store → Store × ℕ
revoke_all_for_user user s = (
  record s { rows = delete_where (λ r. r.user_id == user) s.rows },
  count_where (λ r. r.user_id == user) s.rows,
)

unfoldable pub cleanup_expired : Lifetimes → ℕ → Store → Store × ℕ
cleanup_expired l t s =
    (record s { rows = delete_where (is_over l t) s.rows }, count_where (is_over l t) s.rows)
