-- ===== src/Accounts/Redemption.antt =====
-- lib/pendingRegistrations.js: how often a registration can be redeemed.
use sysnode_backend.Base.{
  ℕ, ◌+◌, ◌≡◌, ◌≤◌, refl, inl, inr, Bool, Option, none, some, List, [], ◌∷◌, arith, ltb, ◌==◌,
  if◌then◌else◌, Bool-cases, Option-cases, Text, same_text, same_text_refl, ◌>>=◌,
}
use sysnode_backend.Eq.{text_eq}
use sysnode_backend.Js.{Js}
use sysnode_backend.Rows.{lookup, Unique, delete_where, count_where}
use sysnode_backend.Rows.Laws.{lookup-delete_where, lookup-key, Unique-delete_where}
use sysnode_backend.Accounts.Pending.{
  Pending, hash_of_pending, Redeemed, is_hash, token_of, redeem_row, redeem, purge_for_email,
  cleanup_expired,
}
use sysnode_backend.Accounts.Email.{normalize_email}

abbrev pub one_if_some {ℓ} : {A : Type ℓ} → Option A → ℕ
one_if_some none = 0
one_if_some (some a) = 1

-- What happens to the table while a token is around. An attempt to redeem it comes with the rows that
-- its handler has read, at any time before: they need not be those that its deletion finds.
pub data Event : Type 0 where
  attempt : ℕ → List Pending → Event
  purge : Js → Event
  sweep : ℕ → Event

module _ (nfkc : Text → Text) (hash_token : Text → Text) (token : Js) where
  -- One event, and the registration that it redeems.
  unfoldable pub occur : Event → List Pending → List Pending × Option Redeemed
  unfolding redeem purge_for_email cleanup_expired
  occur (attempt t before) rows = redeem nfkc hash_token token t before rows
  occur (purge email) rows = ((purge_for_email nfkc hash_token email rows).0, none)
  occur (sweep t) rows = ((cleanup_expired t rows).0, none)

  -- How many of the events redeem the token.
  unfoldable pub redemptions : List Event → List Pending → ℕ
  unfolding occur
  redemptions [] rows = 0
  redemptions (e ∷ es) rows =
      let after = occur e rows in one_if_some after.1 + redemptions es after.0

  abbrev held : Option Text → List Pending → ℕ
  held none rows = 0
  held (some tok) rows = one_if_some (lookup hash_of_pending (hash_token tok) rows)

  abbrev Spends : List Pending → List Pending × Option Redeemed → Type 0
  Spends rows after =
      Unique hash_of_pending after.0
      × (one_if_some after.1 + held (token_of token) after.0 ≤ held (token_of token) rows)

  kept_or_gone :
      (p : Pending → Bool) (o : Option Pending)
      → one_if_some (o >>= λ r. if p r then none else some r) ≤ one_if_some o
  kept_or_gone p none = omega arith
  kept_or_gone p (some r) = ground arith

  held-delete_where :
      (p : Pending → Bool) (o : Option Text) (rows : List Pending)
      → Unique hash_of_pending rows
      → held o (delete_where p rows) ≤ held o rows
  held-delete_where p none rows u = omega arith
  held-delete_where p (some tok) rows u =
      rw (lookup-delete_where hash_of_pending p (hash_token tok) rows u)
        (kept_or_gone p (lookup hash_of_pending (hash_token tok) rows))

  deleted :
      (h : Text) (rows : List Pending) (r : Pending)
      → Unique hash_of_pending rows
      → lookup hash_of_pending h rows ≡ some r
      → lookup hash_of_pending h (delete_where (is_hash h) rows) ≡ none
  deleted h rows r u found =
      rw
        (
          lookup-delete_where hash_of_pending (is_hash h) h rows u,
          found,
          lookup-key hash_of_pending h rows r found,
          same_text_refl h,
        )
        refl

  at_most_one {ℓ} : {A : Type ℓ} (o : Option A) → one_if_some o ≤ 1
  at_most_one none = omega arith
  at_most_one (some a) = omega arith

  -- The row is gone, whatever the answer.
  Spends-deleted :
      (tok : Text) (r : Pending) (rows : List Pending) (answer : Option Redeemed)
      → Unique hash_of_pending rows
      → token_of token ≡ some tok
      → lookup hash_of_pending (hash_token tok) rows ≡ some r
      → Spends rows (delete_where (is_hash (hash_token tok)) rows, answer)
  Spends-deleted tok r rows answer u e found = (
    Unique-delete_where hash_of_pending (is_hash (hash_token tok)) rows u,
    rw (e, deleted (hash_token tok) rows r u found, found) (omega (arith, at_most_one answer)),
  )

  none_to_count :
      (h : Text) (rows : List Pending)
      → lookup hash_of_pending h rows ≡ none
      → count_where (is_hash h) rows ≡ 0
  unfolding lookup count_where
  none_to_count h [] e = refl
  none_to_count h (x ∷ xs) e = ground (arith, none_to_count h xs)

  -- Another handler has spent the token since the row was read.
  Spends-missing :
      (tok : Text) (r : Pending) (rows : List Pending)
      → Unique hash_of_pending rows
      → token_of token ≡ some tok
      → lookup hash_of_pending (hash_token tok) rows ≡ none
      → Spends rows (
        delete_where (is_hash (hash_token tok)) rows,
        if count_where (is_hash (hash_token tok)) rows == 1
            then some record { email = r.email; stored_auth = r.stored_auth }
            else none,
      )
  Spends-missing tok r rows u e missing = (
    Unique-delete_where hash_of_pending (is_hash (hash_token tok)) rows u,
    rw (none_to_count (hash_token tok) rows missing)
        (omega (arith, held-delete_where (is_hash (hash_token tok)) (token_of token) rows u)),
  )

  redeem_row-Spends :
      (tok : Text) (t : ℕ) (r : Pending) (rows : List Pending)
      → Unique hash_of_pending rows
      → token_of token ≡ some tok
      → Spends rows (redeem_row nfkc hash_token (hash_token tok) t r rows)
  unfolding redeem_row
  redeem_row-Spends tok t r rows u e = elim (Bool-cases (ltb r.expires_at t)) [
    | inl over ↦
        rw (over, redeem_row)
          (
            Unique-delete_where hash_of_pending (is_hash (hash_token tok)) rows u,
            omega (arith, held-delete_where (is_hash (hash_token tok)) (token_of token) rows u),
          )
    | inr live ↦
        rw (live, redeem_row)
          (elim (Option-cases (lookup hash_of_pending (hash_token tok) rows)) [
            | inl missing ↦ Spends-missing tok r rows u e missing
            | inr (x, found) ↦
                Spends-deleted tok x rows
                  (if count_where (is_hash (hash_token tok)) rows == 1
                    then some record { email = r.email; stored_auth = r.stored_auth }
                    else none)
                  u e found
          ])
  ]

  redeem-found :
      (t : ℕ) (before rows : List Pending) (tok : Text) (r : Pending)
      → token_of token ≡ some tok
      → lookup hash_of_pending (hash_token tok) before ≡ some r
      → redeem nfkc hash_token token t before rows
        ≡ redeem_row nfkc hash_token (hash_token tok) t r rows
  unfolding redeem
  redeem-found t before rows tok r e found = rw (e, redeem, found) refl

  redeem-missing :
      (t : ℕ) (before rows : List Pending) (tok : Text)
      → token_of token ≡ some tok
      → lookup hash_of_pending (hash_token tok) before ≡ none
      → redeem nfkc hash_token token t before rows ≡ (rows, none)
  unfolding redeem
  redeem-missing t before rows tok e missing = rw (e, redeem, missing) refl

  redeem-malformed :
      (t : ℕ) (before rows : List Pending)
      → token_of token ≡ none
      → redeem nfkc hash_token token t before rows ≡ (rows, none)
  unfolding redeem
  redeem-malformed t before rows e = rw (e, redeem) refl

  redeem-Spends :
      (t : ℕ) (before rows : List Pending)
      → Unique hash_of_pending rows
      → Spends rows (redeem nfkc hash_token token t before rows)
  redeem-Spends t before rows u = elim (Option-cases (token_of token)) [
    | inl e ↦ rw (redeem-malformed t before rows e) (u, omega arith)
    | inr (tok, e) ↦ elim (Option-cases (lookup hash_of_pending (hash_token tok) before)) [
      | inl missing ↦ rw (redeem-missing t before rows tok e missing) (u, omega arith)
      | inr (r, found) ↦
          rw (redeem-found t before rows tok r e found) (redeem_row-Spends tok t r rows u e)
    ]
  ]

  occur-Spends :
      (e : Event) (rows : List Pending) → Unique hash_of_pending rows → Spends rows (occur e rows)
  unfolding occur purge_for_email cleanup_expired
  occur-Spends (attempt t before) rows u = redeem-Spends t before rows u
  occur-Spends (purge email) rows u = (
    Unique-delete_where hash_of_pending (λ r. same_text r.email (normalize_email nfkc email)) rows
        u,
    omega (
      arith,
      held-delete_where (λ r. same_text r.email (normalize_email nfkc email)) (token_of token) rows
          u,
    ),
  )
  occur-Spends (sweep t) rows u = (
    Unique-delete_where hash_of_pending (λ r. ltb r.expires_at t) rows u,
    omega (arith, held-delete_where (λ r. ltb r.expires_at t) (token_of token) rows u),
  )

  redemptions-held :
      (es : List Event) (rows : List Pending)
      → Unique hash_of_pending rows
      → redemptions es rows ≤ held (token_of token) rows
  unfolding redemptions
  redemptions-held [] rows u = omega arith
  redemptions-held (e ∷ es) rows u =
      let spent = occur-Spends e rows u in
      omega (arith, spent.1, redemptions-held es (occur e rows).0 spent.0)

  held_at_most : (o : Option Text) (rows : List Pending) → held o rows ≤ 1
  held_at_most none rows = omega arith
  held_at_most (some tok) rows = at_most_one (lookup hash_of_pending (hash_token tok) rows)

  -- Where token hashes are unique, a token redeems at most one registration, however many attempts are
  -- made, whatever rows each of them had read before its deletion runs, so that several may have seen
  -- the token at once, and however the purges and the clean-ups fall between them.
  pub redemptions-IsBounded :
      (events : List Event) (rows : List Pending)
      → Unique hash_of_pending rows
      → redemptions events rows ≤ 1
  redemptions-IsBounded events rows u =
      omega (arith, redemptions-held events rows u, held_at_most (token_of token) rows)
