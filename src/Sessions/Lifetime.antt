-- ===== src/Sessions/Lifetime.antt =====
-- lib/sessions.js: how long a session lives.
use sysnode_backend.Base.{
  ℕ, ◌≡◌, ◌≤◌, ◌+◌, refl, sym, ap, ◌∙◌, inl, inr, Bool, true, none, some, arith, Text, Option-cases,
  Bool-cases, same_text, same_text_refl,
}
use sysnode_backend.Eq.{text_eq}
use sysnode_backend.Js.{Js}
use sysnode_backend.Rows.{lookup, Unique, delete_where}
use sysnode_backend.Rows.Laws.{lookup-delete_where, lookup-key}
use sysnode_backend.Sessions.{
  Session, hash_of_row, Store, Lifetimes, Verified, token_of, is_over, verified, verify, revoke,
  cleanup_expired,
}

module _ (hash_token : Text → Text) (l : Lifetimes) (token : Js) where
  -- A session that `verify` accepts is not past its absolute end, and its new expiry is neither
  -- beyond that end nor more than the sliding interval from now, whatever the update then finds.
  pub verify-IsBounded :
      (t : ℕ) (s w : Store) (v : Verified)
      → (verify hash_token l token t s w).1 ≡ some v
      → (t ≤ v.created_at + l.absolute_ms)
        × (v.expires_at ≤ v.created_at + l.absolute_ms)
        × (v.expires_at ≤ t + l.sliding_ms)
  unfolding verify
  verify-IsBounded t s w v h = elim (Option-cases (token_of token)) [
    | inl e ↦ ground (arith, rw (e, verify) at h)
    | inr (tok, e) ↦ elim (Option-cases (lookup hash_of_row (hash_token tok) s.rows)) [
      | inl missing ↦ ground (arith, rw (e, verify, missing) at h)
      | inr (r, found) ↦ elim (Bool-cases (is_over l t r)) [
        | inl over ↦ ground (arith, rw (e, verify, found, over) at h)
        | inr live ↦
            let same : verified l t r ≡ v = ground (arith, rw (e, verify, found, live) at h) in
            rw (sym same) (ground arith, ground arith, ground arith)
      ]
    ]
  ]

  still_over :
      (t later : ℕ) (r : Session) → t ≤ later → is_over l t r ≡ true → is_over l later r ≡ true
  still_over t later r h over = ground arith

  -- Where token hashes are unique, a clean-up is invisible to `verify`: at that time or later, a
  -- token gets the answer that it would get without the clean-up, whatever its update then finds.
  pub verify-cleanup_expired :
      (t later : ℕ) (s w v : Store)
      → Unique hash_of_row s.rows
      → t ≤ later
      → (verify hash_token l token later (cleanup_expired l t s).0 w).1
        ≡ (verify hash_token l token later s v).1
  unfolding verify cleanup_expired
  verify-cleanup_expired t later s w v u h = elim (Option-cases (token_of token)) [
    | inl e ↦ rw (e, verify) refl
    | inr (tok, e) ↦
        let after = lookup-delete_where hash_of_row (is_over l t) (hash_token tok) s.rows u in
        elim (Option-cases (lookup hash_of_row (hash_token tok) s.rows)) [
          | inl missing ↦ rw (e, verify, after, missing) refl
          | inr (r, found) ↦ elim (Bool-cases (is_over l t r)) [
            | inl over ↦ rw (e, verify, after, found, over, still_over t later r h over) refl
            | inr live ↦ rw (e, verify, after, found, live) (ground arith)
          ]
        ]
  ]

  revoke-rows :
      (tok : Text) (s : Store)
      → token_of token ≡ some tok
      → (revoke hash_token token s).0
        ≡ record s { rows = delete_where (λ r. same_text r.token_hash (hash_token tok)) s.rows }
  unfolding revoke
  revoke-rows tok s e = rw (e, revoke) refl

  -- Where token hashes are unique, a revoked token is accepted no more.
  pub verify-revoke :
      (t : ℕ) (s w : Store)
      → Unique hash_of_row s.rows
      → (verify hash_token l token t (revoke hash_token token s).0 w).1 ≡ none
  unfolding verify
  verify-revoke t s w u = elim (Option-cases (token_of token)) [
    | inl e ↦ rw (e, verify) refl
    | inr (tok, e) ↦
        let is_row : Session → Bool = λ r. same_text r.token_hash (hash_token tok) in
        let after = lookup-delete_where hash_of_row is_row (hash_token tok) s.rows u in
        elim (Option-cases (lookup hash_of_row (hash_token tok) s.rows)) [
          | inl missing ↦
              ap (λ u. (verify hash_token l token t u w).1) (revoke-rows tok s e)
              ∙ rw (e, verify, after, missing) refl
          | inr (r, found) ↦
              let at : r.token_hash ≡ hash_token tok =
                lookup-key hash_of_row (hash_token tok) s.rows r found in
              ap (λ u. (verify hash_token l token t u w).1) (revoke-rows tok s e)
              ∙ rw (e, verify, after, found, at, same_text_refl (hash_token tok)) refl
        ]
  ]
