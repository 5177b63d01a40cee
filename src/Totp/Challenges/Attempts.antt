-- ===== src/Totp/Challenges/Attempts.antt =====
-- lib/totp.js: how often a challenge can be tried.
use sysnode_backend.Base.{
  ℕ, ◌+◌, ◌-◌, ◌≤◌, ◌≡◌, refl, ap, ◌∙◌, inl, inr, Bool, true, false, ◌||◌, Option, none, some, List,
  [], ◌∷◌, arith, ltb, leb, Option-cases, Bool-cases, Text, same_text, same_text_refl,
  if◌then◌else◌, ◌>>=◌,
}
use sysnode_backend.Eq.{text_eq, nat_eq}
use sysnode_backend.Results.{Result, ok, err}
use sysnode_backend.Rows.{lookup, Unique}
use sysnode_backend.Rows.Laws.{
  lookup-update_where, lookup-delete_where, lookup-key, Unique-update_where, Unique-delete_where,
}
use sysnode_backend.Totp.Challenges.{
  Challenge, hash_of_challenge, State, TotpError, invalid_totp_code, crypto_failed,
  mfa_challenge_invalid, Crypto, max_challenge_attempts, Accepted, without, bump, bumped, on_check,
  check_factor, try_challenge, verify_challenge, secret_of, user_of, hashes_of, accepted,
}

-- The tries that a token has left.
abbrev pub left_of : Option Challenge → ℕ
left_of none = 0
left_of (some c) = 5 - c.attempts

abbrev pub left : Text → State → ℕ
left h s = left_of (lookup hash_of_challenge h s.challenges)

-- The answer tells whether the code was right.
abbrev pub answers : Result TotpError Accepted → ℕ
answers (ok a) = 1
answers (err invalid_totp_code) = 1
answers (err _) = 0

abbrev Ch : State → Type 0
Ch s = Unique hash_of_challenge s.challenges

deleted_left :
    (h : Text) (o : Option Challenge)
    → ((r : Challenge) → o ≡ some r → r.token_hash ≡ h)
    → left_of (o >>= λ r. if same_text r.token_hash h then none else some r) ≡ 0
deleted_left h none same = refl
deleted_left h (some r) same = rw (same r refl, same_text_refl h) refl

left-without : (h : Text) (s : State) → Ch s → left h (without h s) ≡ 0
left-without h s u =
    ap left_of
      (lookup-delete_where hash_of_challenge (λ c. same_text c.token_hash h) h s.challenges u)
    ∙ deleted_left h (lookup hash_of_challenge h s.challenges)
        (lookup-key hash_of_challenge h s.challenges)

left-bumped :
    (h : Text) (s : State) (ch : Challenge)
    → lookup hash_of_challenge h s.challenges ≡ some ch
    → left h (bumped h s) ≡ 5 - (ch.attempts + 1)
left-bumped h s ch found =
    ap left_of (
      lookup-update_where hash_of_challenge (λ c. same_text c.token_hash h) bump (λ r. refl) h
        s.challenges)
    ∙ rw (found, lookup-key hash_of_challenge h s.challenges ch found, same_text_refl h) refl

-- What a call leaves: unique hashes, and the tries that are left less the answer given.
abbrev Uses : Text → State → State × Result TotpError Accepted → Type 0
Uses h s after = Ch after.0 × (answers after.1 + left h after.0 ≤ left h s)

Uses-without :
    (h : Text) (s : State) (r : Result TotpError Accepted)
    → Ch s
    → answers r ≤ left h s
    → Uses h s (without h s, r)
Uses-without h s r u enough = (
  Unique-delete_where hash_of_challenge (λ c. same_text c.token_hash h) s.challenges u,
  omega (arith, left-without h s u),
)

Uses-bumped :
    (h : Text) (s : State) (ch : Challenge)
    → Ch s
    → lookup hash_of_challenge h s.challenges ≡ some ch
    → leb max_challenge_attempts ch.attempts ≡ false
    → Uses h s (bumped h s, err invalid_totp_code)
Uses-bumped h s ch u found few = (
  Unique-update_where hash_of_challenge (λ c. same_text c.token_hash h) bump (λ r. refl)
      s.challenges u,
  ground (arith, left-bumped h s ch found, ap left_of found),
)

Uses-on_check :
    (crypto : Crypto) (h : Text) (s : State) (o : Option Bool)
    (x y z : State × Result TotpError Accepted)
    → Uses h s x
    → Uses h s y
    → Uses h s z
    → Uses h s (on_check crypto o x y z)
Uses-on_check crypto h s none x y z a b c = a
Uses-on_check crypto h s (some false) x y z a b c = b
Uses-on_check crypto h s (some true) x y z a b c = c

-- A live challenge with tries left.
Uses-try_challenge :
    (crypto : Crypto) (h : Text) (ch : Challenge) (code recovery : Option Text) (t : ℕ) (s : State)
    → Ch s
    → lookup hash_of_challenge h s.challenges ≡ some ch
    → leb max_challenge_attempts ch.attempts ≡ false
    → Uses h s (try_challenge crypto h ch code recovery t s s)
unfolding try_challenge
Uses-try_challenge crypto h ch code recovery t s u found few =
    elim (Option-cases (secret_of (lookup user_of ch.user_id s.totp))) [
      | inl no_secret ↦
          rw (no_secret, try_challenge)
            (Uses-without h s (err mfa_challenge_invalid) u (omega arith))
      | inr (secret, e) ↦
          rw (e, try_challenge)
            (Uses-on_check crypto h s
              (check_factor crypto secret (hashes_of crypto (lookup user_of ch.user_id s.totp)) code
                recovery t)
              (s, err crypto_failed) (bumped h s, err invalid_totp_code)
              (without h s, ok (accepted crypto ch.user_id code recovery)) (u, omega arith)
              (Uses-bumped h s ch u found few)
              (Uses-without h s (ok (accepted crypto ch.user_id code recovery)) u
                (ground (arith, ap left_of found))))
    ]

verify_absent :
    (crypto : Crypto) (token : Text) (code recovery : Option Text) (t : ℕ) (s : State)
    → lookup hash_of_challenge (crypto.hash_token token) s.challenges ≡ none
    → verify_challenge crypto token code recovery t s s ≡ (s, err mfa_challenge_invalid)
unfolding verify_challenge
verify_absent crypto token code recovery t s absent = rw (absent, verify_challenge) refl

verify_over :
    (crypto : Crypto) (token : Text) (code recovery : Option Text) (t : ℕ) (s : State)
    (ch : Challenge)
    → lookup hash_of_challenge (crypto.hash_token token) s.challenges ≡ some ch
    → (ltb ch.expires_at t || leb max_challenge_attempts ch.attempts) ≡ true
    → verify_challenge crypto token code recovery t s s
      ≡ (without (crypto.hash_token token) s, err mfa_challenge_invalid)
unfolding verify_challenge
verify_over crypto token code recovery t s ch found over = rw (found, over, verify_challenge) refl

verify_live :
    (crypto : Crypto) (token : Text) (code recovery : Option Text) (t : ℕ) (s : State)
    (ch : Challenge)
    → lookup hash_of_challenge (crypto.hash_token token) s.challenges ≡ some ch
    → (ltb ch.expires_at t || leb max_challenge_attempts ch.attempts) ≡ false
    → verify_challenge crypto token code recovery t s s
      ≡ try_challenge crypto (crypto.hash_token token) ch code recovery t s s
unfolding verify_challenge
verify_live crypto token code recovery t s ch found live = rw (found, live, verify_challenge) refl

Uses-verify_challenge :
    (crypto : Crypto) (token : Text) (code recovery : Option Text) (t : ℕ) (s : State)
    → Ch s
    → Uses (crypto.hash_token token) s (verify_challenge crypto token code recovery t s s)
Uses-verify_challenge crypto token code recovery t s u =
    let h : Text = crypto.hash_token token in
    elim (Option-cases (lookup hash_of_challenge h s.challenges)) [
      | inl absent ↦ rw (verify_absent crypto token code recovery t s absent) (u, omega arith)
      | inr (ch, found) ↦
          elim (Bool-cases (ltb ch.expires_at t || leb max_challenge_attempts ch.attempts)) [
            | inl over ↦
                rw (verify_over crypto token code recovery t s ch found over)
                  (Uses-without h s (err mfa_challenge_invalid) u (omega arith))
            | inr live ↦
                rw (verify_live crypto token code recovery t s ch found live)
                  (Uses-try_challenge crypto h ch code recovery t s u found (ground arith))
          ]
    ]

-- One presentation of the token: the code, the recovery code and the time.
pub record Guess : Type 0 where
  pub code : Option Text
  pub recovery : Option Text
  pub now : ℕ

-- The guesses made one after the other, and the number of them that were told right or wrong.
unfoldable pub answered : Crypto → Text → List Guess → State → ℕ
unfolding verify_challenge
answered crypto token [] s = 0
answered crypto token (g ∷ gs) s =
    let after = verify_challenge crypto token g.code g.recovery g.now s s in
    answers after.1 + answered crypto token gs after.0

answered-left :
    (crypto : Crypto) (token : Text) (gs : List Guess) (s : State)
    → Ch s
    → answered crypto token gs s ≤ left (crypto.hash_token token) s
unfolding answered
answered-left crypto token [] s u = omega arith
answered-left crypto token (g ∷ gs) s u =
    let after = verify_challenge crypto token g.code g.recovery g.now s s in
    let used = Uses-verify_challenge crypto token g.code g.recovery g.now s u in
    omega (arith, used.1, answered-left crypto token gs after.0 used.0)

few_left : (o : Option Challenge) → left_of o ≤ 5
few_left none = omega arith
few_left (some c) = omega arith

-- Where token hashes are unique, however many guesses are made one after the other with one token,
-- at most five are told right or wrong.
pub answered-IsBounded :
    (crypto : Crypto) (token : Text) (guesses : List Guess) (s : State)
    → Unique hash_of_challenge s.challenges
    → answered crypto token guesses s ≤ max_challenge_attempts
answered-IsBounded crypto token guesses s u =
    let few = few_left (lookup hash_of_challenge (crypto.hash_token token) s.challenges) in
    omega (arith, few, answered-left crypto token guesses s u)
