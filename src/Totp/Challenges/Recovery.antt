-- ===== src/Totp/Challenges/Recovery.antt =====
-- lib/totp.js: what the use of a recovery code does to the stored hashes.
use sysnode_backend.Base.{
  ℕ, suc, ◌+◌, ◌≡◌, refl, sym, inl, inr, Bool, true, false, ◌&&◌, Option, none, some, List, [], ◌∷◌,
  arith, ◌==◌, ==_refl, ==_iff, Option-cases, Bool-cases, Text, same_text, same_text_iff,
  if◌then◌else◌, &&-true,
}
use mathlib.Core.Option
use sysnode_backend.Eq.{nat_eq}
use sysnode_backend.Rows.{lookup, update_where}
use sysnode_backend.Rows.Laws.{lookup-update_key}
use sysnode_backend.Totp.Challenges.{
  State, TwoFactor, user_of, Crypto, secret_of, hashes_of, has_recovery_code,
  normalize_recovery_code, is_recovery_code, member, remove_first, spend, consume_recovery_code,
}

-- How often a hash is stored.
unfoldable pub copies : Text → List Text → ℕ
copies h [] = 0
copies h (x ∷ xs) = let rest = copies h xs in if same_text x h then suc rest else rest

-- The stored copies of a hash of the user's row.
abbrev pub stored : Crypto → Text → ℕ → State → ℕ
stored crypto h user s = copies h (hashes_of crypto (lookup user_of user s.totp))

abbrev pub one_if : Bool → ℕ
one_if true = 1
one_if false = 0

copies-remove_first :
    (h k : Text) (xs : List Text)
    → member h xs ≡ true
    → copies k (remove_first h xs) + one_if (same_text h k) ≡ copies k xs
unfolding copies remove_first
copies-remove_first h k [] m = ground arith
copies-remove_first h k (x ∷ xs) m =
    ground
      (arith, copies-remove_first h k xs, same_text_iff x h, same_text_iff h k, same_text_iff x k)

abbrev pub hash_of_code : Crypto → Text → Text
hash_of_code crypto code = crypto.hash_recovery (normalize_recovery_code code)

spent :
    (crypto : Crypto) (k h : Text) (t : ℕ) (o : Option TwoFactor)
    → member h (hashes_of crypto o) ≡ true
    → copies k
          (hashes_of crypto (Option.map (spend crypto (remove_first h (hashes_of crypto o)) t) o))
        + one_if (same_text h k)
      ≡ copies k (hashes_of crypto o)
spent crypto k h t none m = ground arith
spent crypto k h t (some r) m = copies-remove_first h k r.recovery_hashes m

-- The copies of a hash `k` after a use, with the one that an accepted use took, are those before.
abbrev pub Accounts : Crypto → ℕ → Text → State → Text → ℕ → State × Bool → Type 0
Accounts crypto user code s k other after =
    stored crypto k other after.0
      + one_if (after.1 && user == other && same_text (hash_of_code crypto code) k)
    ≡ stored crypto k other s

refused :
    (crypto : Crypto) (user : ℕ) (code : Text) (s : State) (k : Text) (other : ℕ)
    → Accounts crypto user code s k other (s, false)
refused crypto user code s k other = omega arith

-- What is left of the hashes of the user's row.
abbrev left : Crypto → ℕ → Text → State → List Text
left crypto user h s = remove_first h (hashes_of crypto (lookup user_of user s.totp))

abbrev spending : Crypto → ℕ → Text → ℕ → State → State
spending crypto user h t s = record s {
  totp = update_where (λ x. x.user_id == user) (spend crypto (left crypto user h s) t) s.totp;
}

taken :
    (crypto : Crypto) (user : ℕ) (code : Text) (t : ℕ) (s : State) (k : Text) (other : ℕ)
    → member (hash_of_code crypto code) (hashes_of crypto (lookup user_of user s.totp)) ≡ true
    → Accounts crypto user code s k other
        (spending crypto user (hash_of_code crypto code) t s, true)
taken crypto user code t s k other m = elim (Bool-cases (user == other)) [
  | inr different ↦
      rw
        (
          lookup-update_key user_of (spend crypto (left crypto user (hash_of_code crypto code) s) t)
              (λ r. refl) user other s.totp,
          different,
        )
        (omega arith)
  | inl same ↦
      rw
        (
          lookup-update_key user_of (spend crypto (left crypto user (hash_of_code crypto code) s) t)
              (λ r. refl) user other s.totp,
          sym ((==_iff user other).0 same),
          ==_refl user,
        )
        (spent crypto k (hash_of_code crypto code) t (lookup user_of user s.totp) m)
]

has-member :
    (crypto : Crypto) (hashes : List Text) (code : Text)
    → has_recovery_code crypto hashes code ≡ true
    → member (hash_of_code crypto code) hashes ≡ true
unfolding has_recovery_code
has-member crypto hashes code h =
    (&&-true (is_recovery_code (normalize_recovery_code code))
      (member (hash_of_code crypto code) hashes) h).1

-- A use of a recovery code takes exactly one copy of its hash from the user's row when it is
-- accepted and nothing is written between its read and its write, and takes nothing when it is
-- refused; no other hash and no other user's row loses or
-- gains a copy.
pub consume_recovery_code-copies :
    (crypto : Crypto) (user : ℕ) (code : Text) (t : ℕ) (s : State) (k : Text) (other : ℕ)
    → Accounts crypto user code s k other (consume_recovery_code crypto user code t s s)
unfolding consume_recovery_code
consume_recovery_code-copies crypto user code t s k other =
    elim (Option-cases (secret_of (lookup user_of user s.totp))) [
      | inl off ↦ rw (off, consume_recovery_code) (refused crypto user code s k other)
      | inr (secret, on) ↦
          elim (Bool-cases
            (has_recovery_code crypto (hashes_of crypto (lookup user_of user s.totp)) code)) [
              | inl right ↦
                  rw (on, right, consume_recovery_code)
                    (taken crypto user code t s k other (
                      has-member crypto (hashes_of crypto (lookup user_of user s.totp)) code right))
              | inr wrong ↦
                  rw (on, wrong, consume_recovery_code) (refused crypto user code s k other)
            ]
    ]
