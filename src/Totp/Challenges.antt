-- ===== src/Totp/Challenges.antt =====
-- lib/totp.js: `createTotpRepo`. The stored list of recovery hashes is the list that was last written
-- as JSON, and a stored secret is not the empty text. Cryptography is a parameter.
pub mod Attempts
pub mod Recovery
use sysnode_backend.Base.{
  ℕ, zero, suc, ◌+◌, ◌-◌, Bool, true, false, not, ◌&&◌, ◌||◌, Option, none, some, List, [], ◌∷◌,
  ◌++◌, map, ◌==◌, ltb, leb, if◌then◌else◌, Text, same_text, length, all, filter, is_digit,
}
use sysnode_backend.Eq.{nat_eq, text_eq}
use sysnode_backend.Results.{Result, ok, err}
use sysnode_backend.Rows.{lookup, update_where, delete_where, count_where}
use sysnode_backend.Totp.Base32.{upper_char}

pub record TwoFactor : Type 0 where
  pub user_id : ℕ
  pub secret_enc : Option Text
  pub pending_secret_enc : Option Text
  pub recovery_hashes : List Text
  pub enabled : Bool
  pub created_at : ℕ
  pub updated_at : ℕ

pub record Challenge : Type 0 where
  pub token_hash : Text
  pub user_id : ℕ
  pub expires_at : ℕ
  pub attempts : ℕ
  pub created_at : ℕ

abbrev pub user_of : TwoFactor → ℕ
user_of r = r.user_id

abbrev pub hash_of_challenge : Challenge → Text
hash_of_challenge c = c.token_hash

pub record State : Type 0 where
  pub totp : List TwoFactor
  pub challenges : List Challenge

-- `crypto_failed` stands for what a decryption or a malformed secret throws.
pub data TotpError : Type 0 where
  totp_setup_not_started invalid_totp_code totp_not_enabled mfa_challenge_invalid crypto_failed :
      TotpError

-- The hash of tokens and recovery codes, the decryption of a stored secret and the check of a code.
pub record Crypto : Type 0 where
  pub hash_token : Text → Text
  pub hash_recovery : Text → Text
  pub encrypt_secret : Text → Text
  pub decrypt_secret : Text → Option Text
  pub verify_totp : Text → Text → ℕ → Option Bool

abbrev pub challenge_ttl_ms : ℕ
challenge_ttl_ms = 300000

abbrev pub max_challenge_attempts : ℕ
max_challenge_attempts = 5

abbrev pub is_upper : ℕ → Bool
is_upper c = leb b'A' c && leb c b'Z'

-- `toUpperCase` and the removal of all but letters and digits
abbrev pub normalize_recovery_code : Text → Text
normalize_recovery_code code = filter (λ c. is_upper c || is_digit c) (map upper_char code)

abbrev pub is_recovery_code : Text → Bool
is_recovery_code s = length s == 12 && all (λ c. is_upper c || is_digit c) s

abbrev pub member : Text → List Text → Bool
member h [] = false
member h (x ∷ xs) = same_text x h || member h xs

-- `hashes.splice(index, 1)` at the first equal hash
unfoldable pub remove_first : Text → List Text → List Text
remove_first h [] = []
remove_first h (x ∷ xs) = let rest = remove_first h xs in if same_text x h then xs else x ∷ rest

-- `row.enabled !== 1 || !row.secretEnc`, and the secret
abbrev pub secret_of : Option TwoFactor → Option Text
secret_of none = none
secret_of (some r) = if r.enabled then r.secret_enc else none

abbrev pub present : Option Text → Bool
present none = false
present (some []) = false
present (some (c ∷ s)) = true

abbrev pub is_given : Option Text → Bool
is_given none = false
is_given (some s) = true

abbrev pub text_or_empty : Option Text → Text
text_or_empty none = []
text_or_empty (some s) = s

pub record Accepted : Type 0 where
  pub user_id : ℕ
  pub recovery_code_used : Bool
  pub recovery_code : Option Text

abbrev pub without : Text → State → State
without h s = record s { challenges = delete_where (λ c. same_text c.token_hash h) s.challenges }

abbrev pub bump : Challenge → Challenge
bump c = record c { attempts = c.attempts + 1 }

abbrev pub bumped : Text → State → State
bumped h s = record s {
  challenges = update_where (λ c. same_text c.token_hash h) bump s.challenges;
}

module _ (crypto : Crypto) where
  open crypto use {hash_token, hash_recovery, encrypt_secret, decrypt_secret, verify_totp}

  unfoldable pub has_recovery_code : List Text → Text → Bool
  has_recovery_code hashes code =
      is_recovery_code (normalize_recovery_code code)
      && member (hash_recovery (normalize_recovery_code code)) hashes

  unfoldable pub begin_setup : ℕ → Text → ℕ → State → State
  begin_setup user secret t s = elim (lookup user_of user s.totp) [
    | none ↦ record s {
      totp =
          s.totp
          ++ record {
            user_id = user;
            secret_enc = none;
            pending_secret_enc = some (encrypt_secret secret);
            recovery_hashes = [];
            enabled = false;
            created_at = t;
            updated_at = t;
          }
            ∷ [];
    }
    | some r ↦ record s {
      totp =
          update_where (λ x. x.user_id == user)
            (λ x. record x { pending_secret_enc = some (encrypt_secret secret); updated_at = t })
            s.totp;
    }
  ]

  abbrev pub enabled_with : List Text → ℕ → TwoFactor → TwoFactor
  enabled_with codes t r = record r {
    secret_enc = r.pending_secret_enc;
    pending_secret_enc = none;
    recovery_hashes = map (λ c. hash_recovery (normalize_recovery_code c)) codes;
    enabled = true;
    updated_at = t;
  }

  -- What the check of a code means for a call: a throw, a refusal, or going on.
  abbrev pub on_check {ℓ} : {A : Type ℓ} → Option Bool → A → A → A → A
  on_check none thrown refused accepted = thrown
  on_check (some false) thrown refused accepted = refused
  on_check (some true) thrown refused accepted = accepted

  abbrev pub check_with : Option Text → Text → ℕ → Option Bool
  check_with none code t = none
  check_with (some secret) code t = verify_totp secret code t

  -- `user_id = ? AND pending_secret_enc IS NOT NULL`
  abbrev pub is_pending : ℕ → TwoFactor → Bool
  is_pending user r = r.user_id == user && is_given r.pending_secret_enc

  -- The UPDATE, and the test of the number of rows that it changed.
  abbrev pub enable : ℕ → List Text → ℕ → State → State × Result TotpError (List Text)
  enable user codes t s = (
    record s { totp = update_where (is_pending user) (enabled_with codes t) s.totp },
    if count_where (is_pending user) s.totp == 1 then ok codes else err totp_setup_not_started,
  )

  -- `generateRecoveryCodes` is the list `codes`. The row is read in `before`; the UPDATE finds `s`.
  unfoldable pub enable_setup :
      ℕ → Text → List Text → ℕ → (before at_write : State) → State × Result TotpError (List Text)
  enable_setup user code codes t before s = elim (lookup user_of user before.totp) [
    | none ↦ (s, err totp_setup_not_started)
    | some r ↦ elim r.pending_secret_enc [
      | none ↦ (s, err totp_setup_not_started)
      | some pending ↦
          on_check (check_with (decrypt_secret pending) code t) (s, err crypto_failed)
            (s, err invalid_totp_code) (enable user codes t s)
    ]
  ]

  -- The three clocks are read one after the other; here they agree.
  unfoldable pub create_challenge : ℕ → Text → ℕ → State → State
  create_challenge user token t s =
      let live = delete_where (λ (c : Challenge). ltb c.expires_at t) s.challenges in
      let others = delete_where (λ (c : Challenge). c.user_id == user) live in
      record s {
        challenges =
            others
            ++ record {
              token_hash = hash_token token;
              user_id = user;
              expires_at = t + challenge_ttl_ms;
              attempts = 0;
              created_at = t;
            }
              ∷ [];
      }

  -- The code, if there is one, else the recovery code; `none` is a throw.
  unfoldable pub check_factor : Text → List Text → Option Text → Option Text → ℕ → Option Bool
  unfolding has_recovery_code
  check_factor secret_enc hashes code recovery t =
      if present code
      then check_with (decrypt_secret secret_enc) (text_or_empty code) t
      else some (present recovery && has_recovery_code hashes (text_or_empty recovery))

  abbrev pub hashes_of : Option TwoFactor → List Text
  hashes_of none = []
  hashes_of (some r) = r.recovery_hashes

  abbrev pub accepted : ℕ → Option Text → Option Text → Accepted
  accepted user code recovery =
      if present code
      then record { user_id = user; recovery_code_used = false; recovery_code = none }
      else record { user_id = user; recovery_code_used = true; recovery_code = recovery }

  -- A live challenge with attempts left. All rows are read in `before`; the one write finds `s`.
  unfoldable pub try_challenge :
      Text
      → Challenge
      → Option Text
      → Option Text
      → ℕ
      → (before at_write : State) → State × Result TotpError Accepted
  try_challenge h ch code recovery t before s =
      elim (secret_of (lookup user_of ch.user_id before.totp)) [
        | none ↦ (without h s, err mfa_challenge_invalid)
        | some secret_enc ↦
            on_check
              (check_factor secret_enc (hashes_of (lookup user_of ch.user_id before.totp)) code
                recovery t)
              (s, err crypto_failed) (bumped h s, err invalid_totp_code)
              (without h s, ok (accepted ch.user_id code recovery))
      ]

  unfoldable pub verify_challenge :
      Text
      → Option Text
      → Option Text
      → ℕ
      → (before at_write : State) → State × Result TotpError Accepted
  verify_challenge token code recovery t before s =
      let h : Text = hash_token token in
      elim (lookup hash_of_challenge h before.challenges) [
        | none ↦ (s, err mfa_challenge_invalid)
        | some ch ↦
            if ltb ch.expires_at t || leb max_challenge_attempts ch.attempts
            then (without h s, err mfa_challenge_invalid)
            else try_challenge h ch code recovery t before s
      ]

  abbrev pub spend : List Text → ℕ → TwoFactor → TwoFactor
  spend left t r = record r { recovery_hashes = left; updated_at = t }

  -- `consumeUserRecoveryCode`: the UPDATE of `s` stores what is left of the hashes read in `before`.
  unfoldable pub consume_recovery_code : ℕ → Text → ℕ → (before at_write : State) → State × Bool
  unfolding has_recovery_code
  consume_recovery_code user code t before s = elim (secret_of (lookup user_of user before.totp)) [
    | none ↦ (s, false)
    | some secret ↦
        let hashes : List Text = hashes_of (lookup user_of user before.totp) in
        if has_recovery_code hashes code
        then (
          record s {
            totp =
                update_where (λ x. x.user_id == user)
                  (spend (remove_first (hash_recovery (normalize_recovery_code code)) hashes) t)
                  s.totp;
          },
          true,
        )
        else (s, false)
  ]

  unfoldable pub verify_user_code : ℕ → Text → ℕ → State → Result TotpError Bool
  verify_user_code user code t s = elim (secret_of (lookup user_of user s.totp)) [
    | none ↦ err totp_not_enabled
    | some secret_enc ↦
        on_check (check_with (decrypt_secret secret_enc) code t) (err crypto_failed)
          (err invalid_totp_code) (ok true)
  ]

unfoldable pub disable : ℕ → State → State
disable user s = record s { totp = delete_where (λ r. r.user_id == user) s.totp }
