-- ===== src/Totp/Tests.antt =====
-- lib/totp.js: runs of the model on small inputs, with the identity for every hash and cipher.
use sysnode_backend.Base.{◌≡◌, ◌≤◌, refl, true, none, some, [], ◌∷◌, arith, codes, same_text}
use sysnode_backend.Eq.{text_eq}
use sysnode_backend.Rows.{lookup, update_where, delete_where}
use sysnode_backend.Totp.Base32.{base32_encode, base32_decode}
use sysnode_backend.Totp.Base32.Groups.{base32_decode-base32_encode}
use sysnode_backend.Totp.Challenges.{
  State, TwoFactor, Challenge, Crypto, verify_challenge, try_challenge, check_factor,
  consume_recovery_code,
}
use sysnode_backend.Totp.Challenges.Attempts.{Guess, answered, answered-IsBounded}
use sysnode_backend.Totp.Challenges.Recovery.{Accounts, consume_recovery_code-copies}

encoded : base32_encode (72 ∷ 105 ∷ 33 ∷ []) ≡ codes "JBUSC"
unfolding base32_encode
encoded = refl

decoded : base32_decode (codes "jbusc===") ≡ some (72 ∷ 105 ∷ 33 ∷ [])
unfolding base32_decode
decoded = refl

base32_decode-base32_encode_example :
    base32_decode (base32_encode (72 ∷ 105 ∷ 33 ∷ [])) ≡ some (72 ∷ 105 ∷ 33 ∷ [])
base32_decode-base32_encode_example =
    base32_decode-base32_encode (72 ∷ 105 ∷ 33 ∷ []) (omega arith, (omega arith, (omega arith, tt)))

-- The right code is the secret.
abbrev pub plain : Crypto
plain = record {
  hash_token = λ t. t;
  hash_recovery = λ t. t;
  encrypt_secret = λ t. t;
  decrypt_secret = some;
  verify_totp = λ secret code t. some (same_text secret code);
}

abbrev pub enabled_user : TwoFactor
enabled_user = record {
  user_id = 7;
  secret_enc = some (codes "123456");
  pending_secret_enc = none;
  recovery_hashes = codes "AAAABBBBCCCC" ∷ codes "DDDDEEEEFFFF" ∷ [];
  enabled = true;
  created_at = 1;
  updated_at = 1;
}

abbrev pub open_challenge : Challenge
open_challenge = record {
  token_hash = codes "token";
  user_id = 7;
  expires_at = 300100;
  attempts = 4;
  created_at = 100;
}

abbrev pub one_open : State
one_open = record { totp = enabled_user ∷ []; challenges = open_challenge ∷ [] }

abbrev pub wrong_guess : Guess
wrong_guess = record { code = some (codes "654321"); recovery = none; now = 200 }

abbrev pub right_guess : Guess
right_guess = record { code = some (codes "123456"); recovery = none; now = 200 }

-- After the fifth wrong code the right one is of no use.
fifth_is_last : answered plain (codes "token") (wrong_guess ∷ right_guess ∷ []) one_open ≡ 1
unfolding answered verify_challenge try_challenge check_factor lookup update_where delete_where
fifth_is_last = refl

fourth_is_right : answered plain (codes "token") (right_guess ∷ right_guess ∷ []) one_open ≡ 1
unfolding answered verify_challenge try_challenge check_factor lookup update_where delete_where
fourth_is_right = refl

answered-IsBounded_example :
    answered plain (codes "token") (wrong_guess ∷ right_guess ∷ []) one_open ≤ 5
unfolding lookup
answered-IsBounded_example =
    answered-IsBounded plain (codes "token") (wrong_guess ∷ right_guess ∷ []) one_open (refl, tt)

used : (consume_recovery_code plain 7 (codes "aaaa-bbbb-cccc") 200 one_open one_open).1 ≡ true
unfolding consume_recovery_code lookup
used = refl

consume_recovery_code-copies_example :
    Accounts plain 7
      (codes "aaaa-bbbb-cccc")
      one_open
      (codes "AAAABBBBCCCC")
      7
      (consume_recovery_code plain 7 (codes "aaaa-bbbb-cccc") 200 one_open one_open)
consume_recovery_code-copies_example =
    consume_recovery_code-copies plain 7 (codes "aaaa-bbbb-cccc") 200 one_open
      (codes "AAAABBBBCCCC") 7
