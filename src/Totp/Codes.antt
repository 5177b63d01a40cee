-- ===== src/Totp/Codes.antt =====
-- lib/totp.js: one-time codes. The HMAC is a parameter: the bytes of the digest for a key and a
-- counter.
use mathlib.Core.Option
use sysnode_backend.Base.{
  ℕ, zero, suc, ◌+◌, ◌-◌, ◌*◌, ◌/◌, ◌%◌, ◌^◌, Bool, false, not, ◌&&◌, ◌||◌, Option, none, some,
  List, [], ◌∷◌, ◌++◌, ◌==◌, if◌then◌else◌, Text, length, all, filter, is_digit, is_space,
  same_text,
}
use sysnode_backend.Receipts.Parse.Digits.{print_nat}
use sysnode_backend.Totp.Base32.{base32_decode}

-- `buf[i]` in a 32-bit expression: a missing byte is 0.
abbrev pub byte_at : List ℕ → ℕ → ℕ
byte_at [] i = 0
byte_at (x ∷ xs) zero = x
byte_at (x ∷ xs) (suc i) = byte_at xs i

abbrev pub last_byte : List ℕ → ℕ
last_byte xs = byte_at xs (length xs - 1)

-- The 31-bit number at the offset that the last byte names.
unfoldable pub truncated : List ℕ → ℕ
truncated hmac =
    let offset : ℕ = last_byte hmac % 16 in
    byte_at hmac offset % 128 * 2 ^ 24
    + byte_at hmac (offset + 1) % 256 * 2 ^ 16
    + byte_at hmac (offset + 2) % 256 * 2 ^ 8
    + byte_at hmac (offset + 3) % 256

abbrev pub zeros : ℕ → Text
zeros zero = []
zeros (suc n) = b'0' ∷ zeros n

-- `.padStart(n, '0')`
unfoldable pub pad_start : ℕ → Text → Text
pad_start n s = zeros (n - length s) ++ s

abbrev pub normalize_code : Text → Text
normalize_code code = filter (λ c. not (is_space c)) code

abbrev pub is_code : Text → Bool
is_code token = length token == 6 && all is_digit token

module _ (hmac_sha1 : List ℕ → ℕ → List ℕ) where
  -- `none`: the secret is no base32 text.
  unfoldable pub generate_totp_code : Text → ℕ → Option Text
  unfolding truncated pad_start
  generate_totp_code secret time_ms =
      Option.map
        (λ key. pad_start 6 (print_nat (truncated (hmac_sha1 key (time_ms / 30000)) % 1000000)))
        (base32_decode secret)

  abbrev pub code_matches : Text → Option Text → Bool
  code_matches token none = false
  code_matches token (some code) = same_text token code

  -- The code of this step and its two neighbours; `none` is a throw. The clock is later than the
  -- first step of 1970.
  unfoldable pub verify_totp : Text → Text → ℕ → Option Bool
  verify_totp secret code time_ms =
      if is_code (normalize_code code)
      then elim (base32_decode secret) [
        | none ↦ none
        | some key ↦ some (
            code_matches (normalize_code code) (generate_totp_code secret (time_ms - 30000))
            || code_matches (normalize_code code) (generate_totp_code secret time_ms)
            || code_matches (normalize_code code) (generate_totp_code secret (time_ms + 30000)))
      ]
      else some false
