-- ===== src/Accounts/Email.antt =====
-- lib/email.js. The Unicode normalization is a parameter.
use sysnode_backend.Base.{
  ℕ, Bool, false, not, ◌&&◌, ◌||◌, List, [], ◌∷◌, ◌==◌, leb, ltb, length, all, is_digit, is_space,
  trim, to_lower_case, Text,
}
use sysnode_backend.Js.{Js, str}
use sysnode_backend.Receipts.Parse.{split}

unfoldable pub normalize_email : (Text → Text) → Js → Text
unfolding trim to_lower_case
normalize_email nfkc (str s) = to_lower_case (trim (nfkc s))
normalize_email nfkc _ = []

abbrev pub is_letter_or_digit : ℕ → Bool
is_letter_or_digit c = (leb b'A' c && leb c b'Z') || (leb b'a' c && leb c b'z') || is_digit c

abbrev pub is_local_char : ℕ → Bool
is_local_char c =
    is_letter_or_digit c || c == b'.' || c == b'_' || c == b'%' || c == b'+' || c == b'-'

-- `[A-Za-z0-9-]*[A-Za-z0-9]$`
unfoldable pub is_label_rest : Text → Bool
is_label_rest [] = false
is_label_rest (c ∷ []) = is_letter_or_digit c
is_label_rest (c ∷ d ∷ s) = (is_letter_or_digit c || c == b'-') && is_label_rest (d ∷ s)

unfoldable pub is_label : Text → Bool
unfolding is_label_rest
is_label [] = false
is_label (c ∷ s) = is_letter_or_digit c && (length s == 0 || is_label_rest s)

-- The parts around the `@`, if there is exactly one.
abbrev pub is_address : List Text → Bool
is_address (local ∷ domain ∷ []) =
    ltb 0 (length local)
    && leb (length local) 64
    && leb 2 (length (split b'.' domain))
    && all is_label (split b'.' domain)
    && all is_local_char local
is_address _ = false

unfoldable pub is_valid_email_syntax : Text → Bool
unfolding split is_label is_space
is_valid_email_syntax value =
    ltb 0 (length value)
    && leb (length value) 254
    && all (λ c. not (is_space c)) value
    && is_address (split b'@' value)
