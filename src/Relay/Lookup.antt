-- ===== src/Relay/Lookup.antt =====
-- lib/gov.js: the check of a lookup's body, and the search of masternodes by voting address.
use sysnode_backend.Base.{
  Bool, true, false, not, ◌&&◌, ◌||◌, Option, none, some, List, [], ◌∷◌, ◌==◌, ltb, length,
  if◌then◌else◌, Text, same_text, codes, to_lower_case, trim, ℤ,
}
use sysnode_backend.Js.{Js, str, int, arr, Items, nil, cons, hash_of}
use sysnode_backend.Results.{Result, ok, err, ◌>>=◌, ◌>>◌, require}
use sysnode_backend.Relay.Validate.{
  LookupError, invalid_lookup, too_many_addresses, invalid_address, is_object, member_of,
  max_lookup_addresses, size,
}

-- `votingAddresses` with white space stripped.
unfoldable pub clean_addresses : Items → Result LookupError (List Text)
clean_addresses nil = ok []
clean_addresses (cons (str s) xs) =
    require (not (length s == 0 || ltb 128 (length s))) invalid_address
    >> clean_addresses xs
    >>= λ rest. ok (trim s ∷ rest)
clean_addresses (cons _ xs) = err invalid_address

unfoldable pub validate_lookup_body : Js → Result LookupError (List Text)
unfolding clean_addresses
validate_lookup_body body =
    require (is_object body) invalid_lookup >> (elim (member_of (codes "votingAddresses") body) [
      | arr xs ↦
          require (not (ltb max_lookup_addresses (size xs))) too_many_addresses
          >> clean_addresses xs
      | _ ↦ err invalid_lookup
    ])

pub record Match : Type 0 where
  pub votingaddress : Text
  pub pro_tx_hash : Text
  pub collateral_hash : Option Text
  pub collateral_index : Option ℤ
  pub status : Text
  pub address : Text
  pub payee : Text

abbrev pub text_or : Text → Js → Text
text_or other (str s) = s
text_or other _ = other

abbrev pub text_or_null : Js → Option Text
text_or_null (str s) = some s
text_or_null _ = none

abbrev pub integer_or_null : Js → Option ℤ
integer_or_null (int n) = some n
integer_or_null _ = none

unfoldable pub project_match : Js → Match
project_match mn = record {
  votingaddress = text_or [] (member_of (codes "votingaddress") mn);
  pro_tx_hash = text_or [] (member_of (codes "proTxHash") mn);
  collateral_hash = text_or_null (member_of (codes "collateralHash") mn);
  collateral_index = integer_or_null (member_of (codes "collateralIndex") mn);
  status = text_or (codes "UNKNOWN") (member_of (codes "status") mn);
  address = text_or [] (member_of (codes "address") mn);
  payee = text_or [] (member_of (codes "payee") mn);
}

abbrev pub is_some {ℓ} : {A : Type ℓ} → Option A → Bool
is_some none = false
is_some (some a) = true

unfoldable pub has_address : Text → List Text → Bool
has_address a [] = false
has_address a (x ∷ xs) = same_text (to_lower_case x) a || has_address a xs

abbrev pub is_wanted : List Text → Js → Bool
is_wanted addresses (str s) = has_address (to_lower_case s) addresses
is_wanted addresses _ = false

-- A wanted voting address, and an outpoint that a vote can name.
unfoldable pub is_match : List Text → Js → Bool
unfolding has_address
is_match addresses mn =
    is_wanted addresses (member_of (codes "votingaddress") mn)
    && is_some (hash_of (member_of (codes "collateralHash") mn))
    && is_some (integer_or_null (member_of (codes "collateralIndex") mn))

unfoldable pub lookup_matches : Items → List Text → List Match
unfolding is_match project_match
lookup_matches nil addresses = []
lookup_matches (cons mn mns) addresses =
    let rest = lookup_matches mns addresses in
    if is_match addresses mn then project_match mn ∷ rest else rest
