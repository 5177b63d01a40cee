-- ===== src/Relay/Validate/Tests.antt =====
-- lib/gov.js: `validateVoteBody` on small bodies, with signatures of 65 equal characters that stand for
-- their own bytes.
use sysnode_backend.Base.{◌≡◌, refl, [], ◌∷◌, Text, codes, is_hex64, to_lower_case, pos}
use sysnode_backend.Js.{Js, str, int, arr, obj, field, end, Items, nil, cons, property}
use sysnode_backend.Results.{ok, err}
use sysnode_backend.Receipts.Types.{vote_yes, funding}
use sysnode_backend.Receipts.Tests.{hash_a, hash_b}
use sysnode_backend.Relay.Visit.{Entry}
use sysnode_backend.Relay.Validate.{Ballot, duplicate_entry, size, validate_vote_body}
use sysnode_backend.Relay.Validate.Soundness.{Admissible, validate_vote_body-Admissible}
use sysnode_backend.Relay.Validate.Errors.{entries_of, Refused, validate_vote_body-err}

abbrev pub plain : Text → Text
plain s = s

abbrev pub signature : Text
signature = codes "AAAAAAAAAAAAAAAAAAAAAAAAAAAAAAAAAAAAAAAAAAAAAAAAAAAAAAAAAAAAAAAAA"

abbrev pub entry_body : Js
entry_body = obj (
    field (codes "collateralHash") (str hash_a)
      (field (codes "collateralIndex") (int (pos 1)) (field (codes "voteSig") (str signature) end)))

abbrev pub body : Items → Js
body entries = obj (
    field (codes "proposalHash") (str hash_b) (
      field (codes "voteOutcome") (str (codes "yes")) (
        field (codes "voteSignal") (str (codes "funding"))
          (field (codes "time") (int (pos 1000)) (field (codes "entries") (arr entries) end)))))

abbrev pub entry : Entry
entry = record { collateral_hash = hash_a; collateral_index = 1; vote_sig = signature }

abbrev pub ballot : Ballot
ballot = record {
  proposal_hash = hash_b;
  vote_outcome = vote_yes;
  vote_signal = funding;
  time = 1000;
  entries = entry ∷ [];
}

accepts_one : validate_vote_body plain plain (body (cons entry_body nil)) 1000000 ≡ ok ballot
unfolding validate_vote_body property is_hex64 to_lower_case
accepts_one = refl

validate_vote_body-Admissible_example : Admissible plain plain 1000000 ballot
validate_vote_body-Admissible_example =
    validate_vote_body-Admissible plain plain (body (cons entry_body nil)) 1000000 ballot
      accepts_one

abbrev pub two_equal : Items
two_equal = cons entry_body (cons entry_body nil)

refuses_twice : validate_vote_body plain plain (body two_equal) 1000000 ≡ err (duplicate_entry 1)
unfolding validate_vote_body property is_hex64 to_lower_case
refuses_twice = refl

validate_vote_body-err_example :
    (items : Items) × (entries_of plain plain (body two_equal) ≡ ok items)
    × (r : Refused plain plain 0 [] items (duplicate_entry 1)) × (size r.before ≡ 1)
validate_vote_body-err_example =
    validate_vote_body-err plain plain (body two_equal) 1000000 (duplicate_entry 1) 1 refuses_twice
      refl
