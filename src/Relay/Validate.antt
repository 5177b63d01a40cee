-- ===== src/Relay/Validate.antt =====
-- lib/gov.js: the checks of the bodies of requests.
-- Buffer's base64 is a parameter.
pub mod Soundness
pub mod Errors
pub mod Tests
use sysnode_backend.Base.{
  ℕ, zero, suc, ◌+◌, ◌-◌, ◌/◌, Bool, true, false, not, ◌&&◌, ◌||◌, Option, none, some, List, [],
  ◌∷◌, ◌==◌, ltb, leb, length, if◌then◌else◌, Text, same_text, codes, is_hex64, is_digit,
  to_lower_case, trim, ℤ, pos, negsuc,
}
use sysnode_backend.Js.{
  Js, undefined, str, int, arr, obj, null, Items, nil, cons, property, hash_of,
}
use sysnode_backend.Results.{Result, ok, err, ◌>>=◌, ◌>>◌, require, or_throw}
use sysnode_backend.Receipts.Types.{Outcome, vote_yes, vote_no, vote_abstain, Signal, funding}
use sysnode_backend.Relay.Visit.{Entry}

abbrev pub vote_sig_bytes : ℕ
vote_sig_bytes = 65

abbrev pub max_vote_entries : ℕ
max_vote_entries = 256

abbrev pub max_lookup_addresses : ℕ
max_lookup_addresses = 512

abbrev pub vote_time_max_skew_ahead_s : ℕ
vote_time_max_skew_ahead_s = 3600

abbrev pub vote_time_max_skew_behind_s : ℕ
vote_time_max_skew_behind_s = 7200

pub data VoteError : Type 0 where
  invalid_body invalid_proposal_hash invalid_vote_outcome unsupported_vote_signal invalid_time
        time_in_future time_too_old no_entries too_many_entries :
      VoteError
  invalid_entry invalid_entry_hash invalid_entry_index invalid_entry_sig duplicate_entry :
      ℕ → VoteError

pub data LookupError : Type 0 where
  invalid_lookup too_many_addresses invalid_address : LookupError

abbrev pub is_object : Js → Bool
is_object (arr _) = true
is_object (obj _) = true
is_object _ = false

abbrev pub member_of : Text → Js → Js
member_of k (obj fs) = property k fs
member_of _ _ = undefined

abbrev pub outcome_named : Js → Option Outcome
outcome_named (str s) =
    if same_text s (codes "yes")
    then some vote_yes
    else if same_text s (codes "no")
    then some vote_no
    else if same_text s (codes "abstain")
    then some vote_abstain
    else none
outcome_named _ = none

abbrev pub signal_named : Js → Option Signal
signal_named (str s) = if same_text s (codes "funding") then some funding else none
signal_named _ = none

abbrev pub natural : Js → Option ℕ
natural (int (pos n)) = some n
natural _ = none

abbrev pub is_base64_char : ℕ → Bool
is_base64_char c =
    (leb b'A' c && leb c b'Z') || (leb b'a' c && leb c b'z') || is_digit c || c == b'+' || c == b'/'

-- `={0,2}$`
abbrev pub is_padding : Text → Bool
is_padding s =
    leb (length s) 2
    && same_text s
        (if length s == 2 then b'=' ∷ b'=' ∷ [] else if length s == 1 then b'=' ∷ [] else [])

-- `[A-Za-z0-9+/]*={0,2}$`
unfoldable pub is_base64_rest : Text → Bool
is_base64_rest [] = true
is_base64_rest (c ∷ s) =
    let rest = is_base64_rest s in if is_base64_char c then rest else is_padding (c ∷ s)

unfoldable pub is_base64 : Text → Bool
unfolding is_base64_rest
is_base64 [] = false
is_base64 (c ∷ s) = is_base64_char c && is_base64_rest s

abbrev pub index_of_outpoint : Js → Option ℕ
index_of_outpoint (int (pos n)) = if leb n 0xffffffff then some n else none
index_of_outpoint _ = none

abbrev pub same_outpoint : Entry → Entry → Bool
same_outpoint a b =
    same_text a.collateral_hash b.collateral_hash && a.collateral_index == b.collateral_index

-- `dupKey.has(k)`
unfoldable pub has_outpoint : Entry → List Entry → Bool
has_outpoint e [] = false
has_outpoint e (x ∷ xs) = same_outpoint x e || has_outpoint e xs

-- An accepted body.
pub record Ballot : Type 0 where
  pub proposal_hash : Text
  pub vote_outcome : Outcome
  pub vote_signal : Signal
  pub time : ℕ
  pub entries : List Entry

abbrev pub size : Items → ℕ
size nil = 0
size (cons _ es) = suc (size es)

unfoldable pub items_of_vote : Js → Result VoteError Items
items_of_vote (arr nil) = err no_entries
items_of_vote (arr (cons e es)) =
    if ltb max_vote_entries (size (cons e es)) then err too_many_entries else ok (cons e es)
items_of_vote _ = err no_entries

module _ (bytes_of : Text → List ℕ) (base64_of : List ℕ → Text) where
  abbrev pub is_signature : Text → Bool
  is_signature s =
      is_base64 s && length (bytes_of s) == vote_sig_bytes && same_text (base64_of (bytes_of s)) s

  abbrev pub signature_of : Js → Option Text
  signature_of (str s) = if is_signature s then some s else none
  signature_of _ = none

  -- The entry at an index, with the entries accepted before it.
  unfoldable pub check_entry : ℕ → List Entry → Js → Result VoteError Entry
  unfolding has_outpoint is_base64
  check_entry i seen e = do
    require (is_object e) (invalid_entry i)
    hash ← or_throw (hash_of (member_of (codes "collateralHash") e)) (invalid_entry_hash i)
    index ←
        or_throw (index_of_outpoint (member_of (codes "collateralIndex") e)) (invalid_entry_index i)
    sig ← or_throw (signature_of (member_of (codes "voteSig") e)) (invalid_entry_sig i)
    let entry : Entry = record {
      collateral_hash = to_lower_case hash;
      collateral_index = index;
      vote_sig = sig;
    }
    require (not (has_outpoint entry seen)) (duplicate_entry i)
    ok entry

  unfoldable pub check_entries : ℕ → List Entry → Items → Result VoteError (List Entry)
  unfolding check_entry
  check_entries i seen nil = ok []
  check_entries i seen (cons e es) = do
    entry ← check_entry i seen e
    entries ← check_entries (i + 1) (entry ∷ seen) es
    ok (entry ∷ entries)

  unfoldable pub validate_vote_body : Js → ℕ → Result VoteError Ballot
  unfolding check_entries items_of_vote
  validate_vote_body body now_ms = do
    require (is_object body) invalid_body
    hash ← or_throw (hash_of (member_of (codes "proposalHash") body)) invalid_proposal_hash
    outcome ← or_throw (outcome_named (member_of (codes "voteOutcome") body)) invalid_vote_outcome
    signal ← or_throw (signal_named (member_of (codes "voteSignal") body)) unsupported_vote_signal
    time ← or_throw (natural (member_of (codes "time") body)) invalid_time
    require (not (ltb (now_ms / 1000 + vote_time_max_skew_ahead_s) time)) time_in_future
    require (not (ltb (time + vote_time_max_skew_behind_s) (now_ms / 1000))) time_too_old
    items ← items_of_vote (member_of (codes "entries") body)
    entries ← check_entries 0 [] items
    ok record {
      proposal_hash = to_lower_case hash;
      vote_outcome = outcome;
      vote_signal = signal;
      time = time;
      entries = entries;
    }
