-- ===== src/Relay/Validate/Soundness.antt =====
-- lib/gov.js: what `validateVoteBody` lets through.
use sysnode_backend.Base.{
  ℕ, suc, ◌+◌, ◌/◌, ◌≡◌, ◌≤◌, refl, ap, inl, inr, true, false, not, Option, none, some, List, [],
  ◌∷◌, All, arith, ltb, length, Text, is_hex64, is_lower_hex64, is_lower_hex64-to_lower_case,
  to_lower_case, codes, Bool-cases, some_inj,
}
use mathlib.Core.Path.{subst}
use sysnode_backend.Js.{Js, str, arr, Items, nil, cons, hash_of}
use sysnode_backend.Results.{ok, >>=-eq-ok, require-ok, or_throw-ok, absurd_result, ok_inj}
use sysnode_backend.Relay.Visit.{Entry}
use sysnode_backend.Relay.Validate.{
  invalid_entry, invalid_entry_hash, invalid_entry_index, invalid_entry_sig, duplicate_entry,
  invalid_body, invalid_proposal_hash, invalid_vote_outcome, unsupported_vote_signal, invalid_time,
  time_in_future, time_too_old, max_vote_entries, vote_time_max_skew_ahead_s,
  vote_time_max_skew_behind_s, is_object, member_of, index_of_outpoint, same_outpoint, has_outpoint,
  Ballot, is_signature, signature_of, check_entry, check_entries, size, items_of_vote, natural,
  outcome_named, signal_named, validate_vote_body,
}

hash_of-is_hex64 : (j : Js) (s : Text) → hash_of j ≡ some s → is_hex64 s ≡ true
hash_of-is_hex64 j s h = ground arith

index_of_outpoint-le : (j : Js) (n : ℕ) → index_of_outpoint j ≡ some n → n ≤ 0xffffffff
index_of_outpoint-le j n h = ground arith

absurd_option {ℓ κ} : {A : Type ℓ} {B : Type κ} {a : A} → Path (Option A) none (some a) → B
absurd_option h = cc

-- Whatever order the entries are in, no two name the same outpoint.
abbrev pub Distinct : List Entry → Type 0
Distinct [] = Unit
Distinct (e ∷ es) = All (λ f. same_outpoint e f ≡ false) es × Distinct es

module _ (bytes_of : Text → List ℕ) (base64_of : List ℕ → Text) where
  -- A masternode's outpoint and a canonical signature of 65 bytes.
  pub record Good (e : Entry) : Type 0 where
    pub hash : is_lower_hex64 e.collateral_hash ≡ true
    pub index : e.collateral_index ≤ 0xffffffff
    pub signature : is_signature bytes_of base64_of e.vote_sig ≡ true

  signature_of-passes :
      (j : Js) (s : Text)
      → signature_of bytes_of base64_of j ≡ some s
      → is_signature bytes_of base64_of s ≡ true
  signature_of-passes (str x) s h = elim (Bool-cases (is_signature bytes_of base64_of x)) [
    | inl passes ↦
        subst (λ y. is_signature bytes_of base64_of y ≡ true) (some_inj (rw passes at h)) passes
    | inr fails ↦ absurd_option (rw fails at h)
  ]
  signature_of-passes _ s h = absurd_option h

  check_entry-Good :
      (i : ℕ) (seen : List Entry) (e : Js) (c : Entry)
      → check_entry bytes_of base64_of i seen e ≡ ok c
      → Good c × (has_outpoint c seen ≡ false)
  unfolding check_entry
  check_entry-Good i seen e c h =
      let (is_obj, h1) = require-ok (is_object e) (invalid_entry i) _ h in
      let (hash, has_hash, h2) =
        or_throw-ok (hash_of (member_of (codes "collateralHash") e)) (invalid_entry_hash i) _ h1 in
      let (index, has_index, h3) =
        or_throw-ok (index_of_outpoint (member_of (codes "collateralIndex") e))
          (invalid_entry_index i) _ h2 in
      let (sig, has_sig, h4) =
        or_throw-ok (signature_of bytes_of base64_of (member_of (codes "voteSig") e))
          (invalid_entry_sig i) _ h3 in
      let entry : Entry = record {
        collateral_hash = to_lower_case hash;
        collateral_index = index;
        vote_sig = sig;
      } in
      let (is_new, h5) =
        require-ok (not (has_outpoint entry seen)) (duplicate_entry i) (ok entry) h4 in
      subst (λ c. Good c × (has_outpoint c seen ≡ false)) (ok_inj h5)
        (
          record {
            hash =
                is_lower_hex64-to_lower_case hash
                  (hash_of-is_hex64 (member_of (codes "collateralHash") e) hash has_hash);
            index = index_of_outpoint-le (member_of (codes "collateralIndex") e) index has_index;
            signature = signature_of-passes (member_of (codes "voteSig") e) sig has_sig;
          },
          ground arith,
        )

  Outside : List Entry → List Entry → Type 0
  Outside seen es = All (λ f. has_outpoint f seen ≡ false) es

  Outside-cons :
      (e : Entry) (seen es : List Entry)
      → Outside (e ∷ seen) es
      → All (λ f. same_outpoint e f ≡ false) es × Outside seen es
  unfolding has_outpoint Outside
  Outside-cons e seen [] h = (tt, tt)
  Outside-cons e seen (f ∷ es) h =
      let rest = Outside-cons e seen es h.1 in ((ground arith, rest.0), (ground arith, rest.1))

  check_entries-Good :
      (i : ℕ) (seen : List Entry) (items : Items) (es : List Entry)
      → check_entries bytes_of base64_of i seen items ≡ ok es
      → All Good es × Distinct es × Outside seen es × (length es ≡ size items)
  unfolding check_entries Outside
  check_entries-Good i seen nil es h =
      subst (λ es. All Good es × Distinct es × Outside seen es × (length es ≡ 0)) (ok_inj h)
        (tt, tt, tt, refl)
  check_entries-Good i seen (cons e items) es h =
      let (entry, passes, h1) = >>=-eq-ok (check_entry bytes_of base64_of i seen e) _ h in
      let (entries, rest, h2) =
        >>=-eq-ok (check_entries bytes_of base64_of (i + 1) (entry ∷ seen) items) _ h1 in
      let (good, is_new) = check_entry-Good i seen e entry passes in
      let (all_good, distinct, outside, same) =
        check_entries-Good (i + 1) (entry ∷ seen) items entries rest in
      let (apart, older) = Outside-cons entry seen entries outside in
      subst (λ es. All Good es × Distinct es × Outside seen es × (length es ≡ suc (size items)))
        (ok_inj h2) ((good, all_good), (apart, distinct), (is_new, older), ap suc same)

  -- A ballot that can be relayed at a time.
  pub record Admissible (now_ms : ℕ) (b : Ballot) : Type 0 where
    pub proposal : is_lower_hex64 b.proposal_hash ≡ true
    pub not_ahead : b.time ≤ now_ms / 1000 + vote_time_max_skew_ahead_s
    pub not_behind : now_ms / 1000 ≤ b.time + vote_time_max_skew_behind_s
    pub some_entry : 1 ≤ length b.entries
    pub few_entries : length b.entries ≤ max_vote_entries
    pub good : All Good b.entries
    pub distinct : Distinct b.entries

  items_of_vote-size :
      (j : Js) (items : Items)
      → items_of_vote j ≡ ok items
      → (1 ≤ size items) × (size items ≤ max_vote_entries)
  unfolding items_of_vote
  items_of_vote-size (arr nil) items h = cc
  items_of_vote-size (arr (cons e es)) items h =
      elim (Bool-cases (ltb max_vote_entries (size (cons e es)))) [
        | inl many ↦ absurd_result (rw many at h)
        | inr few ↦
            subst (λ x. (1 ≤ size x) × (size x ≤ max_vote_entries)) (ok_inj (rw few at h))
              (omega arith, ground arith)
      ]
  items_of_vote-size _ items h = absurd_result h

  -- A body that `validateVoteBody` accepts becomes a ballot with lower-cased hashes, a time at most an
  -- hour ahead and at most two hours behind, 1 to 256 entries with valid outpoints and canonical
  -- signatures of 65 bytes, and no two entries for the same outpoint.
  pub validate_vote_body-Admissible :
      (body : Js) (now_ms : ℕ) (b : Ballot)
      → validate_vote_body bytes_of base64_of body now_ms ≡ ok b
      → Admissible now_ms b
  unfolding validate_vote_body
  validate_vote_body-Admissible body now_ms b h =
      let (is_obj, h1) = require-ok (is_object body) invalid_body _ h in
      let (hash, has_hash, h2) =
        or_throw-ok (hash_of (member_of (codes "proposalHash") body)) invalid_proposal_hash _ h1 in
      let (outcome, o, h3) =
        or_throw-ok (outcome_named (member_of (codes "voteOutcome") body)) invalid_vote_outcome _
          h2 in
      let (signal, g, h4) =
        or_throw-ok (signal_named (member_of (codes "voteSignal") body)) unsupported_vote_signal _
          h3 in
      let (time, t, h5) = or_throw-ok (natural (member_of (codes "time") body)) invalid_time _ h4 in
      let (ahead, h6) =
        require-ok (not (ltb (now_ms / 1000 + vote_time_max_skew_ahead_s) time)) time_in_future _
          h5 in
      let (behind, h7) =
        require-ok (not (ltb (time + vote_time_max_skew_behind_s) (now_ms / 1000))) time_too_old _
          h6 in
      let (items, some_items, h8) =
        >>=-eq-ok (items_of_vote (member_of (codes "entries") body)) _ h7 in
      let (entries, passes, h9) = >>=-eq-ok (check_entries bytes_of base64_of 0 [] items) _ h8 in
      let (good, distinct, outside, same) = check_entries-Good 0 [] items entries passes in
      let bounds = items_of_vote-size (member_of (codes "entries") body) items some_items in
      subst (Admissible now_ms) (ok_inj h9) record {
        proposal =
            is_lower_hex64-to_lower_case hash
              (hash_of-is_hex64 (member_of (codes "proposalHash") body) hash has_hash);
        not_ahead = ground arith;
        not_behind = ground arith;
        some_entry = omega (arith, same, bounds.0);
        few_entries = omega (arith, same, bounds.1);
        good = good;
        distinct = distinct;
      }
