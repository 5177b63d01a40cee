-- ===== src/Relay/Validate/Errors.antt =====
-- lib/gov.js: which entry `validateVoteBody` refuses.
use sysnode_backend.Base.{
  ℕ, ◌+◌, ◌≡◌, refl, sym, ap, ◌∙◌, inl, inr, Bool, true, false, Option, none, some, List, [], ◌∷◌,
  arith, Text, codes, some_inj, not, ltb, ◌/◌, to_lower_case,
}
use sysnode_backend.Js.{Js, Items, nil, cons, hash_of}
use sysnode_backend.Results.{Result, ok, err, ◌>>=◌, ◌>>◌, require, or_throw, Result-cases, err_inj}
use sysnode_backend.Relay.Visit.{Entry}
use sysnode_backend.Relay.Validate.{
  VoteError, invalid_body, invalid_proposal_hash, invalid_vote_outcome, unsupported_vote_signal,
  invalid_time, time_in_future, time_too_old, invalid_entry, invalid_entry_hash,
  invalid_entry_index, invalid_entry_sig, duplicate_entry, Ballot, is_object, member_of,
  outcome_named, signal_named, natural, index_of_outpoint, signature_of, size, items_of_vote,
  has_outpoint, vote_time_max_skew_ahead_s, vote_time_max_skew_behind_s, check_entry, check_entries,
  validate_vote_body,
}

-- The list of entries in the order in which they are looked up.
abbrev pub reversed_onto : List Entry → List Entry → List Entry
reversed_onto seen [] = seen
reversed_onto seen (e ∷ es) = reversed_onto (e ∷ seen) es

abbrev pub append_items : Items → Items → Items
append_items nil ys = ys
append_items (cons x xs) ys = cons x (append_items xs ys)

-- The index that an error carries.
abbrev pub index_of_error : VoteError → Option ℕ
index_of_error (invalid_entry i) = some i
index_of_error (invalid_entry_hash i) = some i
index_of_error (invalid_entry_index i) = some i
index_of_error (invalid_entry_sig i) = some i
index_of_error (duplicate_entry i) = some i
index_of_error _ = none

-- If the result is an error, it carries the index.
abbrev AtIndex {ℓ} : {A : Type ℓ} → ℕ → Result VoteError A → Type ℓ
AtIndex i r = (d : VoteError) → r ≡ err d → index_of_error d ≡ some i

items_of_vote-none : (x : Js) (d : VoteError) → items_of_vote x ≡ err d → index_of_error d ≡ none
unfolding items_of_vote
items_of_vote-none x d h = ground arith

module _ {ℓ} {A : Type ℓ} {i : ℕ} where
  require-AtIndex :
      (b : Bool) (d : VoteError) (m : Result VoteError A)
      → index_of_error d ≡ some i
      → AtIndex i m
      → AtIndex i (require b d >> m)
  require-AtIndex true d m e h = h
  require-AtIndex false d m e h = λ k same. rw (← err_inj same) e

  or_throw-AtIndex {κ} :
      {B : Type κ} (o : Option B) (d : VoteError) (f : B → Result VoteError A)
      → index_of_error d ≡ some i
      → ((b : B) → AtIndex i (f b))
      → AtIndex i (or_throw o d >>= f)
  or_throw-AtIndex (some b) d f e h = h b
  or_throw-AtIndex none d f e h = λ k same. rw (← err_inj same) e

  -- An error with an index is not the one of a check without: it comes from a later check.
  module _ {e : VoteError} where
    require-later :
        (b : Bool) (d : VoteError) (m : Result VoteError A)
        → index_of_error d ≡ none
        → index_of_error e ≡ some i
        → (require b d >> m) ≡ err e
        → m ≡ err e
    require-later true d m other at h = h
    require-later false d m other at h = cc (err_inj h)

    or_throw-later {κ} :
        {B : Type κ} (o : Option B) (d : VoteError) (f : B → Result VoteError A)
        → index_of_error d ≡ none
        → index_of_error e ≡ some i
        → (or_throw o d >>= f) ≡ err e
        → (b : B) × (f b ≡ err e)
    or_throw-later (some b) d f other at h = (b, h)
    or_throw-later none d f other at h = cc (err_inj h)

    items_of_vote-later :
        (x : Js) (f : Items → Result VoteError A)
        → index_of_error e ≡ some i
        → (items_of_vote x >>= f) ≡ err e
        → (items : Items) × (items_of_vote x ≡ ok items) × (f items ≡ err e)
    items_of_vote-later x f at h = elim (Result-cases (items_of_vote x)) [
      | inr (items, fine) ↦ (items, fine, rw fine at h)
      | inl (d, fails) ↦ cc (err_inj (rw fails at h), items_of_vote-none x d fails)
    ]

module _ (bytes_of : Text → List ℕ) (base64_of : List ℕ → Text) where
  later_error :
      (r : Result VoteError (List Entry)) (entry : Entry) {e : VoteError}
      → (r >>= λ es. ok (entry ∷ es)) ≡ err e
      → r ≡ err e
  later_error (ok es) entry h = cc
  later_error (err d) entry h = ap err (err_inj h)

  check_entry-index :
      (i : ℕ) (seen : List Entry) (x : Js) → AtIndex i (check_entry bytes_of base64_of i seen x)
  unfolding check_entry
  check_entry-index i seen x = require-AtIndex (is_object x) (invalid_entry i) _ refl (
      or_throw-AtIndex (hash_of (member_of (codes "collateralHash") x)) (invalid_entry_hash i) _
        refl
        λ hash.
          or_throw-AtIndex (index_of_outpoint (member_of (codes "collateralIndex") x))
            (invalid_entry_index i) _ refl
            λ index.
              or_throw-AtIndex (signature_of bytes_of base64_of (member_of (codes "voteSig") x))
                (invalid_entry_sig i) _ refl
                λ sig.
                  let entry : Entry = record {
                    collateral_hash = to_lower_case hash;
                    collateral_index = index;
                    vote_sig = sig;
                  } in
                  require-AtIndex (not (has_outpoint entry seen)) (duplicate_entry i) (ok entry)
                    refl (λ d h. cc))

  -- The entries before one pass, and it is refused with the error, which carries its own index.
  pub record Refused (i : ℕ) (seen : List Entry) (items : Items) (e : VoteError) : Type 0 where
    pub before : Items
    pub bad : Js
    pub after : Items
    pub accepted : List Entry
    pub splits : append_items before (cons bad after) ≡ items
    pub passes : check_entries bytes_of base64_of i seen before ≡ ok accepted
    pub refusal :
        check_entry bytes_of base64_of (i + size before) (reversed_onto seen accepted) bad ≡ err e
    pub index : index_of_error e ≡ some (i + size before)

  check_entries_from :
      (i : ℕ) (seen : List Entry) (items : Items) (e : VoteError)
      → check_entries bytes_of base64_of i seen items ≡ err e
      → Refused i seen items e
  unfolding check_entries
  check_entries_from i seen nil e h = cc
  check_entries_from i seen (cons x items) e h =
      elim (Result-cases (check_entry bytes_of base64_of i seen x)) [
        | inl (d, fails) ↦ record {
          before = nil;
          bad = x;
          after = items;
          accepted = [];
          splits = refl;
          passes = refl;
          refusal =
              ap (λ j. check_entry bytes_of base64_of j seen x) (omega arith)
              ∙ fails
              ∙ ap err (err_inj (rw (fails, check_entries) at h));
          index =
              ap index_of_error (sym (err_inj (rw (fails, check_entries) at h)))
              ∙ check_entry-index i seen x d fails
              ∙ ap some (omega arith);
        }
        | inr (entry, fine) ↦
            let r = check_entries_from (i + 1) (entry ∷ seen) items e (
              later_error (check_entries bytes_of base64_of (i + 1) (entry ∷ seen) items) entry
                (rw (fine, check_entries) at h)) in
            record {
              before = cons x r.before;
              bad = r.bad;
              after = r.after;
              accepted = entry ∷ r.accepted;
              splits = ap (cons x) r.splits;
              passes = rw (fine, r.passes, check_entries) refl;
              refusal =
                  ap
                    (λ j.
                      check_entry bytes_of base64_of j (reversed_onto (entry ∷ seen) r.accepted)
                        r.bad)
                    (omega arith)
                  ∙ r.refusal;
              index = r.index ∙ ap some (omega arith);
            }
      ]

  -- The entries of the body.
  abbrev pub entries_of : Js → Result VoteError Items
  entries_of body = items_of_vote (member_of (codes "entries") body)

  after_entries :
      (items : Items) (f : List Entry → Ballot) (e : VoteError)
      → (check_entries bytes_of base64_of 0 [] items >>= λ es. ok (f es)) ≡ err e
      → check_entries bytes_of base64_of 0 [] items ≡ err e
  after_entries items f e h = elim (Result-cases (check_entries bytes_of base64_of 0 [] items)) [
    | inl (d, fails) ↦ fails ∙ ap err (err_inj (rw fails at h))
    | inr (es, fine) ↦ cc (rw fine at h)
  ]

  -- When a body is refused with an error that carries an index, its list of entries is within its
  -- bounds, the entry at that index is refused by the check of entries with this error, and all
  -- entries before it pass.
  pub validate_vote_body-err :
      (body : Js) (now_ms : ℕ) (e : VoteError) (i : ℕ)
      → validate_vote_body bytes_of base64_of body now_ms ≡ err e
      → index_of_error e ≡ some i
      → (items : Items) × (entries_of body ≡ ok items)
        × (r : Refused 0 [] items e) × (size r.before ≡ i)
  unfolding validate_vote_body
  validate_vote_body-err body now_ms e i h at =
      let h1 = require-later (is_object body) invalid_body _ refl at h in
      let (hash, h2) =
        or_throw-later (hash_of (member_of (codes "proposalHash") body)) invalid_proposal_hash _
          refl at h1 in
      let (outcome, h3) =
        or_throw-later (outcome_named (member_of (codes "voteOutcome") body)) invalid_vote_outcome _
          refl at h2 in
      let (signal, h4) =
        or_throw-later (signal_named (member_of (codes "voteSignal") body)) unsupported_vote_signal
          _ refl at h3 in
      let (time, h5) =
        or_throw-later (natural (member_of (codes "time") body)) invalid_time _ refl at h4 in
      let h6 =
        require-later (not (ltb (now_ms / 1000 + vote_time_max_skew_ahead_s) time)) time_in_future _
          refl at h5 in
      let h7 =
        require-later (not (ltb (time + vote_time_max_skew_behind_s) (now_ms / 1000))) time_too_old
          _ refl at h6 in
      let (items, found, h8) = items_of_vote-later (member_of (codes "entries") body) _ at h7 in
      let r = check_entries_from 0 [] items e (after_entries items _ e h8) in
      (items, found, r, omega (arith, some_inj (sym r.index ∙ at)))
