-- ===== src/Receipts/Parse/Soundness.antt =====
-- What the parser lets through.
use sysnode_backend.Base.{
  ℕ, suc, ap, ◌≤◌, ◌≡◌, true, not, ◌&&◌, some, List, [], ◌∷◌, arith, ◌==◌, Text, length, take, drop,
  is_hex64, is_lower_hex64-to_lower_case, >>=-eq-some, check->>-eq-some, All, some_inj,
  Option-cases, inl, inr,
}
use sysnode_backend.Js.{Js, str, obj, Fields, end, field}
use sysnode_backend.Receipts.Parse.{
  Vote, ChainVote, outcome_of, signal_of, last_index_of, parse_index, parse_time, parse_outpoint,
  parse_parts, split, parse_vote_string, parse_entries, parse_current_votes,
}
use sysnode_backend.Receipts.Parse.Roundtrip.{IsWellFormed}

parse_index-le : (s : Text) (n : ℕ) → parse_index s ≡ some n → n ≤ 0xffffffff
unfolding parse_index
parse_index-le s n h = ground arith

parse_outpoint_sound :
    (s hash : Text) (n : ℕ)
    → parse_outpoint s ≡ some (hash, n)
    → (is_hex64 hash ≡ true) × (n ≤ 0xffffffff)
unfolding parse_outpoint
parse_outpoint_sound s hash n h =
    let (dash, e1, h1) = >>=-eq-some (last_index_of b'-' s) _ h in
    let (t2, h2) = check->>-eq-some (not (dash == 0) && not (suc dash == length s)) _ h1 in
    let (hex, h3) = check->>-eq-some (is_hex64 (take dash s)) _ h2 in
    let (idx, e4, h4) = >>=-eq-some (parse_index (drop (suc dash) s)) _ h3 in
    (
      rw (ap (λ (p : Text × ℕ). p.0) (some_inj h4)) at hex,
      rw (ap (λ (p : Text × ℕ). p.1) (some_inj h4)) at (parse_index-le _ idx e4),
    )

parse_parts_sound : (ps : List Text) (v : Vote) → parse_parts ps ≡ some v → IsWellFormed v
unfolding parse_parts
parse_parts_sound (outpoint ∷ n_time ∷ outcome ∷ signal ∷ []) v h =
    let ((hash, idx), e1, h1) = >>=-eq-some (parse_outpoint outpoint) _ h in
    let (time, e2, h2) = >>=-eq-some (parse_time n_time) _ h1 in
    let (o, e3, h3) = >>=-eq-some (outcome_of outcome) _ h2 in
    let (s, e4, h4) = >>=-eq-some (signal_of signal) _ h3 in
    let (hex, small) = parse_outpoint_sound outpoint hash idx e1 in
    rw (← some_inj h4) (record { hash = is_lower_hex64-to_lower_case hash hex; index = small })
parse_parts_sound _ v h = cc

-- Every vote that the parser returns has a lower-case 64-digit hash and a 32-bit index.
pub parse_vote_string-IsWellFormed :
    (s : Js) (v : Vote) → parse_vote_string s ≡ some v → IsWellFormed v
unfolding parse_vote_string
parse_vote_string-IsWellFormed (str s) v h = parse_parts_sound (split b':' s) v h
parse_vote_string-IsWellFormed _ v h = cc

parse_entries-All : (fs : Fields) → All (λ (c : ChainVote). IsWellFormed c.vote) (parse_entries fs)
unfolding parse_entries
parse_entries-All end = tt
parse_entries-All (field hash s fs) = elim (Option-cases (parse_vote_string s)) [
  | inl e ↦ rw e (parse_entries-All fs)
  | inr (v, e) ↦ rw e (parse_vote_string-IsWellFormed s v e, parse_entries-All fs)
]

-- Whatever Core answers, every entry that is kept has a lower-case 64-digit collateral hash and a
-- 32-bit output index.
pub parse_current_votes-All :
    (raw : Js) → All (λ (c : ChainVote). IsWellFormed c.vote) (parse_current_votes raw)
unfolding parse_current_votes
parse_current_votes-All (obj fs) = parse_entries-All fs
parse_current_votes-All _ = tt
