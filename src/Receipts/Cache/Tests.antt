-- ===== src/Receipts/Cache/Tests.antt =====
-- lib/voteReceipts.js: the cache and the summary on small inputs.
use sysnode_backend.Base.{◌≡◌, refl, inl, false, none, [], ◌∷◌, List, arith}
use sysnode_backend.Eq.{text_eq}
use sysnode_backend.Js.{undefined}
use sysnode_backend.Rows.{lookup, count_where, update_where, delete_where}
use sysnode_backend.Rows.Sorted.{order_by}
use sysnode_backend.Receipts.Tests.{hash_a, hash_b, one_unknown, unknown_receipt}
use sysnode_backend.Receipts.Cache.{Cache, get_at, resolve}
use sysnode_backend.Receipts.Cache.Coalescing.{
  Happening, reads, resolves, fails, invalidates, happen_all, get_at-coalesces,
}
use sysnode_backend.Receipts.Summary.{Summary, summary_stmt}

abbrev pub asked : Cache
asked = record {
  entries = record { key = hash_a; record_id = 4; expires_at = none } ∷ [];
  last_sweep_at = 0;
  next_record = 5;
}

abbrev pub cold : Cache
cold = record { entries = []; last_sweep_at = 0; next_record = 4 }

-- Another proposal is read, its call ends and it is invalidated, and the proposal is read long after.
abbrev pub happenings : List Happening
happenings =
    reads hash_b false 100
    ∷ resolves hash_b 5 200
    ∷ reads hash_a false 900000
    ∷ fails hash_b 6
    ∷ invalidates undefined
    ∷ []

get_at-coalesces_example :
    get_at 1000 hash_a false 999999
      (happen_all 1000 happenings (get_at 1000 hash_a false 50 cold).0)
    ≡ (happen_all 1000 happenings (get_at 1000 hash_a false 50 cold).0, 4)
unfolding get_at lookup
get_at-coalesces_example =
    get_at-coalesces 1000 hash_a false 50 999999 cold happenings tt (λ e. ground (arith, e))
      (inl refl, (λ e. ground arith, (inl refl, (λ e. ground arith, (tt, tt)))))

-- Once the call has resolved, the promise is served until the time to live has passed.
expires : (get_at 1000 hash_a false 1200 (resolve 1000 hash_a 4 200 asked)).1 ≡ 5
unfolding get_at resolve lookup update_where delete_where
expires = refl

serves : (get_at 1000 hash_a false 1199 (resolve 1000 hash_a 4 200 asked)).1 ≡ 4
unfolding get_at resolve lookup update_where
serves = refl

abbrev pub one_line : Summary
one_line = record {
  proposal_hash = unknown_receipt.key.proposal_hash;
  total = 1;
  relayed = 0;
  confirmed = 0;
  stale = 0;
  failed = 0;
  unknown = 1;
  confirmed_yes = 0;
  confirmed_no = 0;
  confirmed_abstain = 0;
  latest_submitted_at = unknown_receipt.submitted_at;
  latest_verified_at = unknown_receipt.verified_at;
}

summarizes : summary_stmt unknown_receipt.key.user_id one_unknown.rows ≡ one_line ∷ []
unfolding summary_stmt count_where order_by
summarizes = refl
