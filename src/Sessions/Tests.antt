-- ===== src/Sessions/Tests.antt =====
-- lib/sessions.js: runs of the model on small inputs, with the token as its own hash.
use sysnode_backend.Base.{◌≡◌, ◌≤◌, ◌+◌, refl, none, some, [], ◌∷◌, arith, Text, is_lower_hex64}
use sysnode_backend.Js.{str}
use sysnode_backend.Rows.{lookup}
use sysnode_backend.Sessions.{
  Session, Store, default_lifetimes, Verified, issue, verify, revoke, cleanup_expired,
}
use sysnode_backend.Sessions.Lifetime.{verify-IsBounded, verify-cleanup_expired, verify-revoke}
use sysnode_backend.Receipts.Tests.{hash_a}

abbrev pub same_hash : Text → Text
same_hash t = t

abbrev pub session : Session
session = record {
  id = 1;
  user_id = 7;
  token_hash = hash_a;
  created_at = 1000;
  expires_at = 1209601000;
  last_seen = 1000;
  user_agent = none;
  ip = none;
}

abbrev pub one_session : Store
one_session = record { rows = session ∷ []; next_id = 2 }

issued :
    (issue same_hash default_lifetimes 7 hash_a none none 1000
      (record { rows = []; next_id = 1 })).0
    ≡ one_session
unfolding issue
issued = refl

abbrev pub accepted : Verified
accepted = record { id = 1; user_id = 7; created_at = 1000; expires_at = 1209605000 }

verifies :
    (verify same_hash default_lifetimes (str hash_a) 5000 one_session one_session).1 ≡ some accepted
unfolding verify is_lower_hex64 lookup
verifies = refl

verify-IsBounded_example :
    (5000 ≤ 1000 + 2592000000) × (1209605000 ≤ 1000 + 2592000000) × (1209605000 ≤ 5000 + 1209600000)
verify-IsBounded_example =
    verify-IsBounded same_hash default_lifetimes (str hash_a) 5000 one_session one_session accepted
      verifies

verify-cleanup_expired_example :
    (verify same_hash default_lifetimes
      (str hash_a)
      6000
      (cleanup_expired default_lifetimes 5000 one_session).0
      one_session).1
    ≡ (verify same_hash default_lifetimes (str hash_a) 6000 one_session one_session).1
unfolding lookup
verify-cleanup_expired_example =
    verify-cleanup_expired same_hash default_lifetimes (str hash_a) 5000 6000 one_session
      one_session one_session (refl, tt) (omega arith)

verify-revoke_example :
    (verify same_hash default_lifetimes
      (str hash_a)
      5000
      (revoke same_hash (str hash_a) one_session).0
      one_session).1
    ≡ none
unfolding lookup
verify-revoke_example =
    verify-revoke same_hash default_lifetimes (str hash_a) 5000 one_session one_session (refl, tt)
