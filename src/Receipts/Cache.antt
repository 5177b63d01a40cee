-- ===== src/Receipts/Cache.antt =====
-- lib/voteReceipts.js: `createCurrentVotesCache`. The number of a record stands for its promise; each
-- record has one call of Core, which resolves or fails later.
pub mod Calls
pub mod Coalescing
pub mod Tests
use sysnode_backend.Base.{
  ℕ, ◌+◌, Bool, true, false, not, ◌&&◌, Option, none, some, List, [], ◌∷◌, ◌++◌, ltb, leb, ◌==◌,
  if◌then◌else◌, Text, same_text, to_lower_case,
}
use sysnode_backend.Eq.{text_eq}
use sysnode_backend.Js.{Js, str, hash_of}
use sysnode_backend.Rows.{lookup, update_where, delete_where}

-- `expires_at` is none for Infinity.
pub record CacheEntry : Type 0 where
  pub key : Text
  pub record_id : ℕ
  pub expires_at : Option ℕ

abbrev pub key_of_entry : CacheEntry → Text
key_of_entry e = e.key

pub record Cache : Type 0 where
  pub entries : List CacheEntry
  pub last_sweep_at : ℕ
  pub next_record : ℕ

abbrev pub is_expired : ℕ → CacheEntry → Bool
is_expired t e = elim e.expires_at [ none ↦ false | some at ↦ leb at t ]

unfoldable pub sweep_expired : ℕ → Cache → Cache
sweep_expired t c = record c { entries = delete_where (is_expired t) c.entries; last_sweep_at = t }

-- `entries.set(key, record)` of a new record, and its promise.
unfoldable pub mint : Text → Cache → Cache × ℕ
mint key c = (
  record c {
    entries =
        delete_where (λ e. same_text e.key key) c.entries
        ++ record { key = key; record_id = c.next_record; expires_at = none } ∷ [];
    next_record = c.next_record + 1;
  },
  c.next_record,
)

unfoldable pub get_at : ℕ → Text → Bool → ℕ → Cache → Cache × ℕ
unfolding mint sweep_expired
get_at ttl_ms key refresh t c =
    let swept = if leb (c.last_sweep_at + ttl_ms) t then sweep_expired t c else c in
    elim (lookup key_of_entry key c.entries) [
      | none ↦ mint key swept
      | some e ↦ if not refresh && not (is_expired t e) then (c, e.record_id) else mint key swept
    ]

-- `none` is the throw for a malformed hash.
unfoldable pub get_cached : ℕ → Js → Bool → ℕ → Cache → Cache × Option ℕ
unfolding get_at
get_cached ttl_ms proposal_hash refresh t c = elim (hash_of proposal_hash) [
  | none ↦ (c, none)
  | some h ↦ let got = get_at ttl_ms (to_lower_case h) refresh t c in (got.0, some got.1)
]

-- `entries.get(key) === record`
abbrev pub is_current : Text → ℕ → CacheEntry → Bool
is_current key r e = same_text e.key key && e.record_id == r

-- The call of a record resolves, or fails.
unfoldable pub resolve : ℕ → Text → ℕ → ℕ → Cache → Cache
resolve ttl_ms key r t c = record c {
  entries =
      update_where (is_current key r) (λ e. record e { expires_at = some (t + ttl_ms) }) c.entries;
}

unfoldable pub fail : Text → ℕ → Cache → Cache
fail key r c = record c { entries = delete_where (is_current key r) c.entries }

unfoldable pub invalidate : Js → Cache → Cache
unfolding to_lower_case
invalidate (str s) c = record c {
  entries = delete_where (λ e. same_text e.key (to_lower_case s)) c.entries;
}
invalidate _ c = c

unfoldable pub clear : Cache → Cache
clear c = record c { entries = []; last_sweep_at = 0 }
