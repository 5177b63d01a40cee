-- ===== src/Receipts/Cache/Calls.antt =====
-- lib/voteReceipts.js: when a call for the current votes is under way.
use mathlib.Core.Path.{subst}
use sysnode_backend.Base.{
  ℕ, ◌+◌, ◌≡◌, ◌≢◌, refl, sym, ◌∙◌, inl, inr, Bool, true, false, not, ◌&&◌, Option, none, some,
  arith, leb, if◌then◌else◌, Bool-cases, Option-cases, Text, same_text, same_text_refl,
  same_text_iff, ◌>>=◌,
}
use sysnode_backend.Eq.{text_eq}
use sysnode_backend.Rows.{lookup, Unique, delete_where}
use sysnode_backend.Rows.Laws.{
  lookup-append, lookup-key, lookup-delete_where, Unique-append, Unique-delete_where,
}
use sysnode_backend.Receipts.Cache.{
  CacheEntry, key_of_entry, Cache, is_expired, sweep_expired, mint, get_at,
}

-- The call `r` for the key is under way and is what readers get.
pub record UnderWay (key : Text) (r : ℕ) (c : Cache) : Type 0 where
  pub unique : Unique key_of_entry c.entries
  pub entry :
      lookup key_of_entry key c.entries
      ≡ some record { key = key; record_id = r; expires_at = none }

UnderWay-sweep :
    (key : Text) (r t : ℕ) (c : Cache) → UnderWay key r c → UnderWay key r (sweep_expired t c)
unfolding sweep_expired
UnderWay-sweep key r t c u = record {
  unique = Unique-delete_where key_of_entry (is_expired t) c.entries u.unique;
  entry =
      lookup-delete_where key_of_entry (is_expired t) key c.entries u.unique ∙ rw (u.entry) refl;
}

UnderWay-if :
    (key : Text) (r : ℕ) (b : Bool) (c d : Cache)
    → UnderWay key r c
    → UnderWay key r d
    → UnderWay key r (if b then c else d)
UnderWay-if key r true c d u v = u
UnderWay-if key r false c d u v = v

other_text : (k key : Text) → k ≢ key → same_text k key ≡ false
other_text k key h = ground (arith, same_text_iff k key)

pub different : (k key : Text) → same_text k key ≡ false → k ≢ key
different k key h = ground (arith, same_text_iff k key)

deleted :
    (k : Text) (o : Option CacheEntry)
    → ((e : CacheEntry) → o ≡ some e → e.key ≡ k)
    → (o >>= λ e. if same_text e.key k then none else some e) ≡ none
deleted k none same = refl
deleted k (some e) same = rw (same e refl, same_text_refl k) refl

pub Unique-others :
    (k : Text) (c : Cache)
    → Unique key_of_entry c.entries
    → Unique key_of_entry (delete_where (λ e. same_text e.key k) c.entries)
Unique-others k c u = Unique-delete_where key_of_entry (λ e. same_text e.key k) c.entries u

lookup-others :
    (k : Text) (c : Cache)
    → Unique key_of_entry c.entries
    → lookup key_of_entry k (delete_where (λ e. same_text e.key k) c.entries) ≡ none
lookup-others k c u =
    lookup-delete_where key_of_entry (λ e. same_text e.key k) k c.entries u
    ∙ deleted k (lookup key_of_entry k c.entries) (lookup-key key_of_entry k c.entries)

pub lookup-spared :
    (key k : Text) (r : ℕ) (c : Cache)
    → k ≢ key
    → UnderWay key r c
    → lookup key_of_entry key (delete_where (λ e. same_text e.key k) c.entries)
      ≡ some record { key = key; record_id = r; expires_at = none }
lookup-spared key k r c h u =
    lookup-delete_where key_of_entry (λ e. same_text e.key k) key c.entries u.unique
    ∙ rw (u.entry, other_text key k (λ e. h (sym e))) refl

-- A new call is what the readers of its key get from then on.
mint-UnderWay :
    (key : Text) (c : Cache)
    → Unique key_of_entry c.entries
    → UnderWay key c.next_record (mint key c).0
unfolding mint
mint-UnderWay key c u =
    let entry : CacheEntry = record { key = key; record_id = c.next_record; expires_at = none } in
    let others = delete_where (λ e. same_text e.key key) c.entries in
    record {
      unique =
          Unique-append key_of_entry others entry (lookup-others key c u) (Unique-others key c u);
      entry =
          lookup-append key_of_entry key others entry
          ∙ rw (lookup-others key c u, same_text_refl key) refl;
    }

UnderWay-mint :
    (key k : Text) (r : ℕ) (c : Cache) → k ≢ key → UnderWay key r c → UnderWay key r (mint k c).0
unfolding mint
UnderWay-mint key k r c h u =
    let entry : CacheEntry = record { key = k; record_id = c.next_record; expires_at = none } in
    let others = delete_where (λ e. same_text e.key k) c.entries in
    record {
      unique =
          Unique-append key_of_entry others entry (lookup-others k c u.unique)
            (Unique-others k c u.unique);
      entry = lookup-append key_of_entry key others entry ∙ rw (lookup-spared key k r c h u) refl;
    }

Unique-sweep :
    (t : ℕ) (c : Cache)
    → Unique key_of_entry c.entries
    → Unique key_of_entry (sweep_expired t c).entries
unfolding sweep_expired
Unique-sweep t c u = Unique-delete_where key_of_entry (is_expired t) c.entries u

-- The cache that a new call is put into.
abbrev swept_at : ℕ → ℕ → Cache → Cache
swept_at ttl_ms t c = if leb (c.last_sweep_at + ttl_ms) t then sweep_expired t c else c

started-UnderWay :
    (ttl_ms : ℕ) (key : Text) (t : ℕ) (c : Cache)
    → Unique key_of_entry c.entries
    → UnderWay key (mint key (swept_at ttl_ms t c)).1 (mint key (swept_at ttl_ms t c)).0
unfolding mint
started-UnderWay ttl_ms key t c u = elim (Bool-cases (leb (c.last_sweep_at + ttl_ms) t)) [
  | inl due ↦ rw due (mint-UnderWay key (sweep_expired t c) (Unique-sweep t c u))
  | inr recent ↦ rw recent (mint-UnderWay key c u)
]

-- A reader that starts a call gets its promise, and the call is under way.
pub get_at-UnderWay :
    (ttl_ms : ℕ) (key : Text) (refresh : Bool) (t : ℕ) (c : Cache)
    → Unique key_of_entry c.entries
    → (get_at ttl_ms key refresh t c).0.next_record ≢ c.next_record
    → UnderWay key (get_at ttl_ms key refresh t c).1 (get_at ttl_ms key refresh t c).0
unfolding get_at
get_at-UnderWay ttl_ms key refresh t c u starts =
    elim (Option-cases (lookup key_of_entry key c.entries)) [
      | inl missing ↦ rw (missing, get_at) (started-UnderWay ttl_ms key t c u)
      | inr (e, found) ↦ elim (Bool-cases (not refresh && not (is_expired t e))) [
        | inl hit ↦ absurd (rw (found, get_at, hit) at starts refl)
        | inr miss ↦ rw (found, get_at, miss) (started-UnderWay ttl_ms key t c u)
      ]
    ]

pub get_at-hit :
    (ttl_ms : ℕ) (key : Text) (r t : ℕ) (c : Cache)
    → UnderWay key r c
    → get_at ttl_ms key false t c ≡ (c, r)
unfolding get_at
get_at-hit ttl_ms key r t c u = rw (u.entry, get_at) refl

pub get_at-other :
    (ttl_ms : ℕ) (key k : Text) (refresh : Bool) (r t : ℕ) (c : Cache)
    → k ≢ key
    → UnderWay key r c
    → UnderWay key r (get_at ttl_ms k refresh t c).0
unfolding get_at
get_at-other ttl_ms key k refresh r t c h u =
    let swept = swept_at ttl_ms t c in
    let v : UnderWay key r swept =
      UnderWay-if key r (leb (c.last_sweep_at + ttl_ms) t) (sweep_expired t c) c
        (UnderWay-sweep key r t c u) u in
    elim (Option-cases (lookup key_of_entry k c.entries)) [
      | inl missing ↦ rw (missing, get_at) (UnderWay-mint key k r swept h v)
      | inr (e, found) ↦ elim (Bool-cases (not refresh && not (is_expired t e))) [
        | inl hit ↦ rw (found, get_at, hit) u
        | inr miss ↦ rw (found, get_at, miss) (UnderWay-mint key k r swept h v)
      ]
    ]

pub get_at-plain :
    (ttl_ms : ℕ) (key k : Text) (refresh : Bool) (r t : ℕ) (c : Cache)
    → refresh ≡ false
    → k ≡ key
    → UnderWay key r c
    → UnderWay key r (get_at ttl_ms k refresh t c).0
get_at-plain ttl_ms key k refresh r t c plain same u =
    rw (plain, same)
      (subst (λ (x : Cache × ℕ). UnderWay key r x.0) (sym (get_at-hit ttl_ms key r t c u)) u)
