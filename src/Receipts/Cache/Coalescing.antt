-- ===== src/Receipts/Cache/Coalescing.antt =====
-- lib/voteReceipts.js: concurrent readers of the current votes share one call.
use sysnode_backend.Base.{
  ℕ, ◌+◌, ◌≡◌, ◌≢◌, ◌⊎◌, refl, ◌∙◌, inl, inr, Bool, false, ◌&&◌, some, List, [], ◌∷◌, arith, ◌==◌,
  Bool-cases, Text, same_text, same_text_iff, to_lower_case, All,
}
use sysnode_backend.Eq.{text_eq}
use sysnode_backend.Rows.{Unique}
use sysnode_backend.Rows.Laws.{
  lookup-update_where, lookup-delete_where, Unique-update_where, Unique-delete_where,
}
use sysnode_backend.Receipts.Cache.{
  key_of_entry, Cache, get_at, is_current, resolve, fail, invalidate, clear,
}
use sysnode_backend.Js.{Js, str}
use sysnode_backend.Receipts.Cache.Calls.{
  UnderWay, different, Unique-others, lookup-spared, get_at-UnderWay, get_at-hit, get_at-other,
  get_at-plain,
}

-- What happens in the cache: readers come, calls end, and entries are dropped.
pub data Happening : Type 0 where
  reads : Text → Bool → ℕ → Happening
  resolves : Text → ℕ → ℕ → Happening
  fails : Text → ℕ → Happening
  invalidates : Js → Happening
  clears : Happening

unfoldable pub happen : ℕ → Happening → Cache → Cache
unfolding get_at resolve fail invalidate clear
happen ttl_ms (reads key refresh t) c = (get_at ttl_ms key refresh t c).0
happen ttl_ms (resolves key r t) c = resolve ttl_ms key r t c
happen ttl_ms (fails key r) c = fail key r c
happen ttl_ms (invalidates h) c = invalidate h c
happen ttl_ms clears c = clear c

unfoldable pub happen_all : ℕ → List Happening → Cache → Cache
unfolding happen
happen_all ttl_ms [] c = c
happen_all ttl_ms (h ∷ hs) c = happen_all ttl_ms hs (happen ttl_ms h c)

-- Neither the end of the call, nor an explicit refresh or invalidation of the key, nor a clear.
abbrev pub Leaves : Text → ℕ → Happening → Type 0
Leaves key r (reads k refresh t) = (refresh ≡ false) ⊎ (k ≢ key)
Leaves key r (resolves k i t) = i ≢ r
Leaves key r (fails k i) = i ≢ r
Leaves key r (invalidates (str s)) = to_lower_case s ≢ key
Leaves key r (invalidates _) = Unit
Leaves key r clears = ⊥

not_current : (key k : Text) (i r : ℕ) → i ≢ r → (same_text key k && r == i) ≡ false
not_current key k i r h = ground arith

happen-UnderWay :
    (ttl_ms : ℕ) (key : Text) (r : ℕ) (h : Happening) (c : Cache)
    → Leaves key r h
    → UnderWay key r c
    → UnderWay key r (happen ttl_ms h c)
unfolding happen resolve fail invalidate
happen-UnderWay ttl_ms key r (reads k refresh t) c (inr other) u =
    get_at-other ttl_ms key k refresh r t c other u
happen-UnderWay ttl_ms key r (reads k refresh t) c (inl plain) u =
    elim (Bool-cases (same_text k key)) [
      | inl same ↦ get_at-plain ttl_ms key k refresh r t c plain ((same_text_iff k key).0 same) u
      | inr other ↦ get_at-other ttl_ms key k refresh r t c (different k key other) u
    ]
happen-UnderWay ttl_ms key r (resolves k i t) c other u = record {
  unique =
      Unique-update_where key_of_entry (is_current k i)
        (λ e. record e { expires_at = some (t + ttl_ms) }) (λ e. refl) c.entries u.unique;
  entry =
      lookup-update_where key_of_entry (is_current k i)
        (λ e. record e { expires_at = some (t + ttl_ms) }) (λ e. refl) key c.entries
      ∙ rw (u.entry, not_current key k i r other) refl;
}
happen-UnderWay ttl_ms key r (fails k i) c other u = record {
  unique = Unique-delete_where key_of_entry (is_current k i) c.entries u.unique;
  entry =
      lookup-delete_where key_of_entry (is_current k i) key c.entries u.unique
      ∙ rw (u.entry, not_current key k i r other) refl;
}
happen-UnderWay ttl_ms key r (invalidates (str s)) c other u = record {
  unique = Unique-others (to_lower_case s) c u.unique;
  entry = lookup-spared key (to_lower_case s) r c other u;
}
happen-UnderWay ttl_ms key r (invalidates _) c other u = u
happen-UnderWay ttl_ms key r clears c other u = absurd other

happen_all-UnderWay :
    (ttl_ms : ℕ) (key : Text) (r : ℕ) (hs : List Happening) (c : Cache)
    → All (Leaves key r) hs
    → UnderWay key r c
    → UnderWay key r (happen_all ttl_ms hs c)
unfolding happen_all
happen_all-UnderWay ttl_ms key r [] c l u = u
happen_all-UnderWay ttl_ms key r (h ∷ hs) c l u =
    happen_all-UnderWay ttl_ms key r hs (happen ttl_ms h c) l.1
      (happen-UnderWay ttl_ms key r h c l.0 u)

-- Once a reader of a cache with unique keys has started a call for a proposal, and until that call
-- resolves or fails, every reader that asks for no refresh gets the promise of that call and starts
-- no other, at any time and whatever else is read, resolves, fails or is invalidated and however the
-- clean-ups fall, unless the proposal is refreshed or invalidated or the cache is cleared.
pub get_at-coalesces :
    (ttl_ms : ℕ) (key : Text) (refresh : Bool) (t later : ℕ) (c : Cache) (hs : List Happening)
    → Unique key_of_entry c.entries
    → (get_at ttl_ms key refresh t c).0.next_record ≢ c.next_record
    → All (Leaves key (get_at ttl_ms key refresh t c).1) hs
    → get_at ttl_ms key false later (happen_all ttl_ms hs (get_at ttl_ms key refresh t c).0)
      ≡ (happen_all ttl_ms hs (get_at ttl_ms key refresh t c).0, (get_at ttl_ms key refresh t c).1)
get_at-coalesces ttl_ms key refresh t later c hs u starts l =
    let first = get_at ttl_ms key refresh t c in
    get_at-hit ttl_ms key first.1 later (happen_all ttl_ms hs first.0) (
      happen_all-UnderWay ttl_ms key first.1 hs first.0 l
        (get_at-UnderWay ttl_ms key refresh t c u starts))
