-- ===== src/Dispatcher/Calls.antt =====
-- lib/proposalDispatcher.js: when Core is called.
use sysnode_backend.Base.{
  ℕ, ◌≡◌, refl, sym, ap, ◌↔◌, inl, inr, Bool, true, false, Option, none, some, List, [], ◌∷◌, arith,
  ◌==◌, ltb, Option-cases, Bool-cases, Text, ◌≤◌, ◌&&◌, ◌+◌, ℤ, pos, ◌≢◌, length, leb, some_inj,
}
use sysnode_backend.Js.{int}
use sysnode_backend.Results.{ok, err}
use sysnode_backend.Submissions.Types.{Submission, Table}
use sysnode_backend.Submissions.Transitions.{Returns, update_confirmations}
use sysnode_backend.Dispatcher.Errors.{is_unknown_transaction}
use sysnode_backend.Dispatcher.Advance.{
  Options, TransactionAnswer, transaction, transaction_error, World, Effect, gobject_submit,
  notify_failed, fail_row, fetch_failed, confirmations, submit, write_confs, advance_found,
  after_fetch, advance,
}

write_confs-some :
    (row : Submission) (confs now : ℕ) (t : Table)
    → (u : Table) × (write_confs row confs now t ≡ some u)
unfolding write_confs update_confirmations
write_confs-some row confs now t = elim (Bool-cases (confs == row.collateral_confs)) [
  | inl same ↦ (t, rw (same, write_confs) refl)
  | inr new ↦ ((update_confirmations row.id (int (pos confs)) now t).0, rw (new, write_confs) refl)
]

-- Core is called.
abbrev pub calls_core : List Effect → Bool
calls_core (gobject_submit parent revision time payload txid ∷ es) = true
calls_core _ = false

-- The row names a transaction, and Core reports it with enough confirmations.
abbrev pub IsConfirmed : Options → Submission → TransactionAnswer → Type 0
IsConfirmed opts row a =
    ((txid : Text) × (row.collateral_txid ≡ some txid) × (length txid ≢ 0))
    × ((c : Option ℤ) × (a ≡ transaction c) × (opts.required_confs ≤ confirmations c))

notify_failed-calls_core : (o : Returns) → calls_core (notify_failed o).1 ≡ false
notify_failed-calls_core (t, ok none) = refl
notify_failed-calls_core (t, ok (some y)) = refl
notify_failed-calls_core (t, err e) = refl

fetch_failed-calls_core :
    (opts : Options) (row : Submission) (txid msg : Text) (w : World) (t : Table)
    → calls_core (fetch_failed opts row txid msg w t).1 ≡ false
unfolding fetch_failed fail_row
fetch_failed-calls_core opts row txid msg w t =
    elim (Bool-cases
      (is_unknown_transaction msg && ltb (row.updated_at + opts.timeout_ms) w.fetched_at)) [
        | inl over ↦ rw (over, fetch_failed) (notify_failed-calls_core _)
        | inr wait ↦ rw (wait, fetch_failed) refl
      ]

advance_found-calls_core :
    (opts : Options) (row : Submission) (txid : Text) (confs : ℕ) (w : World) (t : Table)
    → calls_core (advance_found opts row txid confs w t).1 ≡ leb opts.required_confs confs
unfolding advance_found submit
advance_found-calls_core opts row txid confs w t =
    let u = write_confs-some row confs w.fetched_at t in
    elim (Bool-cases (ltb confs opts.required_confs)) [
      | inl few ↦ rw (u.1, advance_found, few) (ground arith)
      | inr enough ↦ rw (u.1, advance_found, enough) (ground arith)
    ]

after_fetch-calls_core :
    (opts : Options) (row : Submission) (txid : Text) (w : World) (a : TransactionAnswer)
    (t : Table)
    → (calls_core (after_fetch opts row txid w a t).1 ≡ true)
      ↔ ((c : Option ℤ) × (a ≡ transaction c) × (opts.required_confs ≤ confirmations c))
after_fetch-calls_core opts row txid w (transaction c) t = (
  (λ h. (c, refl, ground (arith, advance_found-calls_core opts row txid (confirmations c) w t))),
  (λ m. ground (arith, m.1, m.2, advance_found-calls_core opts row txid (confirmations c) w t)),
)
after_fetch-calls_core opts row txid w (transaction_error msg) t = (
  (λ h. ground (arith, fetch_failed-calls_core opts row txid msg w t)),
  (λ m. ground (arith, m.1)),
)

-- `advance` calls Core to submit exactly where the row names its transaction and Core has reported
-- that transaction with at least the required confirmations.
pub advance-calls_core :
    (opts : Options) (row : Submission) (w : World) (t : Table)
    → (calls_core (advance opts row w t).1 ≡ true) ↔ IsConfirmed opts row w.transaction_answer
unfolding advance
advance-calls_core opts row w t = elim (Option-cases row.collateral_txid) [
  | inl e ↦ rw (e, advance) ((λ h. ground arith), (λ m. ground (arith, m.0.1)))
  | inr ([], e) ↦
      rw (e, advance)
        ((λ h. ground arith), (λ m. elim (m.0.2 (ap length (some_inj (sym m.0.1)))) [ ]))
  | inr (c ∷ cs, e) ↦
      let named : (txid : Text) × (row.collateral_txid ≡ some txid) × (length txid ≢ 0) =
        (c ∷ cs, e, ground arith) in
      let rest =
        after_fetch-calls_core opts row (c ∷ cs) w w.transaction_answer (w.while_fetching t) in
      rw (e, advance) ((λ h. (rw e at named, rest.0 h)), (λ m. rest.1 m.1))
]
