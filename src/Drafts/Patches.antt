-- ===== src/Drafts/Patches.antt =====
-- lib/proposalDrafts.js: whose drafts the operations touch.
use sysnode_backend.Base.{
  ℕ, ◌≡◌, ◌≢◌, refl, ap, inl, inr, Option, List, [], ◌∷◌, ◌++◌, arith, ◌==◌, filter, Option-cases,
  ℤ,
}
use sysnode_backend.Results.{Result-cases}
use sysnode_backend.Rows.{update_where, delete_where}
use sysnode_backend.Rows.Sorted.{order_by}
use sysnode_backend.Drafts.{
  Draft, Drafts, Patch, amount_of, is_draft, newer, new_draft, patched, get_by_id_for_user,
  list_for_user, create_draft, update_draft, remove_draft,
}

abbrev of_user : ℕ → List Draft → List Draft
of_user user rows = filter (λ r. r.user_id == user) rows

of_user-append :
    (other : ℕ) (rows : List Draft) (r : Draft)
    → r.user_id ≢ other
    → of_user other (rows ++ r ∷ []) ≡ of_user other rows
of_user-append other [] r h = ground arith
of_user-append other (x ∷ rows) r h = ground (arith, of_user-append other rows r h)

of_user-update :
    (user other i : ℕ) (p : Patch) (amount : Option ℤ) (t : ℕ) (rows : List Draft)
    → user ≢ other
    → of_user other (update_where (is_draft i user) (patched p amount t) rows) ≡ of_user other rows
unfolding update_where
of_user-update user other i p amount t [] h = refl
of_user-update user other i p amount t (r ∷ rows) h =
    ground (arith, of_user-update user other i p amount t rows h)

of_user-delete :
    (user other i : ℕ) (rows : List Draft)
    → user ≢ other
    → of_user other (delete_where (is_draft i user) rows) ≡ of_user other rows
unfolding delete_where
of_user-delete user other i [] h = refl
of_user-delete user other i (r ∷ rows) h = ground (arith, of_user-delete user other i rows h)

module _ (user other : ℕ) (h : user ≢ other) where
  create_draft_others :
      (p : Patch) (t : ℕ) (s : Drafts)
      → list_for_user other (create_draft user p t s).0 ≡ list_for_user other s
  unfolding create_draft list_for_user
  create_draft_others p t s = elim (Result-cases (amount_of p.payment_amount_sats)) [
    | inl (e, throws) ↦ rw (throws, create_draft) refl
    | inr (amount, given) ↦
        rw (given, create_draft)
          (ap (order_by newer)
            (of_user-append other s.rows (new_draft s.next_id user p amount t) h))
  ]

  update_draft_others :
      (i : ℕ) (p : Patch) (t : ℕ) (s : Drafts)
      → list_for_user other (update_draft i user p t s).0 ≡ list_for_user other s
  unfolding update_draft list_for_user
  update_draft_others i p t s = elim (Option-cases (get_by_id_for_user i user s)) [
    | inl missing ↦ rw (missing, update_draft) refl
    | inr (r, found) ↦ elim (Result-cases (amount_of p.payment_amount_sats)) [
      | inl (e, throws) ↦ rw (found, update_draft, throws) refl
      | inr (amount, given) ↦
          rw (found, update_draft, given)
            (ap (order_by newer) (of_user-update user other i p amount t s.rows h))
    ]
  ]

  -- What a user creates, updates or removes leaves the list of the drafts of every other user alone.
  drafts_of_others :
      (i : ℕ) (p : Patch) (t : ℕ) (s : Drafts)
      → (list_for_user other (create_draft user p t s).0 ≡ list_for_user other s)
        × (list_for_user other (update_draft i user p t s).0 ≡ list_for_user other s)
        × (list_for_user other (remove_draft i user s).0 ≡ list_for_user other s)
  unfolding remove_draft list_for_user
  drafts_of_others i p t s = (
    create_draft_others p t s,
    update_draft_others i p t s,
    ap (order_by newer) (of_user-delete user other i s.rows h),
  )
