-- ===== src/Vaults/Writers.antt =====
-- lib/vaults.js: of several writers with one etag, at most one succeeds.
use sysnode_backend.Base.{
  ℕ, ◌≡◌, ◌≢◌, refl, sym, ap, ◌∙◌, inl, inr, ◌⊎◌, [], ◌∷◌, none, some, List, arith, Text,
  Option-cases, Bool-cases, some_inj, ◌==◌, same_text, same_text_iff, ltb, length,
}
use sysnode_backend.Eq.{nat_eq, beq_refl}
use sysnode_backend.Js.{str}
use sysnode_backend.Results.{ok}
use sysnode_backend.Rows.{lookup}
use sysnode_backend.Rows.Laws.{lookup-update_key, lookup-append}
use sysnode_backend.Vaults.{
  Vault, owner, Returns, is_wildcard, insert_first, set_blob, conditional_update, put_first,
  put_again, put_blob, put, max_blob_bytes, byte_length,
}

module _ (etag_for : Text → Text) where
  -- The row under a user has the etag that was returned.
  abbrev pub Stored : ℕ → Returns → Text → Type 0
  Stored user o tag = (v : Vault) × (lookup owner user o.0 ≡ some v) × (v.etag ≡ tag)

  conditional_update-Stored :
      (user : ℕ) (blob m : Text) (now : ℕ) (rows : List Vault) (tag : Text)
      → (conditional_update etag_for user blob m now rows).1 ≡ ok tag
      → ((v : Vault) × (lookup owner user rows ≡ some v) × (v.etag ≡ m))
        × Stored user (conditional_update etag_for user blob m now rows) tag
  unfolding conditional_update
  conditional_update-Stored user blob m now rows tag h =
      elim (Option-cases (lookup owner user rows)) [
        | inl missing ↦ ground (arith, rw (missing, conditional_update) at h)
        | inr (v, found) ↦ elim (Bool-cases (same_text v.etag m)) [
          | inr other ↦ ground (arith, rw (found, other, conditional_update) at h)
          | inl same ↦
              let tagged : etag_for blob ≡ tag =
                ground (arith, rw (found, same, conditional_update) at h) in
              let after =
                lookup-update_key owner (set_blob etag_for blob now) (λ x. refl) user user rows in
              (
                (v, found, (same_text_iff v.etag m).0 same),
                rw (found, same, conditional_update)
                    (
                      set_blob etag_for blob now v,
                      after ∙ rw found (ground (arith, beq_refl user)),
                      tagged,
                    ),
              )
        ]
      ]

  insert_first-Stored :
      (user : ℕ) (blob : Text) (now : ℕ) (rows : List Vault) (tag : Text)
      → (insert_first etag_for user blob now rows).1 ≡ ok tag
      → (lookup owner user rows ≡ none) × Stored user (insert_first etag_for user blob now rows) tag
  unfolding insert_first
  insert_first-Stored user blob now rows tag h = elim (Option-cases (lookup owner user rows)) [
    | inr (v, found) ↦ ground (arith, rw (found, insert_first) at h)
    | inl missing ↦
        let tagged : etag_for blob ≡ tag = ground (arith, rw (missing, insert_first) at h) in
        let row : Vault = record {
          user_id = user;
          blob = blob;
          etag = etag_for blob;
          updated_at = now;
        } in
        (
          missing,
          rw (missing, insert_first)
              (
                row,
                lookup-append owner user rows row ∙ rw missing (ground (arith, beq_refl user)),
                tagged,
              ),
        )
  ]

  -- The write of a user with a header succeeded: the header named what was there, and what is there
  -- now has the etag that was returned.
  abbrev pub Took : ℕ → Text → List Vault → Type 0
  Took user m rows =
      (lookup owner user rows ≡ none)
      ⊎ ((v : Vault) × (lookup owner user rows ≡ some v) × (v.etag ≡ m))

  put_first-Took :
      (user : ℕ) (blob m : Text) (now : ℕ) (rows : List Vault) (tag : Text)
      → (put_first etag_for user blob m now rows).1 ≡ ok tag
      → Took user m rows × Stored user (put_first etag_for user blob m now rows) tag
  unfolding put_first
  put_first-Took user blob m now rows tag h = elim (Bool-cases (is_wildcard m)) [
    | inr other ↦ ground (arith, rw (other, put_first) at h)
    | inl star ↦
        let first = insert_first-Stored user blob now rows tag (rw (star, put_first) at h) in
        rw (star, put_first) (inl first.0, first.1)
  ]

  put_again-Took :
      (user : ℕ) (blob m : Text) (now : ℕ) (rows : List Vault) (tag : Text)
      → (put_again etag_for user blob m now rows).1 ≡ ok tag
      → Took user m rows × Stored user (put_again etag_for user blob m now rows) tag
  unfolding put_again
  put_again-Took user blob m now rows tag h = elim (Bool-cases (is_wildcard m)) [
    | inl star ↦ ground (arith, rw (star, put_again) at h)
    | inr named ↦
        let again =
          conditional_update-Stored user blob m now rows tag (rw (named, put_again) at h) in
        rw (named, put_again) (inr again.0, again.1)
  ]

  put_blob-Took :
      (user : ℕ) (blob m : Text) (now : ℕ) (before rows : List Vault) (tag : Text)
      → (put_blob etag_for user blob (some m) now before rows).1 ≡ ok tag
      → Took user m rows × Stored user (put_blob etag_for user blob (some m) now before rows) tag
  unfolding put_blob
  put_blob-Took user blob [] now before rows tag h =
      elim (Option-cases (lookup owner user before)) [
        | inl none_read ↦ ground (arith, rw (none_read, put_blob) at h)
        | inr (v, read) ↦ ground (arith, rw (read, put_blob) at h)
      ]
  put_blob-Took user blob (c ∷ m) now before rows tag h =
      elim (Option-cases (lookup owner user before)) [
        | inl none_read ↦
            rw (none_read, put_blob)
              (put_first-Took user blob (c ∷ m) now rows tag (rw (none_read, put_blob) at h))
        | inr (v, read) ↦
            rw (read, put_blob)
              (put_again-Took user blob (c ∷ m) now rows tag (rw (read, put_blob) at h))
      ]

  put-Took :
      (user : ℕ) (blob : Text) (m : Text) (now : ℕ) (before rows : List Vault) (tag : Text)
      → (put etag_for user (str blob) (some m) now before rows).1 ≡ ok tag
      → Took user m rows × Stored user (put etag_for user (str blob) (some m) now before rows) tag
  unfolding put
  put-Took user blob m now before rows tag h = elim (Bool-cases (length blob == 0)) [
    | inl empty ↦ ground (arith, rw (empty, put) at h)
    | inr full ↦ elim (Bool-cases (ltb max_blob_bytes (byte_length blob))) [
      | inl large ↦ ground (arith, rw (full, large, put) at h)
      | inr fits ↦
          rw (full, fits, put)
            (put_blob-Took user blob m now before rows tag (rw (full, fits, put) at h))
    ]
  ]

  -- After a write of a blob with an If-Match header has succeeded and returned an etag other
  -- than that header, a second write of the same user with the same header directly on the
  -- result fails, whatever it read and whatever it writes.
  pub put-once :
      (user : ℕ) (blob other m : Text) (now later : ℕ) (before seen rows : List Vault)
      (tag again : Text)
      → (put etag_for user (str blob) (some m) now before rows).1 ≡ ok tag
      → tag ≢ m
      → (put etag_for user
          (str other)
          (some m)
          later
          seen
          (put etag_for user (str blob) (some m) now before rows).0).1
        ≢ ok again
  put-once user blob other m now later before seen rows tag again h changed repeat =
      let first = put-Took user blob m now before rows tag h in
      let second =
        put-Took user other m later seen (put etag_for user (str blob) (some m) now before rows).0
          again repeat in
      elim second.0 [
        | inl gone ↦ cc (sym gone ∙ first.1.1)
        | inr (v, found, named) ↦
            let row : first.1.0 ≡ v = some_inj (sym first.1.1 ∙ found) in
            changed (sym first.1.2 ∙ ap (λ x. x.etag) row ∙ named)
      ]
