-- ===== src/Accounts/Credentials.antt =====
-- lib/users.js: what the operations keep of a verified account.
use sysnode_backend.Base.{
  ℕ, ◌+◌, ◌≡◌, ◌≢◌, refl, ◌∙◌, inl, inr, Bool, true, false, some, [], ◌∷◌, ◌++◌, arith, ◌==◌,
  if◌then◌else◌, Bool-cases, Option-cases, Text,
}
use sysnode_backend.Eq.{nat_eq, text_eq}
use sysnode_backend.Js.{Js, obj, end}
use sysnode_backend.Rows.{lookup, update_where}
use sysnode_backend.Rows.Laws.{lookup-append, lookup-key, lookup-update_where, lookup-delete_where}
use sysnode_backend.Accounts.Email.{normalize_email, is_valid_email_syntax}
use sysnode_backend.Accounts.Users.{
  User, id_of, email_of, Users, insert_user, create_user, mark_email_verified, update_auth_hash,
  update_notification_prefs, is_unverified, promoted, promote_unverified_with_stored_auth,
  delete_by_id,
}
use sysnode_backend.Accounts.Operations.{
  Operation, creates, marks_verified, changes_auth, changes_prefs, promotes, deletes, apply, Valid,
}

-- The account is there with the credential, verified, and under its address.
abbrev pub Holds : ℕ → Text → Text → Users → Type 0
Holds i email stored_auth s =
    (r : User) × (lookup id_of i s.rows ≡ some r)
    × (r.email_verified ≡ true)
    × (r.stored_auth ≡ stored_auth)
    × (r.email ≡ email)

-- Not a change of the password of the account, and not its deletion.
abbrev pub Spares : ℕ → Operation → Type 0
Spares i (changes_auth j stored_auth t) = j ≢ i
Spares i (deletes j) = j ≢ i
Spares i _ = Unit

-- What an update makes of a verified row of the account.
abbrev Keeps : ℕ → User → User → Type 0
Keeps i r x =
    (r.id ≡ i)
    → (r.email_verified ≡ true)
    → (x.email_verified ≡ true) × (x.stored_auth ≡ r.stored_auth) × (x.email ≡ r.email)

Holds-update :
    (i : ℕ) (email stored_auth : Text) (p : User → Bool) (f : User → User) (s : Users)
    → ((r : User) → (f r).id ≡ r.id)
    → ((r : User) → Keeps i r (if p r then f r else r))
    → Holds i email stored_auth s
    → Holds i email stored_auth (record s { rows = update_where p f s.rows })
Holds-update i email stored_auth p f s same_id keeps (r, found, verified, auth, address) =
    let after = keeps r (lookup-key id_of i s.rows r found) verified in
    (
      (if p r then f r else r),
      lookup-update_where id_of p f same_id i s.rows ∙ rw found refl,
      after.0,
      after.1 ∙ auth,
      after.2 ∙ address,
    )

Holds-append :
    (i : ℕ) (email stored_auth : Text) (x : User) (s : Users)
    → Holds i email stored_auth s
    → Holds i email stored_auth (record { rows = s.rows ++ x ∷ []; next_id = s.next_id + 1 })
Holds-append i email stored_auth x s (r, found, verified, auth, address) =
    (r, lookup-append id_of i s.rows x ∙ rw found refl, verified, auth, address)

create_user-Holds :
    (nfkc : Text → Text) (verified : Bool) (address : Js) (auth salt_v : Text) (t : ℕ) (i : ℕ)
    (email stored_auth : Text) (s : Users)
    → Holds i email stored_auth s
    → Holds i email stored_auth (create_user verified nfkc address auth salt_v t s).0
unfolding create_user insert_user
create_user-Holds nfkc verified address auth salt_v t i email stored_auth s h =
    elim (Bool-cases (is_valid_email_syntax (normalize_email nfkc address))) [
      | inr malformed ↦ rw (malformed, create_user) h
      | inl fine ↦ elim (Option-cases (lookup email_of (normalize_email nfkc address) s.rows)) [
        | inr (r, taken) ↦ rw (fine, create_user, taken) h
        | inl absent ↦
            rw (fine, create_user, absent)
              (Holds-append i email stored_auth
                record {
                  id = s.next_id;
                  email = normalize_email nfkc address;
                  stored_auth = auth;
                  salt_v = salt_v;
                  email_verified = verified;
                  notification_prefs = obj end;
                  created_at = t;
                  updated_at = t;
                }
                s h)
      ]
    ]

other_id : (a i j : ℕ) → a ≡ i → j ≢ i → (a == j) ≡ false
other_id a i j e h = ground arith

-- In a table with unique ids and addresses and an unused next id: a verified account keeps its
-- credential and its address, and stays verified, through every
-- operation but a change of its own credential by `updateAuthHash` and its own deletion: neither a
-- registration with its address nor a promotion of an unverified row rebinds it.
pub apply-Holds :
    (nfkc : Text → Text) (o : Operation) (i : ℕ) (email stored_auth : Text) (s : Users)
    → Valid s
    → Spares i o
    → Holds i email stored_auth s
    → Holds i email stored_auth (apply nfkc o s)
unfolding apply mark_email_verified update_auth_hash update_notification_prefs
    promote_unverified_with_stored_auth delete_by_id
apply-Holds nfkc (creates verified address auth salt_v t) i email stored_auth s v spares h =
    create_user-Holds nfkc verified address auth salt_v t i email stored_auth s h
apply-Holds nfkc (marks_verified j t) i email stored_auth s v spares h =
    Holds-update i email stored_auth (λ r. r.id == j)
      (λ r. record r { email_verified = true; updated_at = t }) s (λ r. refl)
      (λ r same verified. ground arith) h
apply-Holds nfkc (changes_auth j auth t) i email stored_auth s v spares h =
    Holds-update i email stored_auth (λ r. r.id == j)
      (λ r. record r { stored_auth = auth; updated_at = t }) s (λ r. refl)
      (λ r same verified. rw (other_id r.id i j same spares) (verified, refl, refl)) h
apply-Holds nfkc (changes_prefs j prefs t) i email stored_auth s v spares h =
    Holds-update i email stored_auth (λ r. r.id == j)
      (λ r. record r { notification_prefs = prefs; updated_at = t }) s (λ r. refl)
      (λ r same verified. ground arith) h
apply-Holds nfkc (promotes j auth t) i email stored_auth s v spares h =
    Holds-update i email stored_auth (is_unverified j) (promoted auth t) s (λ r. refl)
      (λ r same verified. ground arith) h
apply-Holds nfkc (deletes j) i email stored_auth s v spares (r, found, verified, auth, address) = (
  r,
  lookup-delete_where id_of (λ r. r.id == j) i s.rows v.ids
      ∙ rw (found, other_id r.id i j (lookup-key id_of i s.rows r found) spares) refl,
  verified,
  auth,
  address,
)
