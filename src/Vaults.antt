-- ===== src/Vaults.antt =====
-- lib/vaults.js: the vaults. The hash that makes an etag is a parameter.
pub mod Writers
pub mod Tests
use sysnode_backend.Base.{
  ℕ, ◌+◌, Bool, true, false, not, ◌&&◌, Option, none, some, List, [], ◌∷◌, ◌++◌, ◌==◌, ltb,
  if◌then◌else◌, Text, same_text, length, codes,
}
use sysnode_backend.Eq.{nat_eq}
use sysnode_backend.Js.{Js, str}
use sysnode_backend.Results.{Result, ok, err}
use sysnode_backend.Rows.{update_where, lookup}

pub record Vault : Type 0 where
  pub user_id : ℕ
  pub blob : Text
  pub etag : Text
  pub updated_at : ℕ

abbrev pub owner : Vault → ℕ
owner v = v.user_id

abbrev pub max_blob_bytes : ℕ
max_blob_bytes = 262144

pub data VaultError : Type 0 where
  invalid_blob blob_too_large etag_required etag_mismatch : VaultError

-- `Buffer.byteLength(blob, 'utf8')`
unfoldable pub byte_length : Text → ℕ
byte_length [] = 0
byte_length (c ∷ s) =
    (if ltb c 0x80 then 1 else if ltb c 0x800 then 2 else if ltb c 0x10000 then 3 else 4)
    + byte_length s

unfoldable pub get : ℕ → List Vault → Option Vault
get user rows = lookup owner user rows

-- `if (!ifMatch)`, and the text of the header
abbrev pub header : Option Text → Result VaultError Text
header none = err etag_required
header (some []) = err etag_required
header (some (c ∷ s)) = ok (c ∷ s)

abbrev pub is_wildcard : Text → Bool
is_wildcard m = same_text m (codes "*")

abbrev pub Returns : Type 0
Returns = List Vault × Result VaultError Text

abbrev pub checked {ℓ} : {E : Type 0} {A : Type ℓ} {B : Type 0} → Result E A → (E → B) → (A → B) → B
checked (ok a) f g = g a
checked (err e) f g = f e

module _ (etag_for : Text → Text) where
  -- The INSERT, which the primary key may refuse.
  unfoldable pub insert_first : ℕ → Text → ℕ → List Vault → Returns
  insert_first user blob now rows = elim (lookup owner user rows) [
    | some v ↦ (rows, err etag_mismatch)
    | none ↦ (
      rows ++ record { user_id = user; blob = blob; etag = etag_for blob; updated_at = now } ∷ [],
      ok (etag_for blob),
    )
  ]

  abbrev pub set_blob : Text → ℕ → Vault → Vault
  set_blob blob now v = record v { blob = blob; etag = etag_for blob; updated_at = now }

  -- UPDATE … WHERE user_id = ? AND etag = ?, and what follows it. The primary key finds the row.
  unfoldable pub conditional_update : ℕ → Text → Text → ℕ → List Vault → Returns
  conditional_update user blob if_match now rows = elim (lookup owner user rows) [
    | none ↦ (rows, err etag_mismatch)
    | some v ↦
        if same_text v.etag if_match
        then (update_where (λ x. x.user_id == user) (set_blob blob now) rows, ok (etag_for blob))
        else (rows, err etag_mismatch)
  ]

  unfoldable pub put_first : ℕ → Text → Text → ℕ → List Vault → Returns
  put_first user blob if_match now rows =
      if is_wildcard if_match then insert_first user blob now rows else (rows, err etag_mismatch)

  unfoldable pub put_again : ℕ → Text → Text → ℕ → List Vault → Returns
  put_again user blob if_match now rows =
      if is_wildcard if_match
      then (rows, err etag_mismatch)
      else conditional_update user blob if_match now rows

  -- After the checks of the blob; `before` is what the SELECT read.
  unfoldable pub put_blob : ℕ → Text → Option Text → ℕ → (before at_write : List Vault) → Returns
  put_blob user blob if_match now before rows = elim (lookup owner user before) [
    | none ↦ checked (header if_match) (λ e. (rows, err e)) (λ m. put_first user blob m now rows)
    | some v ↦ checked (header if_match) (λ e. (rows, err e)) (λ m. put_again user blob m now rows)
  ]

  unfoldable pub put : ℕ → Js → Option Text → ℕ → (before at_write : List Vault) → Returns
  put user (str blob) if_match now before rows =
      if length blob == 0
      then (rows, err invalid_blob)
      else if ltb max_blob_bytes (byte_length blob)
      then (rows, err blob_too_large)
      else put_blob user blob if_match now before rows
  put user _ if_match now before rows = (rows, err invalid_blob)
