-- ===== src/Vaults/Tests.antt =====
-- lib/vaults.js: runs of the model on small inputs, with the blob as its own hash.
use sysnode_backend.Base.{◌≡◌, ◌≢◌, refl, some, [], ◌∷◌, Text, codes, arith}
use sysnode_backend.Js.{str}
use sysnode_backend.Results.{ok}
use sysnode_backend.Rows.{lookup}
use sysnode_backend.Vaults.{
  Vault, put, put_blob, put_first, put_again, insert_first, conditional_update, byte_length,
}
use sysnode_backend.Vaults.Writers.{put-once}

abbrev pub same_etag : Text → Text
same_etag blob = blob

abbrev pub vault : Vault
vault = record { user_id = 1; blob = codes "old"; etag = codes "old"; updated_at = 10 }

written :
    (put same_etag 1 (str (codes "new")) (some (codes "old")) 20 (vault ∷ []) (vault ∷ [])).1
    ≡ ok (codes "new")
unfolding put put_blob put_again conditional_update lookup byte_length
written = refl

-- The first write of a user needs the wildcard.
created : (put same_etag 1 (str (codes "new")) (some (codes "*")) 20 [] []).1 ≡ ok (codes "new")
unfolding put put_blob put_first insert_first lookup byte_length
created = refl

put-once_example :
    (put same_etag 1
      (str (codes "third"))
      (some (codes "old"))
      30
      (vault ∷ [])
      (put same_etag 1 (str (codes "new")) (some (codes "old")) 20 (vault ∷ []) (vault ∷ [])).0).1
    ≢ ok (codes "third")
put-once_example =
    put-once same_etag 1 (codes "new") (codes "third") (codes "old") 20 30 (vault ∷ []) (vault ∷ [])
      (vault ∷ []) (codes "new") (codes "third") written (λ e. ground arith)
