-- ===== src/Drafts/Tests.antt =====
-- lib/proposalDrafts.js: runs of the model on small inputs.
use sysnode_backend.Base.{◌≡◌, refl, none, some, [], ◌∷◌, codes, pos}
use sysnode_backend.Results.{ok}
use sysnode_backend.Rows.{update_where}
use sysnode_backend.Drafts.{Draft, Drafts, Patch, update_draft}

abbrev pub retitled : Patch
retitled = record {
  title = some (codes "new");
  name = none;
  url = none;
  description = none;
  payment_address = none;
  payment_amount_sats = none;
  payment_count = none;
  start_epoch = none;
  end_epoch = some none;
}

abbrev pub draft : Draft
draft = record {
  id = 1;
  user_id = 7;
  title = codes "old";
  name = codes "name";
  url = [];
  description = [];
  payment_address = [];
  payment_amount_sats = pos 100;
  payment_count = pos 3;
  start_epoch = none;
  end_epoch = some (pos 9);
  created_at = 1;
  updated_at = 1;
}

abbrev pub one_draft : Drafts
one_draft = record { rows = draft ∷ []; next_id = 2 }

abbrev pub changed : Draft
changed = record draft { title = codes "new"; end_epoch = none; updated_at = 5 }

updates :
    update_draft 1 7 retitled 5 one_draft
    ≡ (record { rows = changed ∷ []; next_id = 2 }, ok (some changed))
unfolding update_draft update_where
updates = refl

not_another_users : update_draft 1 8 retitled 5 one_draft ≡ (one_draft, ok none)
unfolding update_draft
not_another_users = refl
