-- ===== src/Reminders/Proposals.antt =====
-- lib/reminderProposals.js: `parseReminderProposals`. JSON.parse is a parameter; Core gives DataString as
-- a string.
use sysnode_backend.Base.{
  Bool, true, false, not, ◌&&◌, Option, none, some, List, [], ◌∷◌, ◌==◌, all, Text, codes, is_hex64,
  to_lower_case, pos, ◌>>=◌, ◌>>◌, check,
}
use sysnode_backend.Js.{Js, bool, int, str, obj, Fields, end, field}
use sysnode_backend.Reminders.{Proposal, member_of, supported_proposal_window}

abbrev pub is_bool : Bool → Js → Bool
is_bool true (bool true) = true
is_bool false (bool false) = true
is_bool _ _ = false

abbrev pub is_one : Js → Bool
is_one (int (pos n)) = n == 1
is_one _ = false

-- An object that Core holds valid and not deleted.
unfoldable pub is_live_proposal : Text → Js → Bool
unfolding is_hex64
is_live_proposal key entry =
    is_hex64 key
    && not (all (λ c. c == b'0') key)
    && is_one (member_of (codes "ObjectType") entry)
    && is_bool true (member_of (codes "fBlockchainValidity") entry)
    && is_bool true (member_of (codes "fCachedValid") entry)
    && is_bool false (member_of (codes "fCachedDelete") entry)

module _ (parse_json : Text → Option Js) where
  abbrev pub data_of : Js → Option Js
  data_of (str s) = parse_json s
  data_of _ = none

  unfoldable pub parse_entry : Text → Js → Option Proposal
  unfolding is_live_proposal supported_proposal_window to_lower_case
  parse_entry key entry = do
    check (is_live_proposal key entry)
    parsed ← data_of (member_of (codes "DataString") entry)
    (first, last) ←
        supported_proposal_window (member_of (codes "start_epoch") parsed)
          (member_of (codes "end_epoch") parsed)
    some record { hash = to_lower_case key; start_epoch = first; end_epoch = last }

  abbrev pub keep_entry : Option Proposal → List Proposal → List Proposal
  keep_entry none ps = ps
  keep_entry (some p) ps = p ∷ ps

  unfoldable pub parse_fields : Fields → List Proposal
  unfolding parse_entry
  parse_fields end = []
  parse_fields (field key entry fs) = keep_entry (parse_entry key entry) (parse_fields fs)

  unfoldable pub parse_reminder_proposals : Js → List Proposal
  unfolding parse_fields
  parse_reminder_proposals (obj fs) = parse_fields fs
  parse_reminder_proposals _ = []
