-- ===== src/Reminders/Tests.antt =====
-- lib/reminderDispatcher.js: runs of the model on small inputs.
use sysnode_backend.Base.{
  Option, false, Text, ℕ, ◌≡◌, ◌≤◌, refl, true, some, [], ◌∷◌, codes, pos, is_hex64, to_lower_case,
}
use sysnode_backend.Js.{bool, Js, str, int, arr, obj, field, end, nil, cons, property}
use sysnode_backend.Rows.{lookup}
use sysnode_backend.Receipts.Queries.{has_any_relayed_in_cycle}
use sysnode_backend.Receipts.Tests.{hash_a, empty_table}
use sysnode_backend.Reminders.{
  final_24h, LogKey, LogRow, log_key_eq, Proposal, in_hours, in_days, format_deadline_text,
}
use sysnode_backend.Reminders.Tick.{Snapshot, Cycle, Turn, Inputs, take_turn, sent, already_logged}
use sysnode_backend.Reminders.Proposals.{parse_reminder_proposals}
use sysnode_backend.Reminders.Once.{Turned, take_turn-Turned, mails_in_all, mails_in_all-IsBounded}

in_text : format_deadline_text 7200000 ≡ in_hours 2
unfolding format_deadline_text
in_text = refl

in_text_of_days : format_deadline_text 259200000 ≡ in_days 3
unfolding format_deadline_text
in_text_of_days = refl

abbrev pub now_ms : ℕ
now_ms = 1700000000000

-- 2228 blocks to go, of which 1728 are after the selection starts: 500 blocks of 150 seconds.
abbrev pub snapshot : Snapshot
snapshot = record {
  height = int (pos 100000);
  current_height = int (pos 97772);
  maturity_blocks = int (pos 1728);
  observed_at = int (pos now_ms);
}

abbrev pub raw_proposal : Js
raw_proposal = obj (
    field (codes "hash") (str hash_a) (
      field (codes "startEpoch") (int (pos 0))
        (field (codes "endEpoch") (int (pos 1800000000)) end)))

abbrev pub proposal : Proposal
proposal = record { hash = hash_a; start_epoch = 0; end_epoch = 1800000000 }

abbrev pub cycle : Cycle
cycle = record {
  height = 100000;
  observed_at = now_ms;
  sb_epoch_sec = 1700334200;
  ms_remaining = 75000000;
  bucket = final_24h;
}

abbrev pub turn : Turn
turn = record {
  user_id = 7;
  email = codes "a@mail.example";
  clock = now_ms;
  receipts = some empty_table;
  log_readable = true;
  accepted = true;
  log_writable = true;
}

abbrev pub inputs : Inputs
inputs = record {
  snapshot = some snapshot;
  now_ms = now_ms;
  proposals = some (arr (cons raw_proposal nil));
  candidates = some (turn ∷ []);
}

abbrev pub key : LogKey
key = record { user_id = 7; scope = 100000; bucket = final_24h }

abbrev pub row : LogRow
row = record { key = key; sent_at = now_ms }

sends : take_turn cycle (proposal ∷ []) now_ms turn [] ≡ (row ∷ [], sent)
unfolding take_turn lookup has_any_relayed_in_cycle is_hex64 to_lower_case
sends = refl

not_again : take_turn cycle (proposal ∷ []) now_ms turn (row ∷ []) ≡ (row ∷ [], already_logged)
unfolding take_turn lookup has_any_relayed_in_cycle is_hex64 to_lower_case
not_again = refl

take_turn-Turned_example :
    Turned cycle (proposal ∷ []) now_ms turn [] (take_turn cycle (proposal ∷ []) now_ms turn [])
take_turn-Turned_example = take_turn-Turned cycle (proposal ∷ []) now_ms turn []

mails_in_all-IsBounded_example : mails_in_all key (inputs ∷ inputs ∷ []) [] ≤ 1
mails_in_all-IsBounded_example =
    mails_in_all-IsBounded key (inputs ∷ inputs ∷ []) [] ((refl, tt), ((refl, tt), tt))

abbrev pub listed : Js
listed = obj (
    field hash_a
      (obj (
        field (codes "ObjectType") (int (pos 1)) (
          field (codes "fBlockchainValidity") (bool true) (
            field (codes "fCachedValid") (bool true) (
              field (codes "fCachedDelete") (bool false)
                (field (codes "DataString") (str (codes "data")) end))))))
      end)

abbrev pub parsed : Text → Option Js
parsed s = some (
    obj (
      field (codes "start_epoch") (int (pos 0))
        (field (codes "end_epoch") (int (pos 1800000000)) end)))

parses : parse_reminder_proposals parsed listed ≡ proposal ∷ []
unfolding parse_reminder_proposals property
parses = refl
