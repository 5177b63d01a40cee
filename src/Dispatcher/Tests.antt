-- ===== src/Dispatcher/Tests.antt =====
-- lib/proposalDispatcher.js: runs of the model on small inputs.
use sysnode_backend.Base.{
  ◌≡◌, ◌↔◌, refl, true, false, some, [], ◌∷◌, codes, pos, is_hex64, is_lower_hex64, to_lower_case,
  includes, trim, is_space, trim_start, trim_end,
}
use sysnode_backend.Js.{str}
use sysnode_backend.Rows.{lookup, update_where}
use sysnode_backend.Submissions.Types.{Submission}
use sysnode_backend.Submissions.Transitions.{
  update_confirmations, mark_submitted, submit_write, to_submitted, with_confs,
}
use sysnode_backend.Submissions.Tests.{waiting, one_waiting}
use sysnode_backend.Dispatcher.Errors.{is_terminal_core_error, is_duplicate_core_error, matches_any}
use sysnode_backend.Dispatcher.Advance.{
  default_options, World, transaction, returned, gobject_submit, on_submitted, advance,
  advance_found, write_confs, submit, submit_returned, promote, after_mark, tracked_detail,
}
use sysnode_backend.Dispatcher.Effects.{AllRecorded, advance-AllRecorded}
use sysnode_backend.Dispatcher.Calls.{calls_core, IsConfirmed, advance-calls_core}
use sysnode_backend.Dispatcher.Settles.{IsSettled, promote-IsSettled}
use sysnode_backend.Receipts.Tests.{hash_a, hash_b}

-- Core reports six confirmations and accepts the object; no other worker is there.
abbrev pub calm : World
calm = record {
  transaction_answer = transaction (some (pos 6));
  fetched_at = 3000;
  while_fetching = λ t. t;
  submit_answer = returned (str hash_b);
  submitted_at = 4000;
  while_submitting = λ t. t;
  while_marking = λ t. t;
  while_failing = λ t. t;
}

abbrev pub counted : Submission
counted = with_confs 6 3000 waiting

advances : advance default_options waiting calm one_waiting ≡ (
  record { rows = to_submitted hash_b 4000 counted ∷ []; next_id = 2 },
  gobject_submit (codes "0") (pos 1) 1700000000 (codes "7b7d") hash_a
      ∷ on_submitted (to_submitted hash_b 4000 counted)
      ∷ [],
)
unfolding advance advance_found write_confs update_confirmations update_where lookup submit
    submit_returned is_lower_hex64 trim trim_start trim_end is_space to_lower_case promote
    after_mark mark_submitted submit_write is_hex64
advances = refl

-- The words of Core's errors.
terminal_message : is_terminal_core_error (codes "Invalid parent hash (code -1)") ≡ true
unfolding is_terminal_core_error is_duplicate_core_error matches_any includes to_lower_case
terminal_message = refl

transient_message : is_terminal_core_error (codes "invalid JSON-RPC response") ≡ false
unfolding is_terminal_core_error is_duplicate_core_error matches_any includes to_lower_case
transient_message = refl

advance-AllRecorded_example : AllRecorded 1 (advance default_options waiting calm one_waiting)
advance-AllRecorded_example = advance-AllRecorded default_options waiting calm one_waiting

advance-calls_core_example :
    (calls_core (advance default_options waiting calm one_waiting).1 ≡ true)
    ↔ IsConfirmed default_options waiting (transaction (some (pos 6)))
advance-calls_core_example = advance-calls_core default_options waiting calm one_waiting

promote-IsSettled_example : IsSettled 1 (promote 1 hash_b tracked_detail calm one_waiting).0
unfolding lookup is_hex64
promote-IsSettled_example =
    promote-IsSettled 1 hash_b tracked_detail calm one_waiting waiting refl refl refl refl refl
