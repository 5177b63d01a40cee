-- ===== src/Dispatcher/Errors.antt =====
-- lib/proposalDispatcher.js: how the messages of Core's errors are classified. A case-insensitive
-- pattern of fixed words is looked for in the lower-cased message.
use sysnode_backend.Base.{
  Bool, false, ◌||◌, List, [], ◌∷◌, Text, codes, to_lower_case, includes, if◌then◌else◌,
}

-- Some text of a list occurs in the message.
unfoldable pub matches_any : List Text → Text → Bool
matches_any [] msg = false
matches_any (p ∷ ps) msg = includes msg p || matches_any ps msg

-- TERMINAL_CORE_ERRORS; the optional group of one pattern is written as two.
abbrev pub terminal_core_errors : List Text
terminal_core_errors =
    codes "object creation rate limit exceeded"
    ∷ codes "object submission rejected"
    ∷ codes "governance object is not valid"
    ∷ codes "invalid parent hash"
    ∷ codes "invalid signature"
    ∷ codes "invalid object signature"
    ∷ codes "invalid object type"
    ∷ codes "invalid proposal"
    ∷ codes "invalid data hex"
    ∷ codes "hash mismatch"
    ∷ []

unfoldable pub is_duplicate_core_error : Text → Bool
is_duplicate_core_error msg = includes (to_lower_case msg) (codes "already exists")

unfoldable pub is_terminal_core_error : Text → Bool
is_terminal_core_error msg =
    if is_duplicate_core_error msg
    then false
    else matches_any terminal_core_errors (to_lower_case msg)

-- `/No such mempool or blockchain/i`
unfoldable pub is_unknown_transaction : Text → Bool
is_unknown_transaction msg = includes (to_lower_case msg) (codes "no such mempool or blockchain")
