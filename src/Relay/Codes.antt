-- ===== src/Relay/Codes.antt =====
-- lib/gov.js: the codes that Core's refusals are mapped to.
use sysnode_backend.Base.{
  Bool, ◌||◌, Text, codes, to_lower_case, includes, same_text, if◌then◌else◌,
}

-- `classifyRpcError` of a message that is a string.
unfoldable pub classify_rpc_error : Text → Text
classify_rpc_error msg =
    let s = to_lower_case msg in
    if includes s (codes "failure to find masternode")
    then codes "mn_not_found"
    else if includes s (codes "failure to verify vote")
    then codes "signature_invalid"
    else if includes s (codes "masternode voting too often")
    then codes "vote_too_often"
    else if includes s (codes "governance object not found")
    then codes "proposal_not_found"
    else if includes s (codes "invalid vote signal")
    then codes "invalid_vote_signal"
    else if includes s (codes "invalid vote outcome")
    then codes "invalid_vote_outcome"
    else if includes s (codes "malformed base64")
    then codes "signature_malformed"
    else if includes s (codes "already known valid vote")
    then codes "already_voted"
    else codes "rpc_error"

unfoldable pub is_duplicate_vote_code : Text → Bool
is_duplicate_vote_code code =
    same_text code (codes "already_voted") || same_text code (codes "vote_too_often")
