-- ===== src/Types/Negotiation.antt =====
-- irods/types/cs_negotiation.go: the client-server negotiation of TCP or SSL. Requests are strings, as
-- in the source, so that the fall-through branches for unknown strings are present.
pub mod Agreement
mod Tests
use go_irodsclient.Base.{Bool, Bytes, ◌||◌, codes, if◌then◌else◌}
use go_irodsclient.Base.Text.{eq_text, to_lower, to_upper, trim_space}

-- CSNegotiation
pub data CsNegotiation : Type 0 where
  request_server_negotiation off : CsNegotiation

unfoldable pub get_cs_negotiation : Bytes → CsNegotiation
get_cs_negotiation negotiation =
    let s = trim_space (to_lower negotiation) in
    if eq_text s (codes "request_server_negotiation") || eq_text s (codes "request")
    then request_server_negotiation
    else if eq_text s (codes "off") || (eq_text s (codes "none") || eq_text s (codes ""))
    then off
    else off

-- CSNegotiationPolicyRequest is a string type with three constants.
abbrev pub policy_request_tcp : Bytes
policy_request_tcp = codes "CS_NEG_REFUSE"

abbrev pub policy_request_ssl : Bytes
policy_request_ssl = codes "CS_NEG_REQUIRE"

abbrev pub policy_request_dont_care : Bytes
policy_request_dont_care = codes "CS_NEG_DONT_CARE"

unfoldable pub get_cs_negotiation_policy_request : Bytes → Bytes
get_cs_negotiation_policy_request request =
    let s = trim_space (to_upper request) in
    if eq_text s policy_request_tcp || eq_text s (codes "TCP")
    then policy_request_tcp
    else if eq_text s policy_request_ssl || eq_text s (codes "SSL")
    then policy_request_ssl
    else if eq_text s policy_request_dont_care
        || (eq_text s (codes "DONT_CARE") || eq_text s (codes ""))
    then policy_request_dont_care
    else policy_request_tcp

-- CSNegotiationResult
pub data CsNegotiationResult : Type 0 where
  failure use_tcp use_ssl : CsNegotiationResult

unfoldable pub get_cs_negotiation_result : Bytes → CsNegotiationResult
get_cs_negotiation_result policy =
    let s = trim_space (to_upper policy) in
    if eq_text s (codes "CS_NEG_USE_TCP") || eq_text s (codes "TCP")
    then use_tcp
    else if eq_text s (codes "CS_NEG_USE_SSL") || eq_text s (codes "SSL")
    then use_ssl
    else if eq_text s (codes "CS_NEG_FAILURE") || eq_text s (codes "FAILURE")
    then failure
    else failure

unfoldable pub perform_cs_negotiation : Bytes → Bytes → CsNegotiationResult
perform_cs_negotiation client server =
    if eq_text server policy_request_dont_care
    then (if eq_text client policy_request_dont_care || eq_text client policy_request_tcp
        then use_tcp
        else if eq_text client policy_request_ssl
        then use_ssl
        else failure)
    else if eq_text client policy_request_dont_care
    then (if eq_text server policy_request_tcp
        then use_tcp
        else if eq_text server policy_request_ssl
        then use_ssl
        else failure)
    else if eq_text client server
    then (if eq_text client policy_request_tcp
        then use_tcp
        else if eq_text client policy_request_ssl
        then use_ssl
        else failure)
    else failure
