-- ===== src/Types/Negotiation/Agreement.antt =====
-- What both sides get out of `perform_cs_negotiation`, and which requests parsing can give.
use go_irodsclient.Base.{Bool, Bytes, ◌&&◌, ◌||◌, ◌≡◌, arith, if◌then◌else◌}
use go_irodsclient.Base.Text.{eq_text, eq_text_iff}
use go_irodsclient.Types.Negotiation.{
  policy_request_tcp, policy_request_ssl, policy_request_dont_care, perform_cs_negotiation,
  CsNegotiationResult, failure, use_tcp, use_ssl,
}

-- The transports that a side accepts.
abbrev pub accepts_tcp : Bytes → Bool
accepts_tcp r = eq_text r policy_request_tcp || eq_text r policy_request_dont_care

abbrev pub accepts_ssl : Bytes → Bool
accepts_ssl r = eq_text r policy_request_ssl || eq_text r policy_request_dont_care

-- The outcome as an independent description: TCP if both accept it, else SSL if both accept that.
abbrev pub agreed : Bytes → Bytes → CsNegotiationResult
agreed c s =
    if accepts_tcp c && accepts_tcp s
    then use_tcp
    else if accepts_ssl c && accepts_ssl s
    then use_ssl
    else failure

-- For all two strings, known requests or not, the negotiation picks TCP when both sides accept TCP,
-- SSL when they accept only SSL in common, and fails when they accept nothing in common.
pub perform_cs_negotiation-agreed :
    (client server : Bytes) → perform_cs_negotiation client server ≡ agreed client server
unfolding perform_cs_negotiation eq_text
perform_cs_negotiation-agreed c s = ground (
  arith,
  eq_text_iff c s,
  eq_text_iff c policy_request_tcp,
  eq_text_iff c policy_request_ssl,
  eq_text_iff c policy_request_dont_care,
  eq_text_iff s policy_request_tcp,
  eq_text_iff s policy_request_ssl,
  eq_text_iff s policy_request_dont_care,
)
