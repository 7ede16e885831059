-- ===== src/Types/Negotiation/Tests.antt =====
-- Runs of the negotiation.
use go_irodsclient.Base.{◌≡◌, refl, codes}
use go_irodsclient.Base.Text.{eq_text}
use go_irodsclient.Types.Negotiation.{perform_cs_negotiation, failure}
use go_irodsclient.Types.Negotiation.Agreement.{agreed, perform_cs_negotiation-agreed}

refused : perform_cs_negotiation (codes "CS_NEG_REFUSE") (codes "CS_NEG_REQUIRE") ≡ failure
unfolding perform_cs_negotiation eq_text
refused = refl

perform_cs_negotiation-agreed_example :
    perform_cs_negotiation (codes "CS_NEG_DONT_CARE") (codes "CS_NEG_REQUIRE")
    ≡ agreed (codes "CS_NEG_DONT_CARE") (codes "CS_NEG_REQUIRE")
perform_cs_negotiation-agreed_example =
    perform_cs_negotiation-agreed (codes "CS_NEG_DONT_CARE") (codes "CS_NEG_REQUIRE")
