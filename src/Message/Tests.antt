-- ===== src/Message/Tests.antt =====
-- Runs of the messages.
use go_irodsclient.Base.{◌≡◌, refl, none, some, codes}
use go_irodsclient.Message.{Header, Body, get_bytes}

abbrev reply : Body
reply = record {
  kind = codes "RODS_API_REPLY";
  message = some (codes "<x/>");
  error = none;
  bs = some (codes "data");
  int_info = 0;
}

abbrev nothing_read : Body
nothing_read = record {
  kind = codes "RODS_API_REPLY";
  message = none;
  error = none;
  bs = none;
  int_info = 0;
}

bytes_run : get_bytes reply ≡ codes "<x/>data"
unfolding get_bytes
bytes_run = refl

abbrev asks_for_ten : Header
asks_for_ten = record {
  kind = codes "RODS_API_REPLY";
  message_len = 10;
  error_len = 0;
  bs_len = 0;
  int_info = 0;
}
