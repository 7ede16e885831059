-- ===== src/Message.antt =====
-- irods/message/message.go: headers and bodies of messages. A Go slice that may be nil is an `Option`.
pub mod Frames
mod Tests
use go_irodsclient.Base.{
  ℕ, ◌+◌, ◌%◌, ◌^◌, Option, none, some, [], ◌++◌, Bytes, ltb, if◌then◌else◌, length, take, drop,
}

-- IRODSMessageHeader, its lengths below 2 ^ 32; `int_info` is an int32 as its bit pattern.
pub record Header : Type 0 where
  pub kind : Bytes
  pub message_len : ℕ
  pub error_len : ℕ
  pub bs_len : ℕ
  pub int_info : ℕ

-- IRODSMessageBody
pub record Body : Type 0 where
  pub kind : Bytes
  pub message : Option Bytes
  pub error : Option Bytes
  pub bs : Option Bytes
  pub int_info : ℕ

-- IRODSMessage
pub record Message : Type 0 where
  pub header : Option Header
  pub body : Option Body

-- What is written for a slice, and its length: nothing for nil.
abbrev pub contents : Option Bytes → Bytes
contents none = []
contents (some s) = s

-- MakeIRODSMessageHeader, with the conversions of the lengths to uint32 that its callers make.
unfoldable pub make_irods_message_header : Bytes → ℕ → ℕ → ℕ → ℕ → Header
make_irods_message_header kind message_len error_len bs_len int_info = record {
  kind = kind;
  message_len = message_len % 2 ^ 32;
  error_len = error_len % 2 ^ 32;
  bs_len = bs_len % 2 ^ 32;
  int_info = int_info;
}

unfoldable pub get_bytes : Body → Bytes
get_bytes b = (contents b.message ++ contents b.error) ++ contents b.bs

unfoldable pub get_bytes_without_bs : Body → Bytes
get_bytes_without_bs b = contents b.message ++ contents b.error

-- FromBytes on a receiver; `none` is its error.
unfoldable pub from_bytes : Body → Header → Bytes → Bytes → Option Body
from_bytes b h body_bytes bs_bytes =
    if ltb (length body_bytes) (h.message_len + h.error_len)
    then none
    else if ltb (length bs_bytes) h.bs_len
    then none
    else some (record b {
      message = some (take h.message_len body_bytes);
      error = some (take h.error_len (drop h.message_len body_bytes));
      bs = some (take h.bs_len bs_bytes);
    })

unfoldable pub build_header : Body → Header
unfolding make_irods_message_header
build_header b =
    make_irods_message_header b.kind (length (contents b.message)) (length (contents b.error))
      (length (contents b.bs)) b.int_info
