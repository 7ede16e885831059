-- ===== src/Message/Frames.antt =====
-- A body survives its bytes and its header.
use go_irodsclient.Base.{
  ◌+◌, ◌^◌, ◌<◌, ◌≡◌, ◌↔◌, ◌⊎◌, none, some, ◌++◌, Bytes, arith, length, length-append, take-append,
  drop-append, take_all,
}
use go_irodsclient.Message.{Header, Body, contents, get_bytes_without_bs, from_bytes, build_header}

-- Each part of the body is shorter than 4 GiB, so that its length fits the header.
pub record Fits (b : Body) : Type 0 where
  pub message : length (contents b.message) < 2 ^ 32
  pub error : length (contents b.error) < 2 ^ 32
  pub bs : length (contents b.bs) < 2 ^ 32

-- The body as it is read: no part is nil.
abbrev pub filled : Body → Body → Body
filled receiver b = record receiver {
  message = some (contents b.message);
  error = some (contents b.error);
  bs = some (contents b.bs);
}

cut :
    (r : Body) (h : Header) (m e s : Bytes)
    → h.message_len ≡ length m
    → h.error_len ≡ length e
    → h.bs_len ≡ length s
    → from_bytes r h (m ++ e) s ≡ some (record r { message = some m; error = some e; bs = some s })
unfolding from_bytes
cut r h m e s hm he hs = ground (
  arith,
  length-append m e,
  take-append m e h.message_len hm,
  drop-append m e h.message_len hm,
  take_all e h.error_len,
  take_all s h.bs_len,
)

-- For a body whose parts are shorter than 4 GiB, reading the bytes of the body without its stream by
-- the header that was built for it, and the stream beside them, gives the three parts back.
pub from_bytes-build_header :
    (receiver b : Body)
    → Fits b
    → from_bytes receiver (build_header b) (get_bytes_without_bs b) (contents b.bs)
      ≡ some (filled receiver b)
unfolding build_header get_bytes_without_bs
from_bytes-build_header r b f =
    cut r (build_header b) (contents b.message) (contents b.error) (contents b.bs) (omega arith)
      (omega arith) (omega arith)

-- Reading fails exactly if a given text is shorter than the header says.
pub from_bytes-none :
    (receiver : Body) (h : Header) (body_bytes bs_bytes : Bytes)
    → (from_bytes receiver h body_bytes bs_bytes ≡ none)
      ↔ ((length body_bytes < h.message_len + h.error_len) ⊎ (length bs_bytes < h.bs_len))
unfolding from_bytes
from_bytes-none r h bb bs = ground arith
