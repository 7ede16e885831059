-- ===== src/Connection.antt =====
-- irods/connection/connection.go and irods/util/io.go: messages on a socket. The bytes that arrive come in
-- pieces as the network delivers them; encoding/xml is the interface `HeaderCodec`. Deadlines, counters
-- and callbacks leave the messages alone and are left out.
pub mod Receive
pub mod Delivery
mod Tests
use go_irodsclient.Base.{
  ℕ, zero, suc, ◌+◌, ◌-◌, ◌*◌, ◌/◌, ◌%◌, ◌^◌, ◌≡◌, Bool, true, false, ◌||◌, List, [], ◌∷◌, ◌++◌,
  Option, none, some, Bytes, ltb, leb, ◌==◌, if◌then◌else◌, length, take, drop, get_or,
}
use go_irodsclient.Message.{
  Header, Body, Message, contents, get_bytes_without_bs, from_bytes, make_irods_message_header,
}

-- What one `socket.Read` meets: a piece of the stream; a piece that it returns together with io.EOF, as the last one,
-- or with another error; or such an error alone. The end of the stream without bytes is the empty list. A read that
-- has no room for all of a piece leaves the rest, with its error, for the next one.
pub data Arrival : Type 0 where
  piece : Bytes → Arrival
  last_piece : Bytes → Arrival
  broken_piece : Bytes → Arrival
  read_error : Arrival

-- The part of IRODSConnection that sending and receiving touch, with the socket's two directions;
-- `writable` says whether a write goes through.
pub record Conn : Type 0 where
  pub connected : Bool
  pub failed : Bool
  pub locked : Bool
  pub socket : Bool
  pub incoming : List Arrival
  pub outgoing : Bytes
  pub writable : Bool

pub data Result {ℓ} (A : Type ℓ) : Type ℓ where
  ok : A → Result A
  eof : Result A
  err : Result A

-- A method: the connection before, the connection after and the result.
abbrev pub M : Type 0 → Type 0
M A = Conn → Conn × Result A

abbrev pub pure : {A : Type 0} → A → M A
pure a c = (c, ok a)

abbrev pub fail : {A : Type 0} → M A
fail c = (c, err)

abbrev pub bind_result : {A B : Type 0} → Conn → Result A → (A → M B) → Conn × Result B
bind_result c (ok a) f = f a c
bind_result c eof f = (c, eof)
bind_result c err f = (c, err)

infixl 5 ◌>>=◌ ◌>>◌
abbrev pub ◌>>=◌ : {A B : Type 0} → M A → (A → M B) → M B
◌>>=◌ m f c = let (c', r) = m c in bind_result c' r f

abbrev pub ◌>>◌ : {B : Type 0} → M (Unit {0}) → M B → M B
m >> k = m >>= λ _. k

-- disconnectNow and socketFail
unfoldable pub disconnect_now : Conn → Conn
disconnect_now c = record c { connected = false; socket = false }

unfoldable pub socket_fail : Conn → Conn
unfolding disconnect_now
socket_fail c = disconnect_now (record c { failed = true })

abbrev pub prepend : Bytes → Result Bytes → Result Bytes
prepend s (ok t) = ok (s ++ t)
prepend s eof = eof
prepend s err = err

-- ReadBytesWithTrackerCallBack: the loop over `socket.Read(buffer[actualRead:size])`. A read gives at most
-- the room that is left, and the rest of the piece stays; an error that comes with bytes ends the loop as one that
-- comes alone, even if the buffer is full by then. The result has what arrives next.
unfoldable pub read_bytes : List Arrival → ℕ → List Arrival × Result Bytes
read_bytes [] n = ([], if n == 0 then ok [] else eof)
read_bytes (read_error ∷ rest) n = if n == 0 then (read_error ∷ rest, ok []) else (rest, err)
read_bytes (piece s ∷ rest) n =
    let more = read_bytes rest (n - length s) in
    if n == 0
    then (piece s ∷ rest, ok [])
    else if ltb n (length s)
    then (piece (drop n s) ∷ rest, ok (take n s))
    else (more.0, prepend s more.1)
read_bytes (last_piece s ∷ rest) n =
    if n == 0
    then (last_piece s ∷ rest, ok [])
    else if ltb n (length s)
    then (last_piece (drop n s) ∷ rest, ok (take n s))
    else ([], eof)
read_bytes (broken_piece s ∷ rest) n =
    if n == 0
    then (broken_piece s ∷ rest, ok [])
    else if ltb n (length s)
    then (broken_piece (drop n s) ∷ rest, ok (take n s))
    else (rest, err)

-- WriteBytesWithTrackerCallBack makes no write for an empty buffer.
unfoldable pub write_bytes : Conn → Bytes → Bool
write_bytes c s = (length s == 0) || c.writable

-- `if conn.socket == nil { return error }` and `if !conn.locked { return error }`
abbrev pub require : (Conn → Bool) → M (Unit {0})
require test c = (c, if test c then ok tt else err)

-- SendWithTrackerCallBack
unfoldable pub send : Bytes → M (Unit {0})
unfolding write_bytes socket_fail
send s = do
  require (λ c. c.socket)
  require (λ c. c.locked)
  λ c.
      if write_bytes c s
      then (record c { outgoing = c.outgoing ++ s }, ok tt)
      else (socket_fail c, err)

abbrev pub after_read : Conn → Result Bytes → Conn × Result Bytes
after_read c (ok s) = (c, ok s)
after_read c eof = (disconnect_now c, eof)
after_read c err = (socket_fail c, err)

-- RecvWithTrackerCallBack
unfoldable pub recv : ℕ → M Bytes
unfolding read_bytes
recv n = do
  require (λ c. c.socket)
  require (λ c. c.locked)
  λ c. let (rest, r) = read_bytes c.incoming n in after_read (record c { incoming = rest }) r

-- `Recv` behind the test that all was read.
abbrev pub recv_all : ℕ → M Bytes
recv_all n = do s ← recv n; if length s == n then pure s else fail

-- SetReadTimeout and SetWriteTimeout, for deadlines that the socket takes.
abbrev pub set_timeout : M (Unit {0})
set_timeout = do require (λ c. c.socket); require (λ c. c.locked)

-- binary.BigEndian
unfoldable pub put_uint32 : ℕ → Bytes
put_uint32 n = n / 2 ^ 24 % 256 ∷ n / 2 ^ 16 % 256 ∷ n / 2 ^ 8 % 256 ∷ n % 256 ∷ []

unfoldable pub uint32 : Bytes → ℕ
uint32 s = get_or s 0 0 * 2 ^ 24 + get_or s 1 0 * 2 ^ 16 + get_or s 2 0 * 2 ^ 8 + get_or s 3 0

abbrev pub of_option : {A : Type 0} → Option A → M A
of_option none = fail
of_option (some a) = pure a

-- encoding/xml on headers: what is marshalled is unmarshalled to the same header.
pub record HeaderCodec : Type 0 where
  pub marshal : Header → Bytes
  pub unmarshal : Bytes → Option Header
  pub unmarshal-marshal : (h : Header) → unmarshal (marshal h) ≡ some h

abbrev empty_body : Body
empty_body = record { kind = []; message = none; error = none; bs = none; int_info = 0 }

module _ (xml : HeaderCodec) where
  -- The header that goes with a message: its own, or one made for its body.
  unfoldable pub header_of : Message → Option Header
  header_of m = elim m.header [
    | some h ↦ some h
    | none ↦ elim m.body [
      | none ↦ none
      | some b ↦ some (
          make_irods_message_header b.kind (length (contents b.message)) (length (contents b.error))
            (length (contents b.bs)) b.int_info)
    ]
  ]

  abbrev body_bytes : Option Body → Bytes
  body_bytes none = []
  body_bytes (some b) = get_bytes_without_bs b

  abbrev send_bs : Option Body → M (Unit {0})
  send_bs none = pure tt
  send_bs (some b) = elim b.bs [ none ↦ pure tt | some s ↦ send s ]

  -- SendMessageWithTrackerCallBack
  unfoldable pub send_message : Message → M (Unit {0})
  unfolding header_of send
  send_message m = do
    require (λ c. c.locked)
    h ← of_option (header_of m)
    let header_bytes = xml.marshal h
    set_timeout
    send (put_uint32 (length header_bytes % 2 ^ 32) ++ (header_bytes ++ body_bytes m.body))
    send_bs m.body

  -- readMessageHeader
  unfoldable pub read_message_header : M Header
  unfolding recv
  read_message_header = do
    prefix ← recv_all 4
    let header_size = uint32 prefix
    if header_size == 0 then fail else pure tt
    text ← recv_all header_size
    of_option (xml.unmarshal text)

  abbrev buffer_fits : Option ℕ → ℕ → Bool
  buffer_fits none n = true
  buffer_fits (some room) n = leb n room

  -- ReadMessageWithTrackerCallBack; the argument is the length of the buffer, if one is given.
  unfoldable pub read_message : Option ℕ → M Message
  unfolding read_message_header recv
  read_message bs_buffer = do
    require (λ c. c.locked)
    set_timeout
    h ← read_message_header
    if buffer_fits bs_buffer h.bs_len then pure tt else fail
    text ← recv_all ((h.message_len + h.error_len) % 2 ^ 32)
    stream ← recv_all h.bs_len
    b ← of_option (from_bytes empty_body h text stream)
    pure (record {
      header = some h;
      body = some (record b { kind = h.kind; int_info = h.int_info });
    })
