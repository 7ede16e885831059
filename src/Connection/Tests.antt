-- ===== src/Connection/Tests.antt =====
-- Runs of sending and receiving, with a codec that keeps the fields of a header as numbers.
use go_irodsclient.Base.{
  ◌≡◌, refl, true, false, List, [], ◌∷◌, ◌++◌, Option, none, some, Bytes, codes, arith,
}
use go_irodsclient.Message.{Header, Body, Message, build_header, get_bytes_without_bs}
use go_irodsclient.Message.Frames.{filled}
use go_irodsclient.Connection.{
  Arrival, piece, last_piece, read_error, ok, eof, Conn, HeaderCodec, send_message, read_message,
  read_bytes, put_uint32,
}
use go_irodsclient.Connection.Receive.{joined, read_bytes-take}
use go_irodsclient.Connection.Delivery.{Delivers, read_message-send_message}

abbrev toy_unmarshal : Bytes → Option Header
toy_unmarshal (m ∷ e ∷ b ∷ i ∷ kind) =
    some (record { kind = kind; message_len = m; error_len = e; bs_len = b; int_info = i })
toy_unmarshal _ = none

abbrev toy_codec : HeaderCodec
toy_codec = record {
  marshal = λ h. h.message_len ∷ h.error_len ∷ h.bs_len ∷ h.int_info ∷ h.kind;
  unmarshal = toy_unmarshal;
  unmarshal-marshal = λ h. refl;
}

abbrev hello : Body
hello = record {
  kind = codes "RODS_API_REQ";
  message = some (codes "<a/>");
  error = none;
  bs = some (codes "xyz");
  int_info = 702;
}

abbrev to_send : Message
to_send = record { header = some (build_header hello); body = some hello }

abbrev sender : Conn
sender = record {
  connected = true;
  failed = false;
  locked = true;
  socket = true;
  incoming = [];
  outgoing = [];
  writable = true;
}

-- The stream in two pieces, then a failure.
abbrev receiver : Conn
receiver = record {
  connected = true;
  failed = false;
  locked = true;
  socket = true;
  incoming =
      piece (0 ∷ 0 ∷ 0 ∷ 16 ∷ 4 ∷ 0 ∷ 3 ∷ [])
      ∷ piece ((702 ∷ codes "RODS_API_REQ") ++ codes "<a/>xyz")
      ∷ read_error
      ∷ [];
  outgoing = [];
  writable = true;
}

-- The bytes that were asked for are lost if the end of the stream is reported with the last of them.
ends_with_bytes :
    (read_bytes (piece (1 ∷ 2 ∷ []) ∷ last_piece (3 ∷ 4 ∷ []) ∷ []) 4 ≡ ([], eof))
    × (read_bytes (piece (1 ∷ 2 ∷ []) ∷ last_piece (3 ∷ 4 ∷ []) ∷ []) 3
        ≡ (last_piece (4 ∷ []) ∷ [], ok (1 ∷ 2 ∷ 3 ∷ [])))
unfolding read_bytes
ends_with_bytes = (refl, refl)

read_bytes-take_example :
    (rest : List Arrival) × (read_bytes (piece (1 ∷ 2 ∷ []) ∷ piece (3 ∷ 4 ∷ []) ∷ []) 3
      ≡ (rest, ok (1 ∷ 2 ∷ 3 ∷ [])))
    × (joined rest ≡ 4 ∷ [])
read_bytes-take_example =
    read_bytes-take (piece (1 ∷ 2 ∷ []) ∷ piece (3 ∷ 4 ∷ []) ∷ []) 3 (omega arith)

read_message-send_message_example :
    ((send_message toy_codec to_send sender).1 ≡ ok tt)
    × ((c' : Conn) × (read_message toy_codec none receiver ≡ (
      c',
      ok (record { header = some (build_header hello); body = some (filled hello hello) }),
    ))
        × Delivers c' [])
unfolding build_header send_message put_uint32 get_bytes_without_bs
read_message-send_message_example =
    read_message-send_message toy_codec sender receiver to_send hello [] refl refl refl refl refl
      refl (omega arith) (omega arith) (omega arith) (omega arith)
      (record { open_ = refl; is_locked = refl; stream = refl })
