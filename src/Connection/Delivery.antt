-- ===== src/Connection/Delivery.antt =====
-- A message that one side sends is read by the other.
use go_irodsclient.Base.{
  ℕ, ◌+◌, ◌%◌, ◌^◌, ◌<◌, ◌≡◌, refl, ◌∙◌, true, [], ◌++◌, none, some, Bytes, arith, length, take,
  length-append, take-append, drop-append, append_assoc, append-nil,
}
use go_irodsclient.Message.{Header, Body, Message, contents, get_bytes_without_bs, build_header}
use go_irodsclient.Message.Frames.{Fits, filled, from_bytes-build_header}
use go_irodsclient.Connection.{
  ok, Conn, recv, recv_all, send, HeaderCodec, read_message, send_message, write_bytes, empty_body,
  read_message_header, put_uint32, uint32, header_of,
}
use go_irodsclient.Connection.Receive.{joined, read_bytes-take}

uint32-put_uint32 : (n : ℕ) → n < 2 ^ 32 → uint32 (put_uint32 n) ≡ n
unfolding uint32 put_uint32
uint32-put_uint32 n h = omega arith

-- The socket is open and still delivers `t`, in reads that report no error.
pub record Delivers (c : Conn) (t : Bytes) : Type 0 where
  pub open_ : c.socket ≡ true
  pub is_locked : c.locked ≡ true
  pub stream : joined c.incoming ≡ t

recv-Delivers :
    (c : Conn) (s t : Bytes)
    → Delivers c (s ++ t)
    → (c' : Conn) × (recv (length s) c ≡ (c', ok s)) × Delivers c' t
unfolding recv
recv-Delivers c s t d =
    let (rest, e, f) =
      read_bytes-take c.incoming (length s) (rw d.stream (omega (arith, length-append s t))) in
    let g : take (length s) (joined c.incoming) ≡ s = rw d.stream (take-append s t _ refl) in
    (
      record c { incoming = rest },
      ground (arith, d.open_, d.is_locked),
      record {
        open_ = d.open_;
        is_locked = d.is_locked;
        stream = f ∙ rw d.stream (drop-append s t _ refl);
      },
    )

recv_all-Delivers :
    (c : Conn) (n : ℕ) (s t : Bytes)
    → n ≡ length s
    → Delivers c (s ++ t)
    → (c' : Conn) × (recv_all n c ≡ (c', ok s)) × Delivers c' t
recv_all-Delivers c n s t h d =
    let (c', e, d') = recv-Delivers c s t d in (c', rw (h, e) (ground arith), d')

header_lengths :
    (b : Body)
    → Fits b
    → length (contents b.message) + length (contents b.error) < 2 ^ 32
    → (((build_header b).message_len + (build_header b).error_len) % 2 ^ 32
        ≡ length (get_bytes_without_bs b))
      × ((build_header b).bs_len ≡ length (contents b.bs))
unfolding build_header get_bytes_without_bs
header_lengths b f l = (
  omega (arith, f.message, f.error, length-append (contents b.message) (contents b.error)),
  omega (arith, f.bs),
)

header_kind :
    (b : Body) → ((build_header b).kind ≡ b.kind) × ((build_header b).int_info ≡ b.int_info)
unfolding build_header
header_kind b = (refl, refl)

module _ (xml : HeaderCodec) where
  read_message_header-Delivers :
      (c : Conn) (h : Header) (t : Bytes)
      → 0 < length (xml.marshal h)
      → length (xml.marshal h) < 2 ^ 32
      → Delivers c (put_uint32 (length (xml.marshal h)) ++ (xml.marshal h ++ t))
      → (c' : Conn) × (read_message_header xml c ≡ (c', ok h)) × Delivers c' t
  unfolding read_message_header
  read_message_header-Delivers c h t p q d =
      let n = length (xml.marshal h) in
      let (c1, e1, d1) =
        recv_all-Delivers c 4 (put_uint32 n) (xml.marshal h ++ t) (unfold put_uint32 in refl) d in
      let (c2, e2, d2) = recv_all-Delivers c1 n (xml.marshal h) t refl d1 in
      (c2, ground (arith, e1, e2, uint32-put_uint32 n q, xml.unmarshal-marshal h), d2)

  -- The frame of a message on the wire.
  abbrev frame : Header → Body → Bytes
  frame h b = put_uint32 (length (xml.marshal h)) ++ (xml.marshal h ++ get_bytes_without_bs b)

  send_message-frame :
      (c : Conn) (h : Header) (m : Message) (b : Body)
      → c.socket ≡ true
      → c.locked ≡ true
      → c.writable ≡ true
      → m.body ≡ some b
      → header_of xml m ≡ some h
      → length (xml.marshal h) < 2 ^ 32
      → (c' : Conn) × (send_message xml m c ≡ (c', ok tt))
        × (c'.outgoing ≡ (c.outgoing ++ frame h b) ++ contents b.bs)
  unfolding send_message send write_bytes
  send_message-frame c h m b s l w e f g = (
    record c { outgoing = (c.outgoing ++ frame h b) ++ contents b.bs },
    ground (arith, append-nil (c.outgoing ++ frame h b)),
    refl,
  )

  read_message-Delivers :
      (c : Conn) (b : Body) (rest : Bytes)
      → Fits b
      → length (contents b.message) + length (contents b.error) < 2 ^ 32
      → 0 < length (xml.marshal (build_header b))
      → length (xml.marshal (build_header b)) < 2 ^ 32
      → Delivers c (
          put_uint32 (length (xml.marshal (build_header b)))
          ++ (xml.marshal (build_header b) ++ (get_bytes_without_bs b ++ (contents b.bs ++ rest))))
      → (c' : Conn) × (read_message xml none c
          ≡ (c', ok (record { header = some (build_header b); body = some (filled b b) })))
        × Delivers c' rest
  unfolding read_message
  read_message-Delivers c b rest f l p q d =
      let h = build_header b in
      let text = get_bytes_without_bs b in
      let (n, k) = header_lengths b f l in
      let (c1, e1, d1) = read_message_header-Delivers c h (text ++ (contents b.bs ++ rest)) p q d in
      let (c2, e2, d2) = recv_all-Delivers c1 _ text (contents b.bs ++ rest) n d1 in
      let (c3, e3, d3) = recv_all-Delivers c2 h.bs_len (contents b.bs) rest k d2 in
      (
        c3,
        ground (
          arith,
          e1,
          e2,
          e3,
          d.open_,
          d.is_locked,
          header_kind b,
          from_bytes-build_header empty_body b f,
        ),
        d3,
      )

  -- A sender with nothing written yet sends a message whose header is the one built for its body; the body
  -- and its parts are shorter than 4 GiB, and the marshalled header is neither empty nor that long.
  -- If the receiver's socket delivers what was written and then `rest`, cut into pieces in any way, in reads that
  -- report no error (no byte of them comes together with io.EOF), then sending and reading succeed, the message that is read has that header and the
  -- same parts, and exactly `rest` remains.
  pub read_message-send_message :
      (sender receiver : Conn) (m : Message) (b : Body) (rest : Bytes)
      → sender.socket ≡ true
      → sender.locked ≡ true
      → sender.writable ≡ true
      → sender.outgoing ≡ []
      → m.body ≡ some b
      → header_of xml m ≡ some (build_header b)
      → Fits b
      → length (contents b.message) + length (contents b.error) < 2 ^ 32
      → 0 < length (xml.marshal (build_header b))
      → length (xml.marshal (build_header b)) < 2 ^ 32
      → Delivers receiver ((send_message xml m sender).0.outgoing ++ rest)
      → ((send_message xml m sender).1 ≡ ok tt)
        × ((c' : Conn) × (read_message xml none receiver
              ≡ (c', ok (record { header = some (build_header b); body = some (filled b b) })))
            × Delivers c' rest)
  read_message-send_message sender receiver m b rest s l w o e g f k p q d =
      let (c, sent, wire) = send_message-frame sender (build_header b) m b s l w e g q in
      let out : (send_message xml m sender).0.outgoing ≡ frame (build_header b) b ++ contents b.bs =
        ground (arith, sent, wire) in
      (
        ground (arith, sent),
        read_message-Delivers receiver b rest f k p q (simp append_assoc at (rw out at d)),
      )
