-- ===== src/Call/Reply.antt =====
-- The channel reads the reply to a call.
use carrot_rpc.Prelude.{
  ltb, ℕ, ◌+◌, ◌^◌, ◌≤◌, ◌≡◌, refl, ap, sym, ◌∙◌, subst, Bool, true, false, Option, some, [], ◌∷◌,
  ◌++◌, Bytes, leb, length, take, drop, arith, length-append, take-append, drop-append, take-all,
}
use carrot_rpc.Asio.{no_error}
use carrot_rpc.Packet.{
  Packet, sizeof_packet, u32, header_at, header_image, store_u32, convert_to_host_order,
  convert_to_network_order,
}
use carrot_rpc.Packet.Order.{header-roundtrip}
use carrot_rpc.Buffer.{Buffer, ready, expand_packet, IsConsistent}
use carrot_rpc.Buffer.Growth.{Holds, expand_packet-Ready, expand_packet-holds}
use carrot_rpc.Frame.{frame}
use carrot_rpc.Message.{IsCodec, parse_at}
use carrot_rpc.Protob.Response
use carrot_rpc.Protob.Response.{Response}
use carrot_rpc.Client.Async.{
  CallTask, reading_header, reading_payload, Connection, Environment, elem, find_task, on_task,
  finish_task, erase,
}
use carrot_rpc.Client.Async.Calls.{returned, start_read}
use carrot_rpc.Client.Async.Handlers.{
  payload_size, start_payload, handle_read_header, handle_read_payload, read_reply, complete_task,
  settle,
}
use carrot_rpc.Client.Async.Ending.{Settled, read_reply-Ends}
use carrot_rpc.Call.{drop_reader, without_reader, receive_reply}

-- A frame is read in two pieces.
pub take-frame : (p : Packet) (payload : Bytes) → take sizeof_packet (frame p payload) ≡ frame p []
unfolding header_image store_u32
take-frame p payload = refl

pub drop-frame : (p : Packet) (payload : Bytes) → drop sizeof_packet (frame p payload) ≡ payload
unfolding header_image store_u32
drop-frame p payload = refl

module _ {Msg : Type 0} (client : Environment Msg) {ready_to_parse : Msg → Bool}
    {fits : Msg → Type 0}
    (responses : IsCodec client.responses Response.is_initialized Response.Fits)
    (messages : IsCodec client.messages ready_to_parse fits)
    (all : (k : ℕ) → client.grants k ≡ true) where
  abbrev pub reply_header : Response → Msg → Packet
  reply_header r m = record {
    rpc_len = client.responses.byte_size r;
    req_len = 0;
    resp_len = client.messages.byte_size m;
  }

  abbrev pub reply_size : Response → Msg → ℕ
  reply_size r m = sizeof_packet + client.responses.byte_size r + client.messages.byte_size m

  -- The reply to a call that is outgoing and not over.
  pub record IsReply (r : Response) (m : Msg) (c : Connection Msg) (t : CallTask Msg) : Type 0 where
    pub rpc_fits : Response.Fits r
    pub rpc_complete : Response.is_initialized r ≡ true
    pub message_fits : fits m
    pub message_complete : ready_to_parse m ≡ true
    pub small : reply_size r m ≤ 2 ^ 31
    pub consistent : IsConsistent c.buffer
    pub outgoing : elem r.id c.outgoing_tasks ≡ true
    pub known : find_task r.id c.tasks ≡ some t
    pub open_call : t.called ≡ false

  module _ (r : Response) (m : Msg) (c : Connection Msg) (t : CallTask Msg)
      (k : IsReply r m c t) where
    abbrev payload : Bytes
    payload = responses.bytes_of r ++ messages.bytes_of m

    abbrev size : ℕ
    size = client.responses.byte_size r + client.messages.byte_size m

    new_block :
        (b : Buffer) × (expand_packet client.grants 32 c.buffer (size + sizeof_packet) ≡ ready b)
        × Holds b (size + sizeof_packet)
    new_block =
        expand_packet-Ready client.grants c.buffer (size + sizeof_packet) all k.consistent
          (omega (arith, k.small))

    -- The connection behind the header.
    abbrev header_read : Connection Msg
    header_read = record c {
      buffer = new_block.0;
      header = reply_header r m;
      n = size;
      pending = reading_payload ∷ drop_reader c.pending;
    }

    reads_header :
        handle_read_header client no_error (frame (reply_header r m) []) (without_reader c)
        ≡ returned header_read
    unfolding handle_read_header start_payload
    reads_header =
        rw (image.0, handle_read_header)
          (rw image.1 (rw sum (rw (whole, new_block.1, roomy, start_payload) refl)))
      where
        image :
            (header_at (frame (reply_header r m) [])
              ≡ some (convert_to_network_order (reply_header r m), []))
            × (convert_to_host_order (convert_to_network_order (reply_header r m))
                ≡ reply_header r m)
        image = header-roundtrip (reply_header r m) [] (record {
          rpc = omega (arith, k.small);
          req = omega arith;
          resp = omega (arith, k.small);
        })

        sum : payload_size (reply_header r m) ≡ size
        sum = omega (arith, k.small)

        whole : u32 (size + sizeof_packet) ≡ size + sizeof_packet
        whole = omega (arith, k.small)

        roomy : leb (size + sizeof_packet) new_block.0.size ≡ true
        roomy = ground (arith, new_block.2)

    -- The handler of the payload is taken.
    abbrev waiting : Connection Msg
    waiting = without_reader header_read

    start_read-returns :
        (d : Connection Msg)
        → d.buffer ≡ new_block.0
        → start_read client d ≡ returned (record d { pending = reading_header ∷ d.pending })
    unfolding start_read
    start_read-returns d same =
        rw (expand_packet-holds client.grants 32 d.buffer sizeof_packet held.0 held.1, start_read)
          refl
      where
        held : Holds d.buffer sizeof_packet
        held =
            subst (λ b. Holds b sizeof_packet) (sym same)
              (new_block.2.0, omega (arith, new_block.2.1))

    -- The connection behind the reply.
    answered : Connection Msg
    answered =
        let settled = on_task r.id (settle client r (some m)) waiting in
        finish_task client r.id (record settled {
          pending = reading_header ∷ settled.pending;
          outgoing_tasks = erase r.id settled.outgoing_tasks;
        })

    length-payload : length payload ≡ size
    length-payload = omega (
      arith,
      length-append (responses.bytes_of r) (messages.bytes_of m),
      responses.length-bytes_of r k.rpc_fits,
      messages.length-bytes_of m k.message_fits,
    )

    meta-payload : take (client.responses.byte_size r) payload ≡ responses.bytes_of r
    meta-payload =
        ap (λ n. take n payload) (sym (responses.length-bytes_of r k.rpc_fits))
        ∙ take-append (responses.bytes_of r) (messages.bytes_of m)

    param-payload :
        take (client.messages.byte_size m) (drop (client.responses.byte_size r) payload)
        ≡ messages.bytes_of m
    param-payload =
        ap (λ n. take (client.messages.byte_size m) (drop n payload))
          (sym (responses.length-bytes_of r k.rpc_fits))
        ∙ ap (take (client.messages.byte_size m))
            (drop-append (responses.bytes_of r) (messages.bytes_of m))
        ∙ ap (λ n. take n (messages.bytes_of m)) (sym (messages.length-bytes_of m k.message_fits))
        ∙ take-all (messages.bytes_of m)

    rpc_sized : ltb (client.responses.byte_size r) (2 ^ 31) ≡ true
    rpc_sized = ground (arith, responses.size_is_int r k.rpc_fits)

    resp_sized : ltb (client.messages.byte_size m) (2 ^ 31) ≡ true
    resp_sized = ground (arith, messages.size_is_int m k.message_fits)

    meta-parses :
        client.responses.parse_from_array (take (client.responses.byte_size r) payload) ≡ some r
    meta-parses =
        ap client.responses.parse_from_array meta-payload
        ∙ responses.parse-bytes_of r k.rpc_fits k.rpc_complete

    param-parses :
        client.messages.parse_from_array
          (take (client.messages.byte_size m) (drop (client.responses.byte_size r) payload))
        ≡ some m
    param-parses =
        ap client.messages.parse_from_array param-payload
        ∙ messages.parse-bytes_of m k.message_fits k.message_complete

    parsed : parse_at client.responses (client.responses.byte_size r) payload ≡ some r
    parsed = rw rpc_sized meta-parses

    parameter :
        parse_at client.messages
          (client.messages.byte_size m)
          (drop (client.responses.byte_size r) payload)
        ≡ some m
    parameter = rw resp_sized param-parses

    reads_payload : read_reply client payload waiting ≡ returned answered
    unfolding read_reply complete_task answered
    reads_payload =
        rw (rpc_sized, rpc, meta-parses, k.outgoing, resp_sized, both, param-parses, read_reply)
          (rw (start_read-returns (on_task r.id (settle client r (some m)) waiting) refl) refl)
      where
        rpc : leb (client.responses.byte_size r) (length payload) ≡ true
        rpc = ground (arith, length-payload)

        both :
            leb (client.responses.byte_size r + client.messages.byte_size m) (length payload) ≡ true
        both = ground (arith, length-payload)

  -- The call with this id is over and no longer outgoing.
  abbrev pub IsEnded : ℕ → CallTask Msg → Option Msg → Connection Msg → Type 0
  IsEnded id t o d =
      (u : CallTask Msg) × (find_task id d.tasks ≡ some u)
      × Settled client t o u
      × (elem id d.outgoing_tasks ≡ false)

  -- The channel that reads the frame of a reply to an outgoing call ends the call: done was run once more, and the
  -- response of the call is the message of the reply.
  pub receive_reply-settles :
      (r : Response) (m : Msg) (c : Connection Msg) (t : CallTask Msg)
      → IsReply r m c t
      → (d : Connection Msg) × (receive_reply client
            (frame (reply_header r m) (responses.bytes_of r ++ messages.bytes_of m))
            c
          ≡ some d)
        × IsEnded r.id t (some m) d
  unfolding handle_read_payload
  receive_reply-settles r m c t k = (
    answered r m c t k,
    rw (take-frame h payload', drop-frame h payload')
        (rw (reads_header r m c t k) (rw (reads_payload r m c t k, handle_read_payload) refl)),
    subst (λ o. IsEnded r.id t o (answered r m c t k)) (parameter r m c t k)
        (read_reply-Ends client payload' (waiting r m c t k) (answered r m c t k) r t
          (parsed r m c t k) k.outgoing k.known k.open_call (reads_payload r m c t k)),
  )
    where
      h : Packet
      h = reply_header r m

      payload' : Bytes
      payload' = responses.bytes_of r ++ messages.bytes_of m
