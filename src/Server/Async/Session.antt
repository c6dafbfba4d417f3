-- ===== src/Server/Async/Session.antt =====
-- A connection that serves one call after the other.
use carrot_rpc.Prelude.{
  ℕ, ◌+◌, ◌^◌, ◌≤◌, ◌≡◌, refl, ap, sym, subst, ◌∙◌, inr, Bool, true, some, List, [], ◌∷◌, ◌++◌,
  Bytes, leb, length, arith,
}
use carrot_rpc.Asio.{no_error}
use carrot_rpc.Packet.{
  Packet, sizeof_packet, header_at, convert_to_network_order, convert_to_host_order,
}
use carrot_rpc.Packet.Order.{header-roundtrip}
use carrot_rpc.Buffer.{Buffer, ready, expand_packet}
use carrot_rpc.Buffer.Growth.{Holds, expand_packet-holds, expand_packet-Ready}
use carrot_rpc.Frame.{frame}
use carrot_rpc.Message.{IsCodec}
use carrot_rpc.Protob.Response
use carrot_rpc.Protob.Response.{Response}
use carrot_rpc.Server.Registry.{Services}
use carrot_rpc.Server.Simple.{Environment, packet_size, payload_size}
use carrot_rpc.Server.Async.{
  reading_header, reading_payload, writing_response, Connection, Ended, finished, and_then, serve,
}
use carrot_rpc.Server.Async.Handlers.{
  start_payload, handle_read_header, handle_read_payload, handle_write_response,
}
use carrot_rpc.Server.Async.Given.{reply, answer, CanSend, reply_size, reply_bytes, gives}
use carrot_rpc.Server.Async.Answer.{handle_read_payload-Answers}

-- A frame, cut where the connection reads it.
pub record Exchange : Type 0 where
  pub packet : Packet
  pub meta : Bytes
  pub param : Bytes
  pub extra : Bytes

abbrev pub request_size : Exchange → ℕ
request_size x = sizeof_packet + x.packet.rpc_len + x.packet.req_len + x.packet.resp_len

-- asio takes the pending handler of the connection in order to call it back.
abbrev pub without_handler : Connection → Connection
without_handler c = record c { pending = [] }

module _ {Msg : Type 0} (env : Environment Msg) (services : Services Msg) where
  abbrev pub then_call : Ended Connection → (Connection → Ended Connection) → Ended Connection
  then_call e handler = and_then e (λ c. c) (λ c. handler (without_handler c))

  -- The handlers that asio calls for one frame if every read and write succeeds, with the bytes that the reads
  -- deliver.
  abbrev pub exchange : Bytes → Bytes → Connection → Ended Connection
  exchange header payload c =
      then_call
        (then_call (handle_read_header env services no_error header (without_handler c))
          (handle_read_payload env services no_error payload))
        (handle_write_response env services no_error)

  abbrev pub converse : List Exchange → Connection → Ended Connection
  converse [] c = finished c
  converse (x ∷ xs) c =
      and_then (exchange (frame x.packet []) (x.meta ++ (x.param ++ x.extra)) c) (λ d. d)
        (converse xs)

-- A connection that waits for the next frame.
pub record Waits (c : Connection) : Type 0 where
  pub served : c.has_server ≡ true
  pub opened : c.opened ≡ true
  pub waiting : c.pending ≡ reading_header ∷ []
  pub held : Holds c.buffer sizeof_packet

module _ {Msg : Type 0} (env : Environment Msg) {ready_to_parse : Msg → Bool} {fits : Msg → Type 0}
    (responses : IsCodec env.responses Response.is_initialized Response.Fits)
    (messages : IsCodec env.messages ready_to_parse fits) (all : (k : ℕ) → env.grants k ≡ true)
    (services : Services Msg) where
  -- A frame whose header tells its parts, below 2 GB, and whose reply is not larger than it.
  pub record IsServed (x : Exchange) : Type 0 where
    pub rpc : x.packet.rpc_len ≡ length x.meta
    pub req : x.packet.req_len ≡ length x.param
    pub resp : x.packet.resp_len ≡ length x.extra
    pub small : request_size x ≤ 2 ^ 31
    pub response : Response
    pub message : Msg
    pub answers :
        answer env services (env.requests.parse_from_array x.meta) x.param ≡ reply response message
    pub sendable : CanSend env responses messages (reply response message)
    pub no_larger : reply_size env responses messages response message ≤ request_size x

  abbrev pub AllServed : List Exchange → Type 0
  AllServed [] = Unit {0}
  AllServed (x ∷ xs) = IsServed x × AllServed xs

  -- The replies on top of the frames that were sent before.
  abbrev pub with_replies : (xs : List Exchange) → AllServed xs → List Bytes → List Bytes
  with_replies [] served sent = sent
  with_replies (x ∷ xs) (a, as') sent =
      with_replies xs as' (reply_bytes env responses messages a.response a.message ∷ sent)

  -- The connection after the header of the frame was read.
  record HeaderRead (x : Exchange) (c : Connection) : Type 0 where
    buffer : Buffer
    held : Holds buffer (request_size x)
    goes_on :
        handle_read_header env services no_error (frame x.packet []) (without_handler c)
        ≡ finished (record c {
          buffer = buffer;
          header = x.packet;
          n = request_size x;
          pending = reading_payload ∷ [];
        })

  reads_header : (x : Exchange) (c : Connection) → IsServed x → Waits c → HeaderRead x c
  unfolding handle_read_header start_payload
  reads_header x c a w = record {
    buffer = b.0;
    held = b.2;
    goes_on =
        rw (image.0, handle_read_header)
          (rw image.1 (rw (whole, b.1, roomy, start_payload) (rw whole refl)));
  }
    where
      image :
          (header_at (frame x.packet []) ≡ some (convert_to_network_order x.packet, []))
          × (convert_to_host_order (convert_to_network_order x.packet) ≡ x.packet)
      image = header-roundtrip x.packet [] (record {
        rpc = omega (arith, a.small);
        req = omega (arith, a.small);
        resp = omega (arith, a.small);
      })

      whole : packet_size x.packet ≡ request_size x
      whole = omega (arith, a.small)

      b :
          (b : Buffer) × (expand_packet env.grants 32 c.buffer (request_size x) ≡ ready b)
          × Holds b (request_size x)
      b = expand_packet-Ready env.grants c.buffer (request_size x) all (inr (w.held.0)) a.small

      roomy : leb (sizeof_packet + payload_size x.packet) b.0.size ≡ true
      roomy = ground (arith, a.small, b.2)

  -- The connection after the reply was written.
  pub record Exchanged (x : Exchange) (a : IsServed x) (c : Connection) : Type 0 where
    pub after : Connection
    pub goes_on :
        exchange env services (frame x.packet []) (x.meta ++ (x.param ++ x.extra)) c
        ≡ finished after
    pub sent : after.sent ≡ reply_bytes env responses messages a.response a.message ∷ c.sent
    pub waits : Waits after

  pub exchanges : (x : Exchange) (a : IsServed x) (c : Connection) → Waits c → Exchanged x a c
  unfolding handle_write_response serve
  exchanges x a c w = record {
    after = record replied { pending = reading_header ∷ [] };
    goes_on = rw (h.goes_on) (rw answered (rw (again, serve) refl));
    sent = refl;
    waits = record { served = w.served; opened = w.opened; waiting = refl; held = small };
  }
    where
      h : HeaderRead x c
      h = reads_header x c a w

      read : Connection
      read = record c { buffer = h.buffer; header = x.packet; n = request_size x; pending = [] }

      replied : Connection
      replied = record read {
        pending = writing_response ∷ [];
        sent = reply_bytes env responses messages a.response a.message ∷ c.sent;
      }

      small : Holds h.buffer sizeof_packet
      small = (h.held.0, omega (arith, h.held.1))

      roomy : leb (reply_size env responses messages a.response a.message) h.buffer.size ≡ true
      roomy = ground (arith, h.held, a.no_larger)

      answered :
          handle_read_payload env services no_error (x.meta ++ (x.param ++ x.extra)) read
          ≡ finished replied
      answered =
          handle_read_payload-Answers env responses messages services read x.meta x.param x.extra
            (record {
              served = w.served;
              held = h.held;
              rpc = a.rpc;
              req = a.req;
              rpc_is_int = omega (arith, a.small);
              req_is_int = omega (arith, a.small);
            })
            (subst (CanSend env responses messages) (sym a.answers) a.sendable)
          ∙ ap (gives env responses messages read) a.answers
          ∙ rw roomy refl

      again : expand_packet env.grants 32 h.buffer sizeof_packet ≡ ready h.buffer
      again = expand_packet-holds env.grants 32 h.buffer sizeof_packet small.0 small.1

  -- What is left behind by a conversation.
  record Conversed (xs : List Exchange) (served : AllServed xs) (c : Connection) : Type 0 where
    after : Connection
    goes_on : converse env services xs c ≡ finished after
    sent : after.sent ≡ with_replies xs served c.sent
    waits : Waits after

  converses : (xs : List Exchange) (a : AllServed xs) (c : Connection) → Waits c → Conversed xs a c
  converses [] a c w = record { after = c; goes_on = refl; sent = refl; waits = w }
  converses (x ∷ xs) (a, as') c w =
      let first = exchanges x a c w in
      let rest = converses xs as' first.after first.waits in
      record {
        after = rest.after;
        goes_on = rw first.goes_on rest.goes_on;
        sent = rest.sent ∙ ap (with_replies xs as') first.sent;
        waits = rest.waits;
      }

  -- If the messages keep the contract of the library and the allocator grants every size, a connection that
  -- waits for a frame serves any number of frames one after the other, each announced by its
  -- header, not above 2 GB, and answered with a reply that is not larger than it, as long as
  -- asio reports no error: every handler returns, the replies are given to async_write in the order of the
  -- frames, and the connection waits for the next one.
  pub converse-Replies :
      (xs : List Exchange) (a : AllServed xs) (c : Connection)
      → Waits c
      → (d : Connection) × (converse env services xs c ≡ finished d)
        × Waits d
        × (d.sent ≡ with_replies xs a c.sent)
  converse-Replies xs a c w = let r = converses xs a c w in (r.after, r.goes_on, r.waits, r.sent)
