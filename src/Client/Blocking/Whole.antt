-- ===== src/Client/Blocking/Whole.antt =====
-- CallMethod from the request to the reply.
use carrot_rpc.Prelude.{
  ℕ, ◌+◌, ◌^◌, ◌≤◌, ◌<◌, ◌≡◌, refl, ◌∙◌, Bool, true, ◌++◌, Bytes, length, ltb, length-append, arith,
}
use carrot_rpc.Packet.{Packet, u32, sizeof_packet, header_image, store_u32}
use carrot_rpc.Io.{Socket, count_serves}
use carrot_rpc.Io.Writing.{Sent, writes}
use carrot_rpc.Frame.{frame}
use carrot_rpc.Message.{IsCodec}
use carrot_rpc.Protob.Request
use carrot_rpc.Protob.Request.{Request}
use carrot_rpc.Controller.{Controller}
use carrot_rpc.Client.Blocking.{
  CallEnd, Environment, request_of, read_lengths, send_packet, call_method,
}
use carrot_rpc.Client.Blocking.Call.{reply_end, Answers, Ended, read_lengths-Ended}

module _ {Msg : Type 0} (env : Environment Msg) {ready_to_parse : Msg → Bool} {fits : Msg → Type 0}
    (requests : IsCodec env.requests Request.is_initialized Request.Fits)
    (messages : IsCodec env.messages ready_to_parse fits) (all : (k : ℕ) → env.grants k ≡ true)
    (controller : Controller) (method_identity : Bytes) (request : Msg) where
  -- The request on the wire.
  abbrev pub request_header : Packet
  request_header = record {
    rpc_len = env.requests.byte_size (request_of method_identity);
    req_len = env.messages.byte_size request;
    resp_len = 0;
  }

  abbrev pub request_bytes : Bytes
  request_bytes =
      frame request_header
        (requests.bytes_of (request_of method_identity) ++ messages.bytes_of request)

  abbrev pub request_size : ℕ
  request_size =
      sizeof_packet
      + env.requests.byte_size (request_of method_identity)
      + env.messages.byte_size request

  -- What a call asks for: messages that the library takes, and a reply that the peer sends.
  pub record CanCall (s : Socket) (p : Packet) (meta param rest : Bytes) : Type 0 where
    pub rpc_fits : Request.Fits (request_of method_identity)
    pub req_fits : fits request
    pub size_is_int :
        env.requests.byte_size (request_of method_identity) + env.messages.byte_size request
        < 2 ^ 31
    pub answer : Answers s p meta param rest
    pub enough : request_size + (12 + p.rpc_len + p.resp_len) ≤ count_serves s.turns

  pub record Completed (s : Socket) (meta param rest : Bytes) (result : CallEnd Msg) : Type 0 where
    pub after : Socket
    pub returned :
        result
        ≡ reply_end env controller all
            (env.responses.parse_from_array meta)
            (env.messages.parse_from_array param)
            after
    pub input : after.input ≡ rest
    pub output : after.output ≡ s.output ++ request_bytes

  length-request_bytes :
      Request.Fits (request_of method_identity) → fits request → length request_bytes ≡ request_size
  unfolding header_image store_u32
  length-request_bytes f g = omega (
    arith,
    length-append (requests.bytes_of (request_of method_identity)) (messages.bytes_of request),
    requests.length-bytes_of (request_of method_identity) f,
    messages.length-bytes_of request g,
  )

  -- The request is serialized whole.
  call_method-sends :
      (s : Socket)
      → Request.Fits (request_of method_identity)
      → fits request
      → env.requests.byte_size (request_of method_identity) + env.messages.byte_size request
        < 2 ^ 31
      → call_method env controller method_identity request s
        ≡ send_packet env controller request_size request_header
            (requests.bytes_of (request_of method_identity) ++ messages.bytes_of request)
            s
  unfolding call_method
  call_method-sends s f g is_int =
      rw (u_rpc, u_req, u_sum)
        (rw
          (
            all request_size,
            sum_sized,
            requests.serialize (request_of method_identity) sum f (omega arith),
          )
          (rw (u_req, req_sized)
            (rw (messages.serialize request (env.messages.byte_size request) g (omega arith))
              (rw (u_rpc, u_req) refl))))
    where
      sum : ℕ
      sum = env.requests.byte_size (request_of method_identity) + env.messages.byte_size request

      sum_sized : ltb sum (2 ^ 31) ≡ true
      sum_sized = ground (arith, is_int)

      req_sized : ltb (env.messages.byte_size request) (2 ^ 31) ≡ true
      req_sized = ground (arith, is_int)

      rpc_small : env.requests.byte_size (request_of method_identity) < 2 ^ 31
      rpc_small = requests.size_is_int (request_of method_identity) f

      req_small : env.messages.byte_size request < 2 ^ 31
      req_small = messages.size_is_int request g

      u_rpc :
          u32 (env.requests.byte_size (request_of method_identity))
          ≡ env.requests.byte_size (request_of method_identity)
      u_rpc = omega (arith, rpc_small)

      u_req : u32 (env.messages.byte_size request) ≡ env.messages.byte_size request
      u_req = omega (arith, req_small)

      u_sum : u32 sum ≡ sum
      u_sum = omega (arith, rpc_small, req_small)

  -- If the messages of the call are such that the library takes them and are together below 2 GB,
  -- the kernel answers with nothing worse than interruptions and serves enough calls, the allocator
  -- grants every size, and the peer's stream goes on with the frame of a reply without a request
  -- parameter, whose metadata and message are each below 2 GB and together below 4 GB, CallMethod
  -- writes the request, with its metadata and its parameter whole and their lengths in the header,
  -- reads exactly the reply, and calls done with the state that the reply describes: the status of
  -- the metadata in the controller, and the message of the parameter, or the error for the part that
  -- does not parse.
  pub call_method-Completed :
      (s : Socket) (p : Packet) (meta param rest : Bytes)
      → CanCall s p meta param rest
      → Completed s meta param rest (call_method env controller method_identity request s)
  unfolding send_packet
  call_method-Completed s p meta param rest k = record {
    after = e.after;
    returned =
        call_method-sends s k.rpc_fits k.req_fits k.size_is_int
        ∙ (rw (w.returned, send_packet) e.returned);
    input = e.input;
    output = e.output ∙ w.output;
  }
    where
      size : length request_bytes ≡ request_size
      size = length-request_bytes k.rpc_fits k.req_fits

      w : Sent s request_bytes
      w = writes s request_bytes k.answer.harmless (omega (arith, size, k.enough))

      a : Answers w.after p meta param rest
      a = record {
        rpc = k.answer.rpc;
        req = k.answer.req;
        resp = k.answer.resp;
        small = k.answer.small;
        rpc_is_int = k.answer.rpc_is_int;
        resp_is_int = k.answer.resp_is_int;
        input = w.input ∙ k.answer.input;
        harmless = w.harmless;
        turns = omega (arith, w.turns, size, k.enough);
      }

      e :
          Ended env controller all request_size w.after p meta param rest a
            (read_lengths env controller request_size w.after)
      e = read_lengths-Ended env controller all request_size w.after p meta param rest a
