-- ===== src/Call/Request.antt =====
-- The frame of a call: what start_call gives to async_write.
use carrot_rpc.Prelude.{ltb, ℕ, ◌+◌, ◌^◌, ◌≤◌, ◌≡◌, refl, Bool, true, some, ◌++◌, Bytes, leb, arith}
use carrot_rpc.Packet.{Packet, sizeof_packet, u32}
use carrot_rpc.Buffer.{Buffer, ready, expand_packet, IsConsistent}
use carrot_rpc.Buffer.Growth.{Holds, expand_packet-Ready}
use carrot_rpc.Frame.{frame}
use carrot_rpc.Message.{IsCodec, serialize_sized}
use carrot_rpc.Protob.Request
use carrot_rpc.Client.Async.{CallTask, Connection, Environment, on_task}
use carrot_rpc.Client.Async.Calls.{
  returned, request_of, rpc_len_of, req_len_of, launch, set_buffer, write_packet, start_call,
}

module _ {Msg : Type 0} (client : Environment Msg) {ready_to_parse : Msg → Bool}
    {fits : Msg → Type 0} (requests : IsCodec client.requests Request.is_initialized Request.Fits)
    (messages : IsCodec client.messages ready_to_parse fits)
    (all : (k : ℕ) → client.grants k ≡ true) where
  abbrev pub request_header : CallTask Msg → Packet
  request_header t = record {
    rpc_len = client.requests.byte_size (request_of client t);
    req_len = client.messages.byte_size t.request;
    resp_len = 0;
  }

  abbrev pub request_payload : CallTask Msg → Bytes
  request_payload t = requests.bytes_of (request_of client t) ++ messages.bytes_of t.request

  abbrev pub request_size : CallTask Msg → ℕ
  request_size t =
      sizeof_packet
      + client.requests.byte_size (request_of client t)
      + client.messages.byte_size t.request

  -- A call whose messages the library takes, in a frame that is not above 2 GB.
  pub record CanCall (t : CallTask Msg) : Type 0 where
    pub meta_fits : Request.Fits (request_of client t)
    pub request_fits : fits t.request
    pub small : request_size t ≤ 2 ^ 31
    pub consistent : IsConsistent t.buffer

  module _ (t : CallTask Msg) (k : CanCall t) where
    rpc : rpc_len_of client t ≡ client.requests.byte_size (request_of client t)
    rpc = omega (arith, requests.size_is_int (request_of client t) k.meta_fits)

    req : req_len_of client t ≡ client.messages.byte_size t.request
    req = omega (arith, messages.size_is_int t.request k.request_fits)

    write_packet-launches :
        (d : Connection Msg)
        → write_packet client t d
          ≡ returned (launch client t (frame (request_header t) (request_payload t)) d)
    unfolding write_packet
    write_packet-launches d = rw (meta, param, write_packet) (rw (rpc, req) refl)
      where
        meta_sized : ltb (u32 (rpc_len_of client t + req_len_of client t)) (2 ^ 31) ≡ true
        meta_sized = ground (arith, rpc, req, k.small)

        param_sized : ltb (req_len_of client t) (2 ^ 31) ≡ true
        param_sized = ground (arith, req, k.small)

        meta :
            serialize_sized client.requests
              (request_of client t)
              (u32 (rpc_len_of client t + req_len_of client t))
            ≡ some (requests.bytes_of (request_of client t))
        meta = rw meta_sized (
            requests.serialize (request_of client t) _ k.meta_fits
              (omega (arith, rpc, req, k.small)))

        param :
            serialize_sized client.messages t.request (req_len_of client t)
            ≡ some (messages.bytes_of t.request)
        param = rw param_sized (messages.serialize t.request _ k.request_fits (omega (arith, req)))

    pub start_call-launches :
        (c : Connection Msg)
        → (b : Buffer) × (start_call client t c
            ≡ returned (
                launch client t
                  (frame (request_header t) (request_payload t))
                  (on_task t.id (set_buffer b) c)))
    unfolding start_call
    start_call-launches c = (
      b.0,
      rw (small, b.1, roomy, start_call) (write_packet-launches (on_task t.id (set_buffer b.0) c)),
    )
      where
        small : u32 (sizeof_packet + rpc_len_of client t + req_len_of client t) ≡ request_size t
        small = omega (arith, rpc, req, k.small)

        b :
            (b : Buffer) × (expand_packet client.grants 32 t.buffer (request_size t) ≡ ready b)
            × Holds b (request_size t)
        b = expand_packet-Ready client.grants t.buffer (request_size t) all k.consistent k.small

        roomy : leb (sizeof_packet + rpc_len_of client t + req_len_of client t) b.0.size ≡ true
        roomy = ground (arith, small, rpc, req, b.2, k.small)
