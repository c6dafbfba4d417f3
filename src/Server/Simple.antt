-- ===== src/Server/Simple.antt =====
-- CarrotSimpleServer::handle_client and respond_to_client of src/server/carrot_simple_server.cpp: one
-- request on one connection. The bytes behind the header are kept apart from the block that holds them:
-- of the block only the size matters, and of the memory in it only what was received. `fault` is an
-- access, or a call of read or write, that goes beyond the block or beyond the received bytes.
pub mod Arrival
pub mod Reply
pub mod Answer
pub mod Pool
mod Examples
use carrot_rpc.Prelude.{
  ℕ, ◌+◌, ◌-◌, ◌%◌, ◌^◌, Bool, true, false, ◌&&◌, Option, none, some, [], ◌++◌, Bytes, text, leb,
  length, take, drop, if◌then◌else◌,
}
use carrot_rpc.Packet.{Packet, u32, sizeof_packet, convert_to_network_order, header_image}
use carrot_rpc.Buffer.{Buffer, Expanded, ready, failed, looping, expand_connection_packet}
use carrot_rpc.Io.{Socket, Outcome, completed, broken, waiting, read_n, write_n}
use carrot_rpc.Frame.{read_header, frame}
use carrot_rpc.Message.{Codec, parse_sized}
use carrot_rpc.Protob.Status
use carrot_rpc.Protob.Request.{Request}
use carrot_rpc.Protob.Response.{Response, new_response, set_status, set_message}
use carrot_rpc.Controller.{Controller, new_controller}
use carrot_rpc.Server.Registry.{
  CarrotService, Services, Called, returned, threw, resolve, invalid_identity, service_not_found,
  method_not_found, found,
}

-- How the handler of a connection ends: it returns with the connection in use, it returns after
-- destroy_rpc_connection, it waits for the peer, or an exception leaves it.
pub data Served : Type 0 where
  kept : Buffer → Socket → Served
  destroyed : Buffer → Socket → Served
  blocked : Served
  fault : Served
  escaped : Bytes → Served

abbrev pub after_io : {A : Type 0} → Outcome A → Buffer → (A → Socket → Served) → Served
after_io (completed a s) b k = k a s
after_io (broken s) b k = destroyed b s
after_io waiting b k = blocked

abbrev pub after_expand : Expanded → Socket → (Buffer → Served) → Served
after_expand (ready b) s k = k b
after_expand (failed b) s k = destroyed b s
after_expand looping s k = blocked

abbrev pub or_destroy : {A : Type 0} → Option A → Buffer → Socket → (A → Served) → Served
or_destroy none b s k = destroyed b s
or_destroy (some a) b s k = k a

-- `n`, a uint32_t, and `n - sizeof(packet)`, a size_t.
abbrev pub packet_size : Packet → ℕ
packet_size p = u32 (sizeof_packet + p.rpc_len + p.req_len + p.resp_len)

abbrev pub payload_size : Packet → ℕ
payload_size p = (packet_size p + 2 ^ 64 - sizeof_packet) % 2 ^ 64

-- What the program calls of the library, of the allocator and of uninitialised memory.
pub record Environment (Msg : Type 0) : Type 0 where
  pub requests : Codec Request
  pub responses : Codec Response
  pub messages : Codec Msg
  pub grants : ℕ → Bool
  -- What the stack holds where CarrotController leaves its fields uninitialised.
  pub garbage : ℕ
  -- ::strerror(errno), in the text of an exception.
  pub strerror : Bytes

abbrev pub refusal : Bytes → Response
refusal reason = set_message (set_status new_response Status.not_found) reason

-- The status that the reply to a finished call has.
abbrev pub verdict : Controller → Response
verdict controller =
    if controller.failed
    then set_message (set_status new_response Status.failed) (text "server side failure")
    else set_status new_response Status.success

module _ {Msg : Type 0} (env : Environment Msg) where
  -- The length and the bytes of a message that may be NULL.
  abbrev pub optional_size : Option Msg → ℕ
  optional_size none = 0
  optional_size (some m) = env.messages.byte_size m

  abbrev pub optional_bytes : Option Msg → ℕ → Option Bytes
  optional_bytes none size = some []
  optional_bytes (some m) size = env.messages.serialize_to_array m size

  unfoldable pub write_reply : Buffer → Socket → Option Msg → Response → ℕ → ℕ → Served
  write_reply b s resp rpc_resp rpc_len resp_len =
      or_destroy (env.responses.serialize_to_array rpc_resp rpc_len) b s λ meta.
        or_destroy (optional_bytes resp resp_len) b s λ param.
          after_io
            (write_n s (
              frame (record { rpc_len = u32 rpc_len; req_len = 0; resp_len = u32 resp_len })
                (meta ++ param)))
            b (λ _ s'. kept b s')

  -- The log statement before the buffer is grown is evaluated in a build without LOGON too: it calls
  -- DebugString through `resp`, NULL or not.
  abbrev pub logs_reply : Option Msg → Served → Served
  logs_reply none k = fault
  logs_reply (some m) k = k

  unfoldable pub respond_to_client : Buffer → Socket → Option Msg → Response → Served
  respond_to_client b s resp rpc_resp =
      let rpc_len = env.responses.byte_size rpc_resp in
      let resp_len = optional_size resp in
      let n = sizeof_packet + rpc_len + resp_len in
      logs_reply resp (
        after_expand (expand_connection_packet env.grants b (u32 n)) s
          λ c. if leb n c.size then write_reply c s resp rpc_resp rpc_len resp_len else fault)

  unfoldable pub call_service : Buffer → Socket → CarrotService Msg → ℕ → Msg → Served
  call_service b s cs md request =
      elim (cs.s.call_method md (new_controller env.garbage env.garbage) request cs.c) [
        | returned response controller ↦ respond_to_client b s (some response) (verdict controller)
        | threw what response controller ↦ escaped what
      ]

  unfoldable pub dispatch : Services Msg → Buffer → Socket → Bytes → Packet → Request → Served
  dispatch services b s payload p rpc_req = elim (resolve services rpc_req.method_identity) [
    | invalid_identity ↦
        respond_to_client b s none (refusal (text "invalid method method identity"))
    | service_not_found ↦ respond_to_client b s none (refusal (text "service not found"))
    | method_not_found ↦ respond_to_client b s none (refusal (text "method not found"))
    | found cs md ↦
        parse_sized (cs.s.parse_request md) (cs.s.parse_negative md) p.req_len
          (drop p.rpc_len payload) (leb (p.rpc_len + p.req_len) (length payload)) fault
          λ o. or_destroy o b s λ request. call_service b s cs md request
  ]

  unfoldable pub decode_request : Services Msg → Buffer → Socket → Bytes → Packet → Served
  decode_request services b s payload p =
      parse_sized env.requests.parse_from_array env.requests.parse_negative p.rpc_len payload
        (leb p.rpc_len (length payload)) fault
        λ o. or_destroy o b s λ rpc_req. dispatch services b s payload p rpc_req

  unfoldable pub read_payload : Services Msg → Buffer → Socket → Packet → Served
  read_payload services b s p =
      after_expand (expand_connection_packet env.grants b (packet_size p)) s λ c.
        if leb sizeof_packet c.size && leb (sizeof_packet + payload_size p) c.size
        then (after_io (read_n s (payload_size p)) c
            λ payload s'. decode_request services c s' payload p)
        else fault

  unfoldable pub handle_client : Services Msg → Buffer → Socket → Served
  handle_client services b s = after_io (read_header s) b λ p s'. read_payload services b s' p
