-- ===== src/Server/Threaded.antt =====
-- CarrotThreadedServer::handle_client and respond_to_client of src/server/carrot_threaded_server.cpp: the
-- loop of a thread over the requests of one connection. `closes` counts the calls of close on the
-- descriptor. Once it is closed, read and write on it are refused with EBADF, unless the system has given
-- the number to another connection, which is not modelled. `stopped` is false for so many rounds.
pub mod Replying
pub mod Closing
pub mod Arrival
pub mod Given
pub mod Answer
pub mod Session
pub mod Accepting
mod Examples
use carrot_rpc.Prelude.{
  ℕ, zero, suc, ◌+◌, ◌-◌, ◌%◌, ◌^◌, Bool, true, false, ◌&&◌, Option, none, some, [], ◌++◌, Bytes,
  text, leb, length, take, drop, ◌==◌, if◌then◌else◌,
}
use carrot_rpc.Packet.{Packet, u32, sizeof_packet}
use carrot_rpc.Buffer.{Buffer, Expanded, ready, failed, looping, expand_packet, empty_buffer}
use carrot_rpc.Io.{Socket, Outcome, completed, broken, waiting, read_n, write_n}
use carrot_rpc.Frame.{read_header, frame}
use carrot_rpc.Message.{Codec, parse_sized}
use carrot_rpc.Protob.Request.{Request}
use carrot_rpc.Protob.Response.{Response}
use carrot_rpc.Controller.{Controller, new_controller}
use carrot_rpc.Server.Registry.{
  CarrotService, Services, returned, threw, resolve, invalid_identity, service_not_found,
  method_not_found, found,
}
use carrot_rpc.Server.Simple.{
  Environment, optional_size, optional_bytes, packet_size, payload_size, refusal, verdict,
}

pub record Thread : Type 0 where
  pub buffer : Buffer
  pub socket : Socket
  pub closes : ℕ

-- How a round of the loop ends: at its end or by `continue`, by `break`, or not at all.
pub data Round : Type 0 where
  goes_on : Thread → Round
  breaks : Thread → Round
  blocked : Round
  fault : Round
  escaped : Bytes → Round

-- destroy_connection
unfoldable pub destroy_connection : Thread → Thread
destroy_connection t = record t { closes = suc t.closes }

abbrev pub ebadf : ℕ
ebadf = 9

-- A system call on the descriptor.
abbrev pub on_descriptor : {A : Type 0} → (Socket → Outcome A) → Thread → Outcome A
on_descriptor call t =
    if t.closes == 0 then call t.socket else broken (record t.socket { errno = ebadf })

abbrev pub with_socket : Socket → Thread → Thread
with_socket s t = record t { socket = s }

-- What follows a system call: a failure destroys the connection and leaves the loop.
abbrev pub or_breaks : {A : Type 0} → Outcome A → Thread → (A → Thread → Round) → Round
or_breaks (completed a s) t k = k a (with_socket s t)
or_breaks (broken s) t k = breaks (destroy_connection (with_socket s t))
or_breaks waiting t k = blocked

module _ {Msg : Type 0} (env : Environment Msg) where
  -- The serialization or the parse of one message; a failure destroys the connection, and the round is over.
  abbrev pub or_drops : {A : Type 0} → Option A → Thread → (A → Round) → Round
  or_drops none t k = goes_on (destroy_connection t)
  or_drops (some a) t k = k a

  abbrev sends : Outcome (Unit {0}) → Thread → Round
  sends (completed _ s) t = goes_on (with_socket s t)
  sends (broken s) t = goes_on (destroy_connection (with_socket s t))
  sends waiting t = blocked

  unfoldable pub send_reply : Thread → Option Msg → Response → ℕ → ℕ → Round
  send_reply t resp rpc_resp rpc_len resp_len =
      or_drops (env.responses.serialize_to_array rpc_resp rpc_len) t λ meta.
        or_drops (optional_bytes env resp resp_len) t λ param.
          sends
            (on_descriptor
              (λ s. write_n s (
                take (u32 (sizeof_packet + rpc_len + resp_len)) (
                  frame (record { rpc_len = rpc_len; req_len = 0; resp_len = resp_len })
                    (meta ++ param))))
              t)
            t

  -- What follows the growth of the buffer for a reply.
  abbrev or_drops_packet : Expanded → Thread → (Thread → Round) → Round
  or_drops_packet (ready b) t k = k (record t { buffer = b })
  or_drops_packet (failed b) t k = goes_on (destroy_connection (record t { buffer = b }))
  or_drops_packet looping t k = blocked

  -- respond_to_client; the log statement calls DebugString through `resp`.
  unfoldable pub respond_to_client : Thread → Option Msg → Response → Round
  respond_to_client t none rpc_resp = fault
  respond_to_client t (some resp) rpc_resp =
      let rpc_len = u32 (env.responses.byte_size rpc_resp) in
      let resp_len = u32 (env.messages.byte_size resp) in
      let n = sizeof_packet + rpc_len + resp_len in
      or_drops_packet (expand_packet env.grants 32 t.buffer (u32 n)) t λ t'.
        if leb n t'.buffer.size then send_reply t' (some resp) rpc_resp rpc_len resp_len else fault

  unfoldable pub call_service : Thread → CarrotService Msg → ℕ → Msg → Round
  call_service t cs md request =
      elim (cs.s.call_method md (new_controller env.garbage env.garbage) request cs.c) [
        | returned response controller ↦ respond_to_client t (some response) (verdict controller)
        | threw what response controller ↦ escaped what
      ]

  unfoldable pub dispatch : Services Msg → Thread → Bytes → Packet → Request → Round
  dispatch services t payload p rpc_req = elim (resolve services rpc_req.method_identity) [
    | invalid_identity ↦ respond_to_client t none (refusal (text "invalid method method identity"))
    | service_not_found ↦ respond_to_client t none (refusal (text "service not found"))
    | method_not_found ↦ respond_to_client t none (refusal (text "method not found"))
    | found cs md ↦
        parse_sized (cs.s.parse_request md) (cs.s.parse_negative md) p.req_len
          (drop p.rpc_len payload) (leb (p.rpc_len + p.req_len) (length payload)) fault
          λ o. or_drops o t λ request. call_service t cs md request
  ]

  unfoldable pub decode_request : Services Msg → Thread → Bytes → Packet → Round
  decode_request services t payload p =
      parse_sized env.requests.parse_from_array env.requests.parse_negative p.rpc_len payload
        (leb p.rpc_len (length payload)) fault
        λ o. or_drops o t λ rpc_req. dispatch services t payload p rpc_req

  unfoldable pub read_payload : Services Msg → Thread → Packet → Round
  read_payload services t p = elim (expand_packet env.grants 32 t.buffer (packet_size p)) [
    | looping ↦ blocked
    | failed b ↦ breaks (destroy_connection (record t { buffer = b }))
    | ready b ↦
        let t' = record t { buffer = b } in
        if leb sizeof_packet b.size && leb (sizeof_packet + payload_size p) b.size
        then (or_breaks (on_descriptor (λ s. read_n s (payload_size p)) t') t'
            λ payload t''. decode_request services t'' payload p)
        else fault
  ]

  -- A round of the loop.
  unfoldable pub serve_request : Services Msg → Thread → Round
  serve_request services t =
      or_breaks (on_descriptor read_header t) t λ p t'. read_payload services t' p

-- How handle_client ends: after the server was stopped, after a `break`, or not by returning.
pub data Finish : Type 0 where
  after_stop : Thread → Finish
  after_break : Thread → Finish
  never : Finish

-- handle_client: the loop, and the close behind it.
unfoldable pub handle_client : {Msg : Type 0} → Environment Msg → Services Msg → ℕ → Thread → Finish
handle_client env services zero t = after_stop (destroy_connection t)
handle_client env services (suc rounds) t = elim (serve_request env services t) [
  | goes_on t' ↦ handle_client env services rounds t'
  | breaks t' ↦ after_break (destroy_connection t')
  | blocked ↦ never
  | fault ↦ never
  | escaped what ↦ never
]

abbrev pub new_thread : Socket → Thread
new_thread s = record { buffer = empty_buffer; socket = s; closes = 0 }
