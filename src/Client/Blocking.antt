-- ===== src/Client/Blocking.antt =====
-- CarrotBlockingChannel::CallMethod of src/client/carrot_blocking_channel.cpp: one call over a connected socket.
-- All ways through the function lead to the label run_callback, where done->Run() is called: `ran_done` is
-- the state with which it is called. `faulted` is a read of memory beyond the bytes received.
pub mod Call
pub mod Whole
pub mod Refused
mod Examples
use carrot_rpc.Prelude.{
  ℕ, ◌+◌, ◌-◌, ◌%◌, ◌^◌, Bool, true, false, not, ◌&&◌, Option, none, some, [], ◌∷◌, ◌++◌, Bytes,
  text, leb, ltb, length, take, drop, if◌then◌else◌,
}
use carrot_rpc.Packet.{Packet, u32, ntohl, sizeof_packet}
use carrot_rpc.Io.{Socket, Outcome, completed, broken, waiting, read_n, write_n}
use carrot_rpc.Frame.{word, frame}
use carrot_rpc.Message.{Codec, serialize_sized, parse_sized}
use carrot_rpc.Protob.Status
use carrot_rpc.Protob.Request.{Request, new_request, set_method_identity}
use carrot_rpc.Protob.Response.{Response}
use carrot_rpc.Controller.{
  Controller, ErrorCode, set_failed_with, ec_oom, ec_serialization_error, ec_transport_error,
  ec_method_not_found, ec_error, ec_failed,
}

pub data CallEnd (Msg : Type 0) : Type 0 where
  ran_done : Controller → Option Msg → Socket → CallEnd Msg
  waits : CallEnd Msg
  faulted : CallEnd Msg

pub record Environment (Msg : Type 0) : Type 0 where
  pub requests : Codec Request
  pub responses : Codec Response
  pub messages : Codec Msg
  pub grants : ℕ → Bool
  pub strerror : ℕ → Bytes

-- The metadata of a call of the method with this identity.
unfoldable pub request_of : Bytes → Request
request_of method_identity = set_method_identity new_request method_identity

-- The switch over the status of the reply.
unfoldable pub take_status : Response → Controller → Controller
take_status r controller = elim r.status [
  | Status.not_found ↦
      set_failed_with controller
        (text "The remote method called not found on the server side: " ++ r.message)
        ec_method_not_found
  | Status.error ↦
      set_failed_with controller (text "Some errors occurred during the rpc: " ++ r.message)
        ec_error
  | Status.failed ↦ set_failed_with controller (text "Failed to call rpc: " ++ r.message) ec_failed
  | Status.success ↦ controller
]

module _ {Msg : Type 0} (env : Environment Msg) (controller : Controller) where
  abbrev fails : Bytes → ErrorCode → Socket → CallEnd Msg
  fails reason ec s = ran_done (set_failed_with controller reason ec) none s

  -- A call of read_n or write_n, with the text for its failure.
  abbrev pub or_fails : {A : Type 0} → Outcome A → Bytes → (A → Socket → CallEnd Msg) → CallEnd Msg
  or_fails (completed a s) reason k = k a s
  or_fails (broken s) reason k = fails (reason ++ env.strerror s.errno) ec_transport_error s
  or_fails waiting reason k = waits

  -- What the parse of the parameter is followed by.
  unfoldable pub take_parameter : Controller → Socket → Option Msg → CallEnd Msg
  take_parameter c s none =
      ran_done
        (set_failed_with c (text "failed to read response parameter from server")
          ec_serialization_error)
        none s
  take_parameter c s (some response) = ran_done c (some response) s

  -- What the parse of the metadata is followed by.
  unfoldable pub take_metadata : Packet → Bytes → Socket → Option Response → CallEnd Msg
  unfolding take_parameter
  take_metadata p bytes s none =
      fails (text "failed to read Response metadata from server") ec_serialization_error s
  take_metadata p bytes s (some r) =
      parse_sized env.messages.parse_from_array env.messages.parse_negative p.resp_len
        (drop p.rpc_len bytes) (leb (p.rpc_len + p.resp_len) (length bytes)) faulted
        (take_parameter (take_status r controller) s)

  unfoldable pub read_payload : Packet → Bytes → Socket → CallEnd Msg
  unfolding take_metadata
  read_payload p bytes s =
      parse_sized env.responses.parse_from_array env.responses.parse_negative p.rpc_len bytes
        (leb p.rpc_len (length bytes)) faulted (take_metadata p bytes s)

  -- The packet of `n` bytes is grown where the payload does not fit, and the payload is read into it.
  unfoldable pub receive_reply : ℕ → Packet → Socket → CallEnd Msg
  receive_reply n p s =
      let wanted = u32 (p.rpc_len + p.req_len + p.resp_len) in
      if ltb (n - sizeof_packet) wanted && not (env.grants (wanted + sizeof_packet))
      then fails (text "failed to malloc for incoming packet") ec_oom s
      else or_fails (read_n s wanted) (text "failed to read incoming packet from server:")
          λ bytes s'. read_payload p bytes s'

  unfoldable pub read_lengths : ℕ → Socket → CallEnd Msg
  read_lengths n s =
      or_fails (read_n s 4) (text "failed to read request metadata size from server:") λ rpc_len s1.
        or_fails (read_n s1 4) (text "failed to read request parameter size from server:")
          λ req_len s2.
            or_fails (read_n s2 4) (text "failed to read response parameter size from server:")
              λ resp_len s3.
                receive_reply n
                  (record {
                    rpc_len = ntohl (word rpc_len);
                    req_len = ntohl (word req_len);
                    resp_len = ntohl (word resp_len);
                  })
                  s3

  -- The packet is written and the reply read.
  unfoldable pub send_packet : ℕ → Packet → Bytes → Socket → CallEnd Msg
  send_packet n p payload s =
      or_fails (write_n s (frame p payload)) (text "failed to send packet to server:")
        λ _ s'. read_lengths n s'

  -- CallMethod
  unfoldable pub call_method : Bytes → Msg → Socket → CallEnd Msg
  call_method method_identity request s =
      let rpc_req = request_of method_identity in
      let rpc_len = u32 (env.requests.byte_size rpc_req) in
      let req_len = u32 (env.messages.byte_size request) in
      let n = sizeof_packet + rpc_len + req_len in
      if env.grants n
      then elim (serialize_sized env.requests rpc_req (u32 (rpc_len + req_len))) [
        | none ↦
            fails (text "failed to serialize Request metadata into byte array")
              ec_serialization_error s
        | some meta ↦ elim (serialize_sized env.messages request req_len) [
          | none ↦
              fails (text "failed to serialize request paramerter into byte array")
                ec_serialization_error s
          | some param ↦
              send_packet n (record { rpc_len = rpc_len; req_len = req_len; resp_len = 0 })
                (meta ++ param) s
        ]
      ]
      else fails (text "failed to malloc for outgoing packet") ec_oom s
