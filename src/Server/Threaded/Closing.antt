-- ===== src/Server/Threaded/Closing.antt =====
-- How often a thread of the threaded server closes its descriptor.
use carrot_rpc.Prelude.{
  ℕ, zero, suc, ◌+◌, ◌≤◌, ◌<◌, ◌&&◌, none, Bytes, text, leb, length, drop, arith, Bool-cases, inl,
  inr, if◌then◌else◌,
}
use carrot_rpc.Packet.{Packet, sizeof_packet}
use carrot_rpc.Buffer.{Expanded, ready, failed, looping, expand_packet}
use carrot_rpc.Message.{parse_sized, parse_sized-holds}
use carrot_rpc.Io.{read_n}
use carrot_rpc.Frame.{read_header}
use carrot_rpc.Protob.Request.{Request}
use carrot_rpc.Server.Registry.{
  Services, Route, resolve, invalid_identity, service_not_found, method_not_found, found,
}
use carrot_rpc.Server.Simple.{Environment, packet_size, payload_size, refusal}
use carrot_rpc.Server.Threaded.{
  Thread, Round, goes_on, breaks, blocked, fault, escaped, destroy_connection, on_descriptor,
  or_breaks, or_drops, with_socket, respond_to_client, call_service, dispatch, decode_request,
  read_payload, serve_request, Finish, after_stop, after_break, never, handle_client,
}
use carrot_rpc.Server.Threaded.Replying.{
  Closes, or_breaks-Closes, or_drops-Closes, respond_to_client-Closes, call_service-Closes,
}

module _ {Msg : Type 0} (env : Environment Msg) where
  dispatch-Closes :
      (services : Services Msg) (t : Thread) (payload : Bytes) (p : Packet) (rpc_req : Request)
      → Closes t.closes (dispatch env services t payload p rpc_req)
  unfolding dispatch destroy_connection
  dispatch-Closes services t payload p rpc_req = go (resolve services rpc_req.method_identity)
    where
      go :
          (route : Route Msg)
          → Closes t.closes (elim route [
            | invalid_identity ↦
                respond_to_client env t none (refusal (text "invalid method method identity"))
            | service_not_found ↦ respond_to_client env t none (refusal (text "service not found"))
            | method_not_found ↦ respond_to_client env t none (refusal (text "method not found"))
            | found cs md ↦
                parse_sized
                  (cs.s.parse_request md)
                  (cs.s.parse_negative md)
                  p.req_len
                  (drop p.rpc_len payload)
                  (leb (p.rpc_len + p.req_len) (length payload))
                  fault
                  λ o. or_drops env o t λ request. call_service env t cs md request
          ])
      go invalid_identity =
          respond_to_client-Closes env t none (refusal (text "invalid method method identity"))
      go service_not_found =
          respond_to_client-Closes env t none (refusal (text "service not found"))
      go method_not_found = respond_to_client-Closes env t none (refusal (text "method not found"))
      go (found cs md) =
          parse_sized-holds (Closes t.closes) (cs.s.parse_request md) (cs.s.parse_negative md)
            p.req_len (drop p.rpc_len payload) (leb (p.rpc_len + p.req_len) (length payload)) fault
            _ tt λ o. or_drops-Closes env o t _ λ request. call_service-Closes env t cs md request

  decode_request-Closes :
      (services : Services Msg) (t : Thread) (payload : Bytes) (p : Packet)
      → Closes t.closes (decode_request env services t payload p)
  unfolding decode_request destroy_connection
  decode_request-Closes services t payload p =
      parse_sized-holds (Closes t.closes) env.requests.parse_from_array env.requests.parse_negative
        p.rpc_len payload (leb p.rpc_len (length payload)) fault _ tt
        λ o. or_drops-Closes env o t _ λ rpc_req. dispatch-Closes services t payload p rpc_req

  read_payload-Closes :
      (services : Services Msg) (t : Thread) (p : Packet)
      → Closes t.closes (read_payload env services t p)
  unfolding read_payload destroy_connection
  read_payload-Closes services t p = go (expand_packet env.grants 32 t.buffer (packet_size p))
    where
      go :
          (e : Expanded)
          → Closes t.closes (elim e [
            | looping ↦ blocked
            | failed b ↦ breaks (destroy_connection (record t { buffer = b }))
            | ready b ↦
                if leb sizeof_packet b.size && leb (sizeof_packet + payload_size p) b.size
                then (or_breaks
                    (on_descriptor (λ s. read_n s (payload_size p)) (record t { buffer = b }))
                    (record t { buffer = b })
                    λ payload t''. decode_request env services t'' payload p)
                else fault
          ])
      go looping = tt
      go (failed b) = omega arith
      go (ready b) =
          elim (Bool-cases
            (leb sizeof_packet b.size && leb (sizeof_packet + payload_size p) b.size)) [
              | inr z ↦ rw z tt
              | inl y ↦ rw y (
                  or_breaks-Closes
                    (on_descriptor (λ s. read_n s (payload_size p)) (record t { buffer = b }))
                    (record t { buffer = b })
                    (λ payload t''. decode_request env services t'' payload p)
                    (λ payload s.
                      decode_request-Closes services (with_socket s (record t { buffer = b }))
                        payload p))
            ]

  serve_request-Closes :
      (services : Services Msg) (t : Thread) → Closes t.closes (serve_request env services t)
  unfolding serve_request
  serve_request-Closes services t =
      or_breaks-Closes (on_descriptor read_header t) t _
        (λ p s. read_payload-Closes services (with_socket s t) p)

-- At least one close behind the loop, and a second one where the loop is left by a `break`.
abbrev pub ClosesAtEnd : ℕ → Finish → Type 0
ClosesAtEnd n (after_stop t) = n < t.closes
ClosesAtEnd n (after_break t) = suc n < t.closes
ClosesAtEnd n never = Unit {0}

ClosesAtEnd-le : (n k : ℕ) (f : Finish) → n ≤ k → ClosesAtEnd k f → ClosesAtEnd n f
ClosesAtEnd-le n k (after_stop t) h c = omega arith
ClosesAtEnd-le n k (after_break t) h c = omega arith
ClosesAtEnd-le n k never h c = tt

-- Whatever the peer sends, the kernel answers and the services do, and however many rounds the server runs: when
-- handle_client returns, it has closed the descriptor once more than before at least, and twice more if a
-- round was left because a read or an allocation failed.
pub handle_client-Closes :
    {Msg : Type 0} (env : Environment Msg) (services : Services Msg) (rounds : ℕ) (t : Thread)
    → ClosesAtEnd t.closes (handle_client env services rounds t)
unfolding handle_client destroy_connection
handle_client-Closes env services zero t = omega arith
handle_client-Closes env services (suc rounds) t =
    go (λ t'. handle_client-Closes env services rounds t') (serve_request env services t)
      (serve_request-Closes env services t)
  where
    go :
        ((t' : Thread) → ClosesAtEnd t'.closes (handle_client env services rounds t'))
        → (r : Round) → Closes t.closes r
        → ClosesAtEnd t.closes (elim r [
          | goes_on t' ↦ handle_client env services rounds t'
          | breaks t' ↦ after_break (destroy_connection t')
          | blocked ↦ never
          | fault ↦ never
          | escaped what ↦ never
        ])
    go again (goes_on t') c =
        ClosesAtEnd-le t.closes t'.closes (handle_client env services rounds t') c (again t')
    go again (breaks t') c = omega arith
    go again blocked c = tt
    go again fault c = tt
    go again (escaped what) c = tt
