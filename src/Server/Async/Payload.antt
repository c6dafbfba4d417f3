-- ===== src/Server/Async/Payload.antt =====
-- What handle_read_payload does to a connection, up to the reply.
use carrot_rpc.Prelude.{
  refl, ◌≤◌, ◌≡◌, length-take, arith, ℕ, ◌+◌, inl, inr, ap, Bool, Option, none, some, ◌∷◌, ◌++◌,
  Bytes, text, leb, length, take, drop, Bool-cases, Option-cases,
}
use carrot_rpc.Asio.{Error, no_error, eof, error}
use carrot_rpc.Packet.{sizeof_packet, u32}
use carrot_rpc.Buffer.{Expanded, ready, failed, looping, expand_packet, IsConsistent}
use carrot_rpc.Buffer.Growth.{HoldsIfReady, expand_packet-HoldsIfReady}
use carrot_rpc.Frame.{frame}
use carrot_rpc.Protob.Request.{Request}
use carrot_rpc.Protob.Response.{Response}
use carrot_rpc.Controller.{new_controller}
use carrot_rpc.Server.Registry.{
  CarrotService, Services, Called, returned, threw, Route, resolve, invalid_identity,
  service_not_found, method_not_found, found,
}
use carrot_rpc.Server.Simple.{Environment}
use carrot_rpc.Message.{parse_sized, parse_sized-holds}
use carrot_rpc.Server.Async.{
  or_raise, Ended, writing_response, Connection, finished, raised, crashed, spins, bad_alloc,
  write_response, respond_to_client,
}
use carrot_rpc.Server.Async.Handlers.{
  verdict, internal_error, call_service, refuses, dispatch, decode_request, handle_read_payload,
}
use carrot_rpc.Server.Async.Phase.{IsIdle, Runs, starts, stalls, destroy-Ran}

module _ {Msg : Type 0} (env : Environment Msg) (alive : Bool) where
  or_raise-Runs :
      {A : Type 0} (o : Option A) (c : Connection) (what : Bytes) (k : A → Ended Connection)
      → IsIdle env alive c
      → ((a : A) → Runs env alive (k a))
      → Runs env alive (or_raise env o c what k)
  or_raise-Runs none c what k i h = destroy-Ran env alive c i.nothing
  or_raise-Runs (some a) c what k i h = h a

  write_response-Runs :
      (c : Connection) (r : Response) (m : Msg)
      → IsIdle env alive c
      → c.buffer.block ≡ some c.buffer.size
      → Runs env alive (write_response env c r m)
  unfolding write_response
  write_response-Runs c r m i whole =
      elim (Option-cases (env.responses.serialize_to_array r rpc_len)) [
        | inl e ↦ rw (e, write_response) (destroy-Ran env alive c i.nothing)
        | inr (meta, e) ↦ elim (Bool-cases (leb (sizeof_packet + rpc_len) c.buffer.size)) [
          | inr z ↦ rw (e, z, write_response) tt
          | inl y ↦ elim (Option-cases (env.messages.serialize_to_array m resp_len)) [
            | inl e' ↦ rw (e, y, e', write_response) (destroy-Ran env alive c i.nothing)
            | inr (param, e') ↦
                elim (Bool-cases (leb (sizeof_packet + rpc_len + resp_len) c.buffer.size)) [
                  | inr z ↦ rw (e, y, e', z, write_response) tt
                  | inl y' ↦
                      rw (e, y, e', y', write_response) (sends (meta ++ param) (ground (arith, y')))
                ]
          ]
        ]
      ]
    where
      rpc_len : ℕ
      rpc_len = env.responses.byte_size r

      resp_len : ℕ
      resp_len = env.messages.byte_size m

      given : Bytes → Bytes
      given payload =
          take (sizeof_packet + rpc_len + resp_len)
            (frame (record { rpc_len = u32 rpc_len; req_len = 0; resp_len = u32 resp_len }) payload)

      writing : Bytes → Connection
      writing payload = record c {
        pending = writing_response ∷ c.pending;
        sent = given payload ∷ c.sent;
      }

      sends :
          (payload : Bytes)
          → sizeof_packet + rpc_len + resp_len ≤ c.buffer.size
          → Runs env alive (finished (writing payload))
      sends payload enough =
          starts env alive (writing payload) writing_response (ap (◌∷◌ writing_response) i.nothing)
            i.opened i.linked
            (record {
              bytes = given payload;
              earlier = c.sent;
              given = refl;
              held = (
                whole,
                omega (
                  arith,
                  enough,
                  length-take (sizeof_packet + rpc_len + resp_len) (
                      frame (record { rpc_len = u32 rpc_len; req_len = 0; resp_len = u32 resp_len })
                        payload),
                ),
              );
            })

  respond_to_client-Runs :
      (c : Connection) (m : Option Msg) (r : Response)
      → IsIdle env alive c
      → IsConsistent c.buffer
      → Runs env alive (respond_to_client env c m r)
  unfolding respond_to_client
  respond_to_client-Runs c none r i consistent = tt
  respond_to_client-Runs c (some m) r i consistent =
      go (expand_packet env.grants 32 c.buffer c.n)
        (expand_packet-HoldsIfReady env.grants 32 c.buffer c.n consistent)
    where
      go :
          (e : Expanded)
          → HoldsIfReady env.grants c.n e
          → Runs env alive (elim e [
            | looping ↦ spins
            | failed b ↦ raised (record c { buffer = b }) bad_alloc
            | ready b ↦ write_response env (record c { buffer = b }) r m
          ])
      go looping h = tt
      go (failed b) (k, z) = stalls env alive (record c { buffer = b }) k z i.nothing i.opened
      go (ready b) (whole, enough) =
          write_response-Runs (record c { buffer = b }) r m
            (record { nothing = i.nothing; opened = i.opened; linked = i.linked }) whole

  call_service-Runs :
      (services : Services Msg) (c : Connection) (cs : CarrotService Msg) (md id : ℕ)
      (request : Msg)
      → IsIdle env alive c
      → IsConsistent c.buffer
      → Runs env alive (call_service env services c cs md id request)
  unfolding call_service
  call_service-Runs services c cs md id request i consistent =
      go (cs.s.call_method md (new_controller env.garbage env.garbage) request cs.c)
    where
      go :
          (called : Called Msg)
          → Runs env alive (elim called [
            | returned response controller ↦
                respond_to_client env c (some response) (verdict id controller)
            | threw what response controller ↦
                respond_to_client env c
                  (some response)
                  (verdict id (internal_error what controller))
          ])
      go (returned m k) = respond_to_client-Runs c (some m) (verdict id k) i consistent
      go (threw what m k) =
          respond_to_client-Runs c (some m) (verdict id (internal_error what k)) i consistent

  dispatch-Runs :
      (services : Services Msg) (bytes : Bytes) (rpc_req : Request) (c : Connection)
      → IsIdle env alive c
      → IsConsistent c.buffer
      → Runs env alive (dispatch env services bytes rpc_req c)
  unfolding dispatch
  dispatch-Runs services bytes rpc_req c i consistent = elim (Bool-cases c.has_server) [
    | inr z ↦ simp z tt
    | inl y ↦ simp y (go (resolve services rpc_req.method_identity))
  ]
    where
      go :
          (route : Route Msg)
          → Runs env alive (elim route [
            | invalid_identity ↦
                refuses env services c rpc_req.id (text "invalid method method identity")
            | service_not_found ↦ refuses env services c rpc_req.id (text "service not found")
            | method_not_found ↦ refuses env services c rpc_req.id (text "method not found")
            | found cs md ↦
                parse_sized
                  (cs.s.parse_request md)
                  (cs.s.parse_negative md)
                  c.header.req_len
                  (drop c.header.rpc_len bytes)
                  (leb (c.header.rpc_len + c.header.req_len) (length bytes))
                  crashed
                  λ o.
                    or_raise env o c
                      (text "failed to read request parameter from client")
                      λ request. call_service env services c cs md rpc_req.id request
          ])
      go invalid_identity = respond_to_client-Runs c none _ i consistent
      go service_not_found = respond_to_client-Runs c none _ i consistent
      go method_not_found = respond_to_client-Runs c none _ i consistent
      go (found cs md) =
          parse_sized-holds (Runs env alive) (cs.s.parse_request md) (cs.s.parse_negative md)
            c.header.req_len (drop c.header.rpc_len bytes)
            (leb (c.header.rpc_len + c.header.req_len) (length bytes)) crashed
            (λ o.
              or_raise env o c (text "failed to read request parameter from client")
                λ request. call_service env services c cs md rpc_req.id request)
            tt
            λ o.
              or_raise-Runs o c (text "failed to read request parameter from client") _ i
                λ request. call_service-Runs services c cs md rpc_req.id request i consistent

  pub handle_read_payload-Runs :
      (services : Services Msg) (e : Error) (bytes : Bytes) (c : Connection)
      → IsIdle env alive c
      → IsConsistent c.buffer
      → Runs env alive (handle_read_payload env services e bytes c)
  unfolding handle_read_payload decode_request
  handle_read_payload-Runs services no_error bytes c i consistent =
      parse_sized-holds (Runs env alive) env.requests.parse_from_array env.requests.parse_negative
        c.header.rpc_len bytes (leb c.header.rpc_len (length bytes)) crashed _ tt
        λ o.
          or_raise-Runs o c (text "failed to read incoming packet from client: " ++ env.strerror) _
            i λ rpc_req. dispatch-Runs services bytes rpc_req c i consistent
  handle_read_payload-Runs services eof bytes c i consistent = destroy-Ran env alive c i.nothing
  handle_read_payload-Runs services (error what) bytes c i consistent =
      destroy-Ran env alive c i.nothing
