-- ===== src/Server/Async/Handlers.antt =====
-- The member functions of RpcServerConnection and CarrotAsyncServer that asio and the user enter.
use carrot_rpc.Prelude.{
  ℕ, ◌+◌, Bool, true, false, none, some, List, [], ◌∷◌, ◌++◌, Bytes, text, leb, length, drop,
  if◌then◌else◌,
}
use carrot_rpc.Asio.{Error, no_error, message}
use carrot_rpc.Packet.{Packet, sizeof_packet, header_at, convert_to_host_order}
use carrot_rpc.Buffer.{ready, failed, looping, expand_packet}
use carrot_rpc.Protob.Status
use carrot_rpc.Protob.Request.{Request}
use carrot_rpc.Protob.Response.{Response, new_response, set_id, set_status, set_message}
use carrot_rpc.Controller.{Controller, new_controller, set_failed}
use carrot_rpc.Server.Registry.{
  Service, CarrotService, Services, returned, threw, register_service, resolve, invalid_identity,
  service_not_found, method_not_found, found,
}
use carrot_rpc.Server.Simple.{Environment, packet_size, payload_size, refusal}
use carrot_rpc.Message.{parse_sized}
use carrot_rpc.Server.Async.{
  or_raise, accepting, reading_payload, Connection, AsyncServer, Ended, finished, raised, crashed,
  spins, and_then, new_connection, destroy, bad_alloc, serve, respond_to_client,
}

-- The metadata of the reply to a finished call.
abbrev pub verdict : ℕ → Controller → Response
verdict id controller =
    set_id
      (if controller.failed
        then set_message (set_status new_response Status.failed) controller.error_text
        else set_status new_response Status.success)
      id

-- An exception of the method is caught.
abbrev pub internal_error : Bytes → Controller → Controller
internal_error what controller = set_failed controller (text "Server Internal Error " ++ what)

module _ {Msg : Type 0} (env : Environment Msg) (services : Services Msg) where
  -- handle_read_header behind the conversion of the header.
  unfoldable pub start_payload : Packet → Connection → Ended Connection
  start_payload p c = elim (expand_packet env.grants 32 c.buffer (packet_size p)) [
    | looping ↦ spins
    | failed b ↦ raised (record c { buffer = b; header = p; n = packet_size p }) bad_alloc
    | ready b ↦
        if leb (sizeof_packet + payload_size p) b.size
        then finished (record c {
          buffer = b;
          header = p;
          n = packet_size p;
          pending = reading_payload ∷ c.pending;
        })
        else crashed
  ]

  unfoldable pub handle_read_header : Error → Bytes → Connection → Ended Connection
  handle_read_header no_error bytes c = elim (header_at bytes) [
    | none ↦ crashed
    | some (image, _) ↦ start_payload (convert_to_host_order image) c
  ]
  handle_read_header e bytes c = raised (destroy c) (message e)

  unfoldable pub call_service : Connection → CarrotService Msg → ℕ → ℕ → Msg → Ended Connection
  call_service c cs md id request =
      elim (cs.s.call_method md (new_controller env.garbage env.garbage) request cs.c) [
        | returned response controller ↦
            respond_to_client env c (some response) (verdict id controller)
        | threw what response controller ↦
            respond_to_client env c (some response) (verdict id (internal_error what controller))
      ]

  abbrev pub refuses : Connection → ℕ → Bytes → Ended Connection
  refuses c id reason = respond_to_client env c none (set_id (refusal reason) id)

  -- The lookups go through `server_`; without it, they and the refusals in front of them both use a NULL
  -- pointer.
  unfoldable pub dispatch : Bytes → Request → Connection → Ended Connection
  dispatch bytes rpc_req c =
      if c.has_server
      then elim (resolve services rpc_req.method_identity) [
        | invalid_identity ↦ refuses c rpc_req.id (text "invalid method method identity")
        | service_not_found ↦ refuses c rpc_req.id (text "service not found")
        | method_not_found ↦ refuses c rpc_req.id (text "method not found")
        | found cs md ↦
            parse_sized (cs.s.parse_request md) (cs.s.parse_negative md) c.header.req_len
              (drop c.header.rpc_len bytes)
              (leb (c.header.rpc_len + c.header.req_len) (length bytes)) crashed
              λ o.
                or_raise env o c (text "failed to read request parameter from client")
                  λ request. call_service c cs md rpc_req.id request
      ]
      else crashed

  unfoldable pub decode_request : Bytes → Connection → Ended Connection
  decode_request bytes c =
      parse_sized env.requests.parse_from_array env.requests.parse_negative c.header.rpc_len bytes
        (leb c.header.rpc_len (length bytes)) crashed
        λ o.
          or_raise env o c (text "failed to read incoming packet from client: " ++ env.strerror)
            λ rpc_req. dispatch bytes rpc_req c

  unfoldable pub handle_read_payload : Error → Bytes → Connection → Ended Connection
  handle_read_payload no_error bytes c = decode_request bytes c
  handle_read_payload e bytes c = raised (destroy c) (message e)

  unfoldable pub handle_write_response : Error → Connection → Ended Connection
  handle_write_response no_error c = serve env c
  handle_write_response e c = raised (destroy c) (message e)

-- `c->server(nullptr)` for each connection of the map.
abbrev pub forget_server : Connection → Connection
forget_server c = if c.registered then record c { has_server = false } else c

abbrev pub forget_servers : List Connection → List Connection
forget_servers [] = []
forget_servers (c ∷ cs) = forget_server c ∷ forget_servers cs

module _ {Msg : Type 0} where
  -- CarrotAsyncServer::start_accept
  unfoldable pub start_accept : AsyncServer Msg → AsyncServer Msg
  start_accept s = record s {
    connections = record new_connection { pending = accepting ∷ [] } ∷ s.connections;
  }

  -- The constructors of CarrotAsyncServer.
  unfoldable pub new_async_server : AsyncServer Msg
  unfolding start_accept
  new_async_server = start_accept (record { alive = true; services = []; connections = [] })

  -- CarrotAsyncServer::RegisterService
  unfoldable pub register_async : Service Msg → ℕ → AsyncServer Msg → Bool × AsyncServer Msg
  register_async service closure s =
      let (added, services) = register_service s.services service closure in
      (added, record s { services = services })

  -- CarrotAsyncServer::~CarrotAsyncServer
  unfoldable pub destroy_server : AsyncServer Msg → AsyncServer Msg
  destroy_server s = record s { alive = false; connections = forget_servers s.connections }

  -- The server with one of its connections changed.
  abbrev pub put :
      List Connection → List Connection → AsyncServer Msg → Connection → AsyncServer Msg
  put before after s c = record s { connections = before ++ (c ∷ after) }

module _ {Msg : Type 0} (env : Environment Msg) where
  -- asio opens the socket of the connection when it accepts.
  abbrev pub accept : Error → Connection → Ended Connection
  accept no_error c = serve env (record c { opened = true })
  accept e c = finished c

  -- CarrotAsyncServer::handle_accept, for the connection between `before` and `after`.
  unfoldable pub handle_accept :
      Error
      → List Connection
      → Connection
      → List Connection
      → AsyncServer Msg
      → Ended (AsyncServer Msg)
  handle_accept e before c after s =
      and_then (accept e c) (put before after s)
        λ c'. if s.alive then finished (start_accept (put before after s c')) else crashed
