-- ===== src/Server/Async/Answer.antt =====
-- handle_read_payload against a description of the answer that does not speak of headers, allocation and
-- serialization.
use carrot_rpc.Prelude.{
  ltb, ◌<◌, ◌^◌, ℕ, ◌+◌, ◌≡◌, refl, Bool, true, Option, none, some, ◌++◌, Bytes, text, leb, length,
  take, drop, arith, length-append, take-append, drop-append,
}
use carrot_rpc.Asio.{no_error}
use carrot_rpc.Buffer.Growth.{Holds}
use carrot_rpc.Message.{IsCodec, parse_sized}
use carrot_rpc.Protob.Request.{Request}
use carrot_rpc.Protob.Response
use carrot_rpc.Protob.Response.{Response}
use carrot_rpc.Server.Registry.{
  CarrotService, Services, Route, resolve, invalid_identity, service_not_found, method_not_found,
  found,
}
use carrot_rpc.Server.Simple.{Environment}
use carrot_rpc.Server.Async.{or_raise, Connection, crashed, respond_to_client}
use carrot_rpc.Server.Async.Handlers.{call_service, dispatch, decode_request, handle_read_payload}
use carrot_rpc.Server.Async.Given.{
  answer_parsed, answer_route, answer, CanSend, gives, call_service-gives,
}

module _ {Msg : Type 0} (env : Environment Msg) {ready_to_parse : Msg → Bool} {fits : Msg → Type 0}
    (responses : IsCodec env.responses Response.is_initialized Response.Fits)
    (messages : IsCodec env.messages ready_to_parse fits) where
  -- The payload of a frame was read behind its header: the metadata, the parameter, and what the handler
  -- ignores.
  pub record IsRead (c : Connection) (meta param extra : Bytes) : Type 0 where
    pub served : c.has_server ≡ true
    pub held : Holds c.buffer c.n
    pub rpc : c.header.rpc_len ≡ length meta
    pub req : c.header.req_len ≡ length param
    pub rpc_is_int : c.header.rpc_len < 2 ^ 31
    pub req_is_int : c.header.req_len < 2 ^ 31

  module _ (services : Services Msg) (c : Connection) (meta param extra : Bytes)
      (r : IsRead c meta param extra) where
    abbrev payload : Bytes
    payload = meta ++ (param ++ extra)

    dispatch-gives :
        (rpc_req : Request)
        → CanSend env responses messages (answer env services (some rpc_req) param)
        → dispatch env services payload rpc_req c
          ≡ gives env responses messages c (answer env services (some rpc_req) param)
    unfolding dispatch respond_to_client
    dispatch-gives rpc_req can = simp (r.served) (go (resolve services rpc_req.method_identity) can)
      where
        sized : ltb c.header.req_len (2 ^ 31) ≡ true
        sized = ground (arith, r.req_is_int)

        whole : leb (c.header.rpc_len + c.header.req_len) (length payload) ≡ true
        whole =
            ground
              (arith, r.rpc, r.req, length-append meta (param ++ extra), length-append param extra)

        got : take c.header.req_len (drop c.header.rpc_len payload) ≡ param
        got = rw (r.rpc, r.req, drop-append meta (param ++ extra), take-append param extra) refl

        parsed :
            (cs : CarrotService Msg) (md : ℕ) (o : Option Msg)
            → CanSend env responses messages (answer_parsed env cs md rpc_req.id o)
            → (or_raise env o c
                (text "failed to read request parameter from client")
                λ request. call_service env services c cs md rpc_req.id request)
              ≡ gives env responses messages c (answer_parsed env cs md rpc_req.id o)
        parsed cs md none can = refl
        parsed cs md (some request) can =
            call_service-gives env responses messages services c cs md rpc_req.id request r.held can

        go :
            (route : Route Msg)
            → CanSend env responses messages (answer_route env route rpc_req.id param)
            → elim route [
              | invalid_identity ↦ crashed
              | service_not_found ↦ crashed
              | method_not_found ↦ crashed
              | found cs md ↦
                  parse_sized
                    (cs.s.parse_request md)
                    (cs.s.parse_negative md)
                    c.header.req_len
                    (drop c.header.rpc_len payload)
                    (leb (c.header.rpc_len + c.header.req_len) (length payload))
                    crashed
                    λ o.
                      or_raise env o c
                        (text "failed to read request parameter from client")
                        λ request. call_service env services c cs md rpc_req.id request
            ]
              ≡ gives env responses messages c (answer_route env route rpc_req.id param)
        go invalid_identity can = refl
        go service_not_found can = refl
        go method_not_found can = refl
        go (found cs md) can =
            rw (sized, whole, got) (parsed cs md (cs.s.parse_request md param) can)

    -- If the messages keep the contract of the library, the back pointer is set, the block holds n_
    -- bytes, the payload is what the header announced, with metadata and parameter each below 2 GB,
    -- and the messages of a reply, where there is one, are of the kind that the library takes, then
    -- the handler gives the answer of the description: if the metadata or the parameter do not parse
    -- it destroys the connection and throws; if the call names no method of a registered service it
    -- crashes; else the reply has the id of the request and the message that the method made, behind
    -- the status success, or behind the status failed with the text of the controller or of the
    -- exception that the method threw. The reply is given to async_write if it fits into the block,
    -- and is written beyond the block if it does not.
    pub handle_read_payload-Answers :
        CanSend env responses messages
          (answer env services (env.requests.parse_from_array meta) param)
        → handle_read_payload env services no_error (meta ++ (param ++ extra)) c
          ≡ gives env responses messages c
              (answer env services (env.requests.parse_from_array meta) param)
    unfolding handle_read_payload decode_request
    handle_read_payload-Answers can =
        rw (sized, whole, got) (go (env.requests.parse_from_array meta) can)
      where
        sized : ltb c.header.rpc_len (2 ^ 31) ≡ true
        sized = ground (arith, r.rpc_is_int)

        whole : leb c.header.rpc_len (length payload) ≡ true
        whole = ground (arith, r.rpc, length-append meta (param ++ extra))

        got : take c.header.rpc_len payload ≡ meta
        got = rw r.rpc (take-append meta (param ++ extra))

        go :
            (o : Option Request)
            → CanSend env responses messages (answer env services o param)
            → (or_raise env o c
                (text "failed to read incoming packet from client: " ++ env.strerror)
                λ rpc_req. dispatch env services payload rpc_req c)
              ≡ gives env responses messages c (answer env services o param)
        go none can = refl
        go (some rpc_req) can = dispatch-gives rpc_req can
