-- ===== src/Server/Threaded/Answer.antt =====
-- A round of the threaded server against the description of the answer that the simple server is compared
-- with.
use mathlib.Core.Path.{subst₂}
use carrot_rpc.Prelude.{
  ltb, ◌<◌, ℕ, suc, ◌-◌, ◌+◌, ◌^◌, ◌≤◌, ◌≡◌, refl, ap, ◌∙◌, Bool, true, Option, none, some, ◌++◌,
  Bytes, leb, length, take, drop, arith, take-append, drop-append,
}
use carrot_rpc.Packet.{Packet}
use carrot_rpc.Buffer.{IsConsistent}
use carrot_rpc.Io.{IsHarmless, count_serves}
use carrot_rpc.Message.{IsCodec, parse_sized}
use carrot_rpc.Protob.Request.{Request}
use carrot_rpc.Protob.Response
use carrot_rpc.Protob.Response.{Response}
use carrot_rpc.Server.Registry.{
  CarrotService, Services, Route, resolve, invalid_identity, service_not_found, method_not_found,
  found,
}
use carrot_rpc.Server.Simple.{Environment}
use carrot_rpc.Server.Simple.Arrival.{Arrives}
use carrot_rpc.Server.Simple.Answer.{
  Answer, reply, close, crash, escape, answer_parsed, answer_route, answer,
}
use carrot_rpc.Server.Threaded.{
  or_drops, Thread, fault, destroy_connection, respond_to_client, call_service, dispatch,
  decode_request, serve_request,
}
use carrot_rpc.Server.Threaded.Arrival.{length-payload, Read, reads}
use carrot_rpc.Server.Threaded.Given.{Fulfillable, Gives, Gives-fewer, call_service-Gives}

module _ {Msg : Type 0} (env : Environment Msg) {ready_to_parse : Msg → Bool} {fits : Msg → Type 0}
    (responses : IsCodec env.responses Response.is_initialized Response.Fits)
    (messages : IsCodec env.messages ready_to_parse fits)
    (all : (k : ℕ) → env.grants k ≡ true) where
  module _ (t : Thread) (open_fd : t.closes ≡ 0) (whole : t.buffer.block ≡ some t.buffer.size)
      (harmless : IsHarmless t.socket.turns) where
    dispatch-Gives :
        (services : Services Msg) (bytes : Bytes) (p : Packet) (rpc_req : Request) (param : Bytes)
        → p.req_len < 2 ^ 31
        → p.rpc_len + p.req_len ≤ length bytes
        → take p.req_len (drop p.rpc_len bytes) ≡ param
        → Fulfillable env responses messages all
            (count_serves t.socket.turns)
            (answer env services (some rpc_req) param)
        → Gives env responses messages all
            (count_serves t.socket.turns)
            t.socket.input
            t.socket.output
            (answer env services (some rpc_req) param)
            (dispatch env services t bytes p rpc_req)
    unfolding dispatch respond_to_client destroy_connection
    dispatch-Gives services bytes p rpc_req param is_int long got =
        go (resolve services rpc_req.method_identity)
      where
        parsed :
            (cs : CarrotService Msg) (md : ℕ) (o : Option Msg)
            → Fulfillable env responses messages all
                (count_serves t.socket.turns)
                (answer_parsed env cs md o)
            → Gives env responses messages all
                (count_serves t.socket.turns)
                t.socket.input
                t.socket.output
                (answer_parsed env cs md o)
                (or_drops env o t λ request. call_service env t cs md request)
        parsed cs md none k = (ap suc open_fd, refl, refl)
        parsed cs md (some request) k =
            call_service-Gives env responses messages all t open_fd whole harmless cs md request k

        sized : ltb p.req_len (2 ^ 31) ≡ true
        sized = ground (arith, is_int)

        fits_whole : leb (p.rpc_len + p.req_len) (length bytes) ≡ true
        fits_whole = ground (arith, long)

        go :
            (route : Route Msg)
            → Fulfillable env responses messages all
                (count_serves t.socket.turns)
                (answer_route env route param)
            → Gives env responses messages all
                (count_serves t.socket.turns)
                t.socket.input
                t.socket.output
                (answer_route env route param)
                (elim route [
                  | invalid_identity ↦ fault
                  | service_not_found ↦ fault
                  | method_not_found ↦ fault
                  | found cs md ↦
                      parse_sized
                        (cs.s.parse_request md)
                        (cs.s.parse_negative md)
                        p.req_len
                        (drop p.rpc_len bytes)
                        (leb (p.rpc_len + p.req_len) (length bytes))
                        fault
                        λ o. or_drops env o t λ request. call_service env t cs md request
                ])
        go invalid_identity k = tt
        go service_not_found k = tt
        go method_not_found k = tt
        go (found cs md) k =
            rw (sized, fits_whole, got) (parsed cs md (cs.s.parse_request md param) k)

  module _ (services : Services Msg) (t : Thread) (open_fd : t.closes ≡ 0)
      (consistent : IsConsistent t.buffer) (p : Packet) (meta param extra rest : Bytes)
      (a : Arrives t.socket p meta param extra rest)
      (small : 12 + p.rpc_len + p.req_len + p.resp_len ≤ 2 ^ 31) where
    -- If the messages keep the contract of the library, the allocator grants every size, the
    -- descriptor is open, the block of the thread has the size it is said to have, a frame of at
    -- most 2 GB has arrived whole through a kernel that interrupts at worst, and a reply, where
    -- there is one, is not above 2 GB and finds enough served writes, then a round of the threaded
    -- server reads exactly the frame and gives the answer of the description of the simple server:
    -- the reply is written, the loop goes on with the descriptor open, and the round has used no
    -- more served calls than the frame and the reply have bytes; if the metadata or the parameter do
    -- not parse, the descriptor is closed, and the loop goes on as well; it crashes if the call
    -- names no method of a registered service; it lets out the exception of the method.
    pub serve_request-Answers :
        Fulfillable env responses messages all
          (count_serves t.socket.turns - (12 + p.rpc_len + p.req_len + p.resp_len))
          (answer env services (env.requests.parse_from_array meta) param)
        → Gives env responses messages all
            (count_serves t.socket.turns - (12 + p.rpc_len + p.req_len + p.resp_len))
            rest
            t.socket.output
            (answer env services (env.requests.parse_from_array meta) param)
            (serve_request env services t)
    unfolding decode_request destroy_connection
    serve_request-Answers k =
        subst₂
          (λ i o.
            Gives env responses messages all
              (count_serves t.socket.turns - (12 + p.rpc_len + p.req_len + p.resp_len)) i o
              (answer env services parsed param) (serve_request env services t))
          r.input r.output
          (rw (r.goes_on) (
            rw (sized, fits_meta, got_meta, decode_request)
              (Gives-fewer env responses messages all _ (count_serves r.after.turns) _ _
                (answer env services parsed param) _ (omega (arith, r.turns, size))
                (go parsed (
                  fulfils (count_serves r.after.turns) (answer env services parsed param)
                    (omega (arith, r.turns, size)) k)))))
      where
        parsed : Option Request
        parsed = env.requests.parse_from_array meta

        r : Read env all services t open_fd consistent p meta param extra rest a small
        r = reads env all services t open_fd consistent p meta param extra rest a small

        bytes : Bytes
        bytes = meta ++ (param ++ extra)

        size : length bytes ≡ p.rpc_len + p.req_len + p.resp_len
        size = length-payload env all services t open_fd consistent p meta param extra rest a small

        read : Thread
        read = record t { buffer = r.buffer; socket = r.after }

        sized : ltb p.rpc_len (2 ^ 31) ≡ true
        sized = ground (arith, small)

        fits_meta : leb p.rpc_len (length bytes) ≡ true
        fits_meta = ground (arith, size)

        got_meta : take p.rpc_len bytes ≡ meta
        got_meta = ap (λ n. take n bytes) a.rpc ∙ take-append meta (param ++ extra)

        parameter : take p.req_len (drop p.rpc_len bytes) ≡ param
        parameter = rw (a.rpc, a.req, drop-append meta (param ++ extra), take-append param extra)

        fulfils :
            (turns : ℕ) (answer : Answer Msg)
            → count_serves t.socket.turns - (12 + p.rpc_len + p.req_len + p.resp_len) ≤ turns
            → Fulfillable env responses messages all
                (count_serves t.socket.turns - (12 + p.rpc_len + p.req_len + p.resp_len))
                answer
            → Fulfillable env responses messages all turns answer
        fulfils turns (reply x m) h (can, small, enough) = (can, small, omega arith)
        fulfils turns close h f = tt
        fulfils turns crash h f = tt
        fulfils turns (escape what) h f = tt

        go :
            (o : Option Request)
            → Fulfillable env responses messages all
                (count_serves r.after.turns)
                (answer env services o param)
            → Gives env responses messages all
                (count_serves r.after.turns)
                r.after.input
                r.after.output
                (answer env services o param)
                (or_drops env o read λ rpc_req. dispatch env services read bytes p rpc_req)
        go none c = (ap suc open_fd, refl, refl)
        go (some rpc_req) c =
            dispatch-Gives read open_fd (r.held.0) r.harmless services bytes p rpc_req param
              (omega (arith, small)) (omega (arith, size)) parameter c
