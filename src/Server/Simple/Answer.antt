-- ===== src/Server/Simple/Answer.antt =====
-- handle_client over a frame that has arrived whole, against a description of the answer that does not
-- speak of buffers, sockets and headers.
use mathlib.Core.Path.{subst₂}
use carrot_rpc.Prelude.{
  ℕ, ◌-◌, ◌+◌, ◌≤◌, ◌≡◌, refl, Bool, true, Option, none, some, ◌++◌, Bytes, leb, ltb, ◌<◌, ◌^◌,
  length, take, drop, arith, take-append, drop-append,
}
use carrot_rpc.Packet.{Packet}
use carrot_rpc.Buffer.{Buffer, IsConsistent}
use carrot_rpc.Io.{Socket, IsHarmless, count_serves}
use carrot_rpc.Message.{IsCodec, parse_sized}
use carrot_rpc.Protob.Request.{Request}
use carrot_rpc.Protob.Response
use carrot_rpc.Protob.Response.{Response}
use carrot_rpc.Controller.{new_controller}
use carrot_rpc.Server.Registry.{
  CarrotService, Services, Called, returned, threw, Route, resolve, invalid_identity,
  service_not_found, method_not_found, found,
}
use carrot_rpc.Server.Simple.{
  Served, kept, destroyed, fault, escaped, Environment, or_destroy, respond_to_client, call_service,
  dispatch, handle_client, verdict,
}
use carrot_rpc.Server.Simple.Arrival.{Arrives, Read, reads, decodes, payload, length-payload}
use carrot_rpc.Server.Simple.Reply.{CanSend, reply_size, reply_bytes, replies}

-- The answer to a call: a reply, the end of the connection, the end of the process, or an exception that leaves
-- the handler.
pub data Answer (Msg : Type 0) : Type 0 where
  reply : Response → Msg → Answer Msg
  close : Answer Msg
  crash : Answer Msg
  escape : Bytes → Answer Msg

module _ {Msg : Type 0} (env : Environment Msg) where
  abbrev pub answer_call : Called Msg → Answer Msg
  answer_call (returned response controller) = reply (verdict controller) response
  answer_call (threw what response controller) = escape what

  abbrev pub answer_parsed : CarrotService Msg → ℕ → Option Msg → Answer Msg
  answer_parsed cs md none = close
  answer_parsed cs md (some request) =
      answer_call (cs.s.call_method md (new_controller env.garbage env.garbage) request cs.c)

  abbrev pub answer_route : Route Msg → Bytes → Answer Msg
  answer_route (found cs md) param = answer_parsed cs md (cs.s.parse_request md param)
  answer_route _ param = crash

  -- What the metadata and the parameter of a frame are answered with.
  abbrev pub answer : Services Msg → Option Request → Bytes → Answer Msg
  answer services none param = close
  answer services (some rpc_req) param =
      answer_route (resolve services rpc_req.method_identity) param

module _ {Msg : Type 0} (env : Environment Msg) {ready_to_parse : Msg → Bool} {fits : Msg → Type 0}
    (responses : IsCodec env.responses Response.is_initialized Response.Fits)
    (messages : IsCodec env.messages ready_to_parse fits)
    (all : (k : ℕ) → env.grants k ≡ true) where
  -- A reply can be sent whole within so many served calls of write; the other answers ask for nothing.
  abbrev pub Fulfillable : ℕ → Answer Msg → Type 0
  Fulfillable turns (reply r m) =
      CanSend env responses messages all r m × (reply_size env responses messages all r m ≤ turns)
  Fulfillable turns _ = Unit {0}

  -- The handler gave the answer: of the stream, only the frame was consumed, and only a reply writes.
  abbrev pub Gives : Bytes → Bytes → Answer Msg → Served → Type 0
  Gives rest output (reply r m) (kept b s) =
      IsConsistent b
      × (s.output ≡ output ++ reply_bytes env responses messages all r m)
      × (s.input ≡ rest)
  Gives rest output close (destroyed b s) = IsConsistent b × (s.output ≡ output) × (s.input ≡ rest)
  Gives rest output crash fault = Unit {0}
  Gives rest output (escape what) (escaped what') = what' ≡ what
  Gives rest output _ _ = ⊥

  abbrev Can : Socket → Answer Msg → Type 0
  Can s a = Fulfillable (count_serves s.turns) a

  fulfils : (n k : ℕ) (a : Answer Msg) → n ≤ k → Fulfillable n a → Fulfillable k a
  fulfils n k (reply r m) h (can, turns) = (can, omega arith)
  fulfils n k close h f = tt
  fulfils n k crash h f = tt
  fulfils n k (escape what) h f = tt

  call_service-Gives :
      (b : Buffer) (s : Socket) (cs : CarrotService Msg) (md : ℕ) (request : Msg)
      → IsConsistent b
      → IsHarmless s.turns
      → Can s (answer_parsed env cs md (some request))
      → Gives s.input s.output
          (answer_parsed env cs md (some request))
          (call_service env b s cs md request)
  unfolding call_service
  call_service-Gives b s cs md request consistent h k =
      go (cs.s.call_method md (new_controller env.garbage env.garbage) request cs.c) k
    where
      go :
          (called : Called Msg)
          → Can s (answer_call env called)
          → Gives s.input s.output (answer_call env called) (elim called [
            | returned response controller ↦
                respond_to_client env b s (some response) (verdict controller)
            | threw what response controller ↦ escaped what
          ])
      go (returned m c) (can, turns) =
          let r = replies env responses messages all b s (verdict c) m consistent can h turns in
          rw r.returned (r.sound, r.output, r.input)
      go (threw what m c) _ = refl

  dispatch-Gives :
      (services : Services Msg) (b : Buffer) (s : Socket) (bytes : Bytes) (p : Packet)
      (rpc_req : Request) (param : Bytes)
      → p.req_len < 2 ^ 31
      → p.rpc_len + p.req_len ≤ length bytes
      → take p.req_len (drop p.rpc_len bytes) ≡ param
      → IsConsistent b
      → IsHarmless s.turns
      → Can s (answer env services (some rpc_req) param)
      → Gives s.input s.output
          (answer env services (some rpc_req) param)
          (dispatch env services b s bytes p rpc_req)
  unfolding dispatch respond_to_client
  dispatch-Gives services b s bytes p rpc_req param is_int whole got consistent h =
      go (resolve services rpc_req.method_identity)
    where
      parsed :
          (cs : CarrotService Msg) (md : ℕ) (o : Option Msg)
          → Can s (answer_parsed env cs md o)
          → Gives s.input s.output
              (answer_parsed env cs md o)
              (or_destroy o b s λ request. call_service env b s cs md request)
      parsed cs md none k = (consistent, refl, refl)
      parsed cs md (some request) k = call_service-Gives b s cs md request consistent h k

      sized : ltb p.req_len (2 ^ 31) ≡ true
      sized = ground (arith, is_int)

      fits_whole : leb (p.rpc_len + p.req_len) (length bytes) ≡ true
      fits_whole = ground (arith, whole)

      go :
          (route : Route Msg)
          → Can s (answer_route env route param)
          → Gives s.input s.output (answer_route env route param) (elim route [
            | invalid_identity ↦ fault
            | service_not_found ↦ fault
            | method_not_found ↦ fault
            | found cs md ↦
                parse_sized
                  (cs.s.parse_request md)
                  (cs.s.parse_negative md)
                  p.req_len
                  (drop p.rpc_len bytes)
                  (leb (p.rpc_len + p.req_len) (length bytes))
                  fault
                  λ o. or_destroy o b s λ request. call_service env b s cs md request
          ])
      go invalid_identity k = tt
      go service_not_found k = tt
      go method_not_found k = tt
      go (found cs md) k =
          rw (sized, fits_whole, got) (parsed cs md (cs.s.parse_request md param) k)

  module _ (services : Services Msg) (b : Buffer) (consistent : IsConsistent b) (s : Socket)
      (p : Packet) (meta param extra rest : Bytes) (a : Arrives s p meta param extra rest) where
    parameter_at :
        take p.req_len
          (drop p.rpc_len (payload env all services b consistent s p meta param extra rest a))
        ≡ param
    unfolding payload
    parameter_at = rw (a.rpc, a.req, drop-append meta (param ++ extra), take-append param extra)

    -- If the messages keep the contract of the library, the allocator grants every size, a frame
    -- whose three lengths add up to less than 4 GB, and whose metadata and parameter are each below
    -- 2 GB, has arrived whole through a kernel that interrupts at worst, the block has the size it
    -- is said to have, and a reply, where there is one, is below 4 GB and finds enough served
    -- writes, then the handler reads exactly the frame and gives the answer of the description: it
    -- closes the connection, with nothing written, if the metadata or the parameter do not parse; it
    -- crashes if the call names no method of a registered service; it lets out the exception of the
    -- method; else it sends the message that the method made, behind its status.
    pub handle_client-Answers :
        p.rpc_len < 2 ^ 31
        → p.req_len < 2 ^ 31
        → Fulfillable
            (count_serves s.turns - (12 + p.rpc_len + p.req_len + p.resp_len))
            (answer env services (env.requests.parse_from_array meta) param)
        → Gives rest s.output
            (answer env services (env.requests.parse_from_array meta) param)
            (handle_client env services b s)
    handle_client-Answers rpc_int req_int k =
        subst₂
          (λ i o. Gives i o (answer env services parsed param) (handle_client env services b s))
          r.input r.output
          (rw
            (
              r.goes_on,
              decodes env all services b consistent s p meta param extra rest a rpc_int r.buffer
                  r.after,
            )
            (go parsed (
              fulfils _ (count_serves r.after.turns) (answer env services parsed param)
                (omega (arith, r.turns, size)) k)))
      where
        parsed : Option Request
        parsed = env.requests.parse_from_array meta

        r : Read env all services b consistent s p meta param extra rest a
        r = reads env all services b consistent s p meta param extra rest a

        bytes : Bytes
        bytes = payload env all services b consistent s p meta param extra rest a

        size : length bytes ≡ p.rpc_len + p.req_len + p.resp_len
        size = length-payload env all services b consistent s p meta param extra rest a

        go :
            (o : Option Request)
            → Can r.after (answer env services o param)
            → Gives r.after.input r.after.output (answer env services o param) (
                or_destroy o r.buffer r.after
                  λ rpc_req. dispatch env services r.buffer r.after bytes p rpc_req)
        go none c = (r.sound, refl, refl)
        go (some rpc_req) c =
            dispatch-Gives services r.buffer r.after bytes p rpc_req param req_int
              (omega (arith, size)) parameter_at r.sound r.harmless c
