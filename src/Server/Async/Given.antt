-- ===== src/Server/Async/Given.antt =====
-- The answer to the payload of a frame, described apart from the code, and how a reply is sent.
use carrot_rpc.Prelude.{
  ap, sym, ◌∙◌, take, take-all, length, length-append, ℕ, ◌+◌, ◌≡◌, refl, Bool, false, Option, none,
  some, ◌∷◌, ◌++◌, Bytes, text, leb, arith, if◌then◌else◌, Bool-cases, inl, inr,
}
use carrot_rpc.Packet.{header_image, store_u32, sizeof_packet, u32}
use carrot_rpc.Buffer.Growth.{Holds, expand_packet-holds}
use carrot_rpc.Frame.{frame}
use carrot_rpc.Message.{IsCodec}
use carrot_rpc.Protob.Request.{Request}
use carrot_rpc.Protob.Response
use carrot_rpc.Protob.Response.{Response}
use carrot_rpc.Controller.{new_controller}
use carrot_rpc.Server.Registry.{
  CarrotService, Services, Called, returned, threw, Route, resolve, found,
}
use carrot_rpc.Server.Simple.{Environment}
use carrot_rpc.Server.Async.{
  writing_response, Connection, Ended, finished, raised, crashed, destroy, write_response,
  respond_to_client,
}
use carrot_rpc.Server.Async.Handlers.{verdict, internal_error, call_service}

-- The answer to a call: a reply, an exception behind the end of the connection, or the end of the process.
pub data Answer (Msg : Type 0) : Type 0 where
  reply : Response → Msg → Answer Msg
  refuse : Bytes → Answer Msg
  crash : Answer Msg

module _ {Msg : Type 0} (env : Environment Msg) where
  abbrev pub answer_call : ℕ → Called Msg → Answer Msg
  answer_call id (returned response controller) = reply (verdict id controller) response
  answer_call id (threw what response controller) =
      reply (verdict id (internal_error what controller)) response

  abbrev pub answer_parsed : CarrotService Msg → ℕ → ℕ → Option Msg → Answer Msg
  answer_parsed cs md id none = refuse (text "failed to read request parameter from client")
  answer_parsed cs md id (some request) =
      answer_call id (cs.s.call_method md (new_controller env.garbage env.garbage) request cs.c)

  abbrev pub answer_route : Route Msg → ℕ → Bytes → Answer Msg
  answer_route (found cs md) id param = answer_parsed cs md id (cs.s.parse_request md param)
  answer_route _ id param = crash

  -- What the metadata and the parameter of a frame are answered with.
  abbrev pub answer : Services Msg → Option Request → Bytes → Answer Msg
  answer services none param =
      refuse (text "failed to read incoming packet from client: " ++ env.strerror)
  answer services (some rpc_req) param =
      answer_route (resolve services rpc_req.method_identity) rpc_req.id param

module _ {Msg : Type 0} (env : Environment Msg) {ready_to_parse : Msg → Bool} {fits : Msg → Type 0}
    (responses : IsCodec env.responses Response.is_initialized Response.Fits)
    (messages : IsCodec env.messages ready_to_parse fits) where
  abbrev pub reply_size : Response → Msg → ℕ
  reply_size r m = sizeof_packet + env.responses.byte_size r + env.messages.byte_size m

  abbrev pub reply_bytes : Response → Msg → Bytes
  reply_bytes r m =
      frame
        (record {
          rpc_len = env.responses.byte_size r;
          req_len = 0;
          resp_len = env.messages.byte_size m;
        })
        (responses.bytes_of r ++ messages.bytes_of m)

  -- A reply of messages that the library takes.
  abbrev pub CanSend : Answer Msg → Type 0
  CanSend (reply r m) = Response.Fits r × fits m
  CanSend _ = Unit {0}

  -- A reply is sent if it fits into the block that the request was read into, and is written beyond the block
  -- if it does not.
  abbrev pub gives : Connection → Answer Msg → Ended Connection
  gives c (reply r m) =
      if leb (reply_size r m) c.buffer.size
      then finished
          (record c { pending = writing_response ∷ c.pending; sent = reply_bytes r m ∷ c.sent })
      else crashed
  gives c (refuse what) = raised (destroy c) what
  gives c crash = crashed

  length-reply_bytes :
      (r : Response) (m : Msg) → CanSend (reply r m) → length (reply_bytes r m) ≡ reply_size r m
  unfolding header_image store_u32
  length-reply_bytes r m (rpc_fits, resp_fits) = omega (
    arith,
    length-append (responses.bytes_of r) (messages.bytes_of m),
    responses.length-bytes_of r rpc_fits,
    messages.length-bytes_of m resp_fits,
  )

  write_response-gives :
      (c : Connection) (r : Response) (m : Msg)
      → CanSend (reply r m)
      → write_response env c r m ≡ gives c (reply r m)
  unfolding write_response
  write_response-gives c r m (rpc_fits, resp_fits) =
      rw
        (
          responses.serialize r (env.responses.byte_size r) rpc_fits (omega arith),
          messages.serialize m (env.messages.byte_size m) resp_fits (omega arith),
          rpc,
          resp,
          cut,
        )
        (elim (Bool-cases (leb (sizeof_packet + env.responses.byte_size r) c.buffer.size)) [
          | inl y ↦ rw y refl
          | inr z ↦ rw (z, too_large z) refl
        ])
    where
      rpc : u32 (env.responses.byte_size r) ≡ env.responses.byte_size r
      rpc = omega (arith, responses.size_is_int r rpc_fits)

      resp : u32 (env.messages.byte_size m) ≡ env.messages.byte_size m
      resp = omega (arith, messages.size_is_int m resp_fits)

      cut : take (reply_size r m) (reply_bytes r m) ≡ reply_bytes r m
      cut =
          ap (λ n. take n (reply_bytes r m)) (sym (length-reply_bytes r m (rpc_fits, resp_fits)))
          ∙ take-all (reply_bytes r m)

      too_large :
          leb (sizeof_packet + env.responses.byte_size r) c.buffer.size ≡ false
          → leb (reply_size r m) c.buffer.size ≡ false
      too_large z = ground (arith, z)

  respond_to_client-gives :
      (c : Connection) (r : Response) (m : Msg)
      → Holds c.buffer c.n
      → CanSend (reply r m)
      → respond_to_client env c (some m) r ≡ gives c (reply r m)
  unfolding respond_to_client
  respond_to_client-gives c r m (whole, enough) can =
      rw (expand_packet-holds env.grants 32 c.buffer c.n whole enough, respond_to_client)
        (write_response-gives c r m can)

  pub call_service-gives :
      (services : Services Msg) (c : Connection) (cs : CarrotService Msg) (md id : ℕ)
      (request : Msg)
      → Holds c.buffer c.n
      → CanSend (answer_parsed env cs md id (some request))
      → call_service env services c cs md id request
        ≡ gives c (answer_parsed env cs md id (some request))
  unfolding call_service
  call_service-gives services c cs md id request held can =
      go (cs.s.call_method md (new_controller env.garbage env.garbage) request cs.c) can
    where
      go :
          (called : Called Msg)
          → CanSend (answer_call env id called)
          → elim called [
            | returned response controller ↦
                respond_to_client env c (some response) (verdict id controller)
            | threw what response controller ↦
                respond_to_client env c
                  (some response)
                  (verdict id (internal_error what controller))
          ]
            ≡ gives c (answer_call env id called)
      go (returned m k) can = respond_to_client-gives c (verdict id k) m held can
      go (threw what m k) can =
          respond_to_client-gives c (verdict id (internal_error what k)) m held can
