-- ===== src/Call/Whole.antt =====
-- A call and its reply.
use carrot_rpc.Prelude.{
  ℕ, ◌≤◌, ◌≡◌, refl, ap, sym, subst, inl, inr, Bool, true, false, some, [], ◌++◌, Bytes, take, drop,
  arith, Bool-cases, append-nil,
}
use carrot_rpc.Buffer.{Buffer, IsConsistent}
use carrot_rpc.Packet.{sizeof_packet}
use carrot_rpc.Frame.{frame}
use carrot_rpc.Message.{IsCodec}
use carrot_rpc.Protob.Request
use carrot_rpc.Protob.Response
use carrot_rpc.Controller.{Controller, new_controller}
use carrot_rpc.Server
use carrot_rpc.Server.Registry.{CarrotService, Services, returned, resolve, found}
use carrot_rpc.Server.Async.Handlers.{verdict}
use carrot_rpc.Server.Async.Given.{reply, answer}
use carrot_rpc.Server.Async.Session.{Exchange, exchange, Waits, IsServed, Exchanged, exchanges}
use carrot_rpc.Client
use carrot_rpc.Client.Async.{CallTask, elem, insert, find_task, on_task, at_id, each}
use carrot_rpc.Client.Async.Calls.{set_buffer, set_state, request_of, launch, start_call}
use carrot_rpc.Client.Async.Once.{elem-insert}
use carrot_rpc.Client.Async.Ending.{find_task-hit}
use carrot_rpc.Call.{call}
use carrot_rpc.Call.Request.{
  CanCall, request_header, request_payload, request_size, start_call-launches,
}
use carrot_rpc.Call.Reply.{
  reply_size, IsReply, IsEnded, take-frame, drop-frame, receive_reply-settles,
}

verdict-is_initialized :
    (id : ℕ) (controller : Controller) → Response.is_initialized (verdict id controller) ≡ true
unfolding Response.is_initialized
verdict-is_initialized id controller = elim (Bool-cases controller.failed) [
  | inl y ↦ simp y refl
  | inr z ↦ simp z refl
]

module _ {Msg : Type 0} (client : Client.Async.Environment Msg) {ready_to_parse : Msg → Bool}
    {fits : Msg → Type 0} (requests : IsCodec client.requests Request.is_initialized Request.Fits)
    (responses : IsCodec client.responses Response.is_initialized Response.Fits)
    (messages : IsCodec client.messages ready_to_parse fits)
    (all : (k : ℕ) → client.grants k ≡ true) (garbage : ℕ) (strerror : Bytes)
    (services : Services Msg) where
  -- A server with the same messages.
  abbrev pub server : Server.Simple.Environment Msg
  server = record {
    requests = client.requests;
    responses = client.responses;
    messages = client.messages;
    grants = client.grants;
    garbage = garbage;
    strerror = strerror;
  }

  -- A call of a method that the server has, that returns, and whose reply is not larger than the request.
  pub record IsCallable (t : CallTask Msg) (response : Msg) : Type 0 where
    pub can : CanCall client requests messages all t
    pub service : CarrotService Msg
    pub md : ℕ
    pub request : Msg
    pub controller : Controller
    pub routed : resolve services t.method ≡ found service md
    pub parses : service.s.parse_request md (messages.bytes_of t.request) ≡ some request
    pub called :
        service.s.call_method md (new_controller garbage garbage) request service.c
        ≡ returned response controller
    pub verdict_fits : Response.Fits (verdict t.id controller)
    pub response_fits : fits response
    pub response_complete : ready_to_parse response ≡ true
    pub no_larger :
        reply_size client responses messages all (verdict t.id controller) response
        ≤ request_size client requests messages all t

  module _ (t : CallTask Msg) (response : Msg) (k : IsCallable t response) where
    -- The frame as the server reads it.
    abbrev request_frame : Exchange
    request_frame = record {
      packet = request_header client requests messages all t;
      meta = requests.bytes_of (request_of client t);
      param = messages.bytes_of t.request;
      extra = [];
    }

    answers :
        answer server services
          (client.requests.parse_from_array (requests.bytes_of (request_of client t)))
          (messages.bytes_of t.request)
        ≡ reply (verdict t.id k.controller) response
    unfolding Request.is_initialized
    answers =
        rw (requests.parse-bytes_of (request_of client t) k.can.meta_fits refl)
          (rw k.routed (rw k.parses (rw k.called refl)))

    served : IsServed server responses messages all services request_frame
    served = record {
      rpc = sym (requests.length-bytes_of (request_of client t) k.can.meta_fits);
      req = sym (messages.length-bytes_of t.request k.can.request_fits);
      resp = refl;
      small = omega (arith, k.can.small);
      response = verdict t.id k.controller;
      message = response;
      answers = answers;
      sendable = (k.verdict_fits, k.response_fits);
      no_larger = omega (arith, k.no_larger);
    }

    -- The channel after the request was sent, with the task in a block of its own.
    module _ (c : Client.Async.Connection Msg) (consistent : IsConsistent c.buffer)
        (known : find_task t.id c.tasks ≡ some t) (open_call : t.called ≡ false) where
      abbrev request_bytes : Bytes
      request_bytes =
          frame (request_header client requests messages all t)
            (request_payload client requests messages all t)

      block : Buffer
      block = (start_call-launches client requests messages all t k.can c).0

      abbrev prepared : Client.Async.Connection Msg
      prepared = on_task t.id (set_buffer block) c

      abbrev calling : Client.Async.Connection Msg
      calling = launch client t request_bytes prepared

      launched : start_call client t c ≡ Client.Async.Calls.returned calling
      unfolding block
      launched = (start_call-launches client requests messages all t k.can c).1

      abbrev sent_task : CallTask Msg
      sent_task = set_state Client.Async.write_to_server (set_buffer block t)

      found_again : find_task t.id calling.tasks ≡ some sent_task
      found_again =
          find_task-hit client t.id (set_state Client.Async.write_to_server)
            (each (at_id t.id (set_buffer block)) c.tasks) (set_buffer block t) (λ t. refl)
            (find_task-hit client t.id (set_buffer block) c.tasks t (λ t. refl) known)

      is_outgoing : elem t.id calling.outgoing_tasks ≡ true
      is_outgoing = ground (arith, elem-insert t.id t.id c.outgoing_tasks)

      replied :
          IsReply client responses messages all
            (verdict t.id k.controller)
            response
            calling
            sent_task
      replied = record {
        rpc_fits = k.verdict_fits;
        rpc_complete = verdict-is_initialized t.id k.controller;
        message_fits = k.response_fits;
        message_complete = k.response_complete;
        small = omega (arith, k.can.small, k.no_larger);
        consistent = consistent;
        outgoing = is_outgoing;
        known = found_again;
        open_call = open_call;
      }

      module _ (s : Server.Async.Connection) (waits : Waits s) where
        exchanged : Exchanged server responses messages all services request_frame served s
        exchanged = exchanges server responses messages all services request_frame served s waits

        payload-whole :
            requests.bytes_of (request_of client t) ++ (messages.bytes_of t.request ++ [])
            ≡ request_payload client requests messages all t
        payload-whole = ap (◌++◌ (requests.bytes_of (request_of client t))) (append-nil _)

        served_bytes :
            exchange server services
              (take sizeof_packet request_bytes)
              (drop sizeof_packet request_bytes)
              s
            ≡ Server.Async.finished exchanged.after
        served_bytes =
            rw
              (
                take-frame (request_header client requests messages all t) _,
                drop-frame (request_header client requests messages all t) _,
              )
              (subst
                (λ bytes.
                  exchange server services
                    (frame (request_header client requests messages all t) []) bytes s
                  ≡ Server.Async.finished exchanged.after)
                payload-whole exchanged.goes_on)

        -- If the messages keep the contract of the library on both sides, the allocators grant every size, the
        -- blocks of the task and of the channel have the sizes they are said to have, the messages of the call
        -- are of the kind that the library takes and the response is complete, the channel knows the call,
        -- which is not over, the server's connection waits for a frame and finds the method of the call, the
        -- method parses the parameter and returns, and the reply is not above the size of the request, which
        -- is at most 2 GB, then the call goes through: the bytes that start_call sends are served, the bytes
        -- of the reply end the call, whose callback is run once more and whose response is the message that
        -- the method made, the call is no longer outgoing, and the server's connection waits for the next
        -- frame.
        pub call-Answered :
            (d : Client.Async.Connection Msg) × (s' : Server.Async.Connection) × (call client server
                services t c s
              ≡ some (d, s'))
            × IsEnded client responses messages all t.id t (some response) d
            × Waits s'
        unfolding served
        call-Answered =
            let (d, received, ended) =
              receive_reply-settles client responses messages all (verdict t.id k.controller)
                response calling sent_task replied in
            (
              d,
              exchanged.after,
              rw launched (rw served_bytes (rw exchanged.sent (rw received refl))),
              ended,
              exchanged.waits,
            )
