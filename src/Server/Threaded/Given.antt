-- ===== src/Server/Threaded/Given.antt =====
-- What a round of the threaded server that gave an answer did, and that respond_to_client and the call of a
-- method give it.
use carrot_rpc.Prelude.{
  ℕ, ◌+◌, ◌^◌, ◌≤◌, ◌≡◌, refl, ap, ◌∙◌, inr, Bool, true, some, ◌++◌, Bytes, leb, take, take-all,
  arith,
}
use carrot_rpc.Packet.{u32, sizeof_packet}
use carrot_rpc.Buffer.{Buffer, ready, expand_packet}
use carrot_rpc.Buffer.Growth.{Holds, expand_packet-Ready}
use carrot_rpc.Io.{IsHarmless, count_serves}
use carrot_rpc.Io.Writing.{Sent, writes}
use carrot_rpc.Message.{IsCodec}
use carrot_rpc.Protob.Response
use carrot_rpc.Protob.Response.{Response}
use carrot_rpc.Controller.{new_controller}
use carrot_rpc.Server.Registry.{CarrotService, Called, returned, threw}
use carrot_rpc.Server.Simple.{Environment, verdict}
use carrot_rpc.Server.Simple.Reply.{CanSend, reply_size, reply_bytes, length-reply_bytes}
use carrot_rpc.Server.Simple.Answer.{
  Answer, reply, close, crash, escape, answer_call, answer_parsed,
}
use carrot_rpc.Server.Threaded.{
  Thread, Round, goes_on, breaks, blocked, fault, escaped, with_socket, send_reply,
  respond_to_client, call_service,
}
use carrot_rpc.Server.Threaded.Arrival.{on_descriptor-open}

module _ {Msg : Type 0} (env : Environment Msg) {ready_to_parse : Msg → Bool} {fits : Msg → Type 0}
    (responses : IsCodec env.responses Response.is_initialized Response.Fits)
    (messages : IsCodec env.messages ready_to_parse fits)
    (all : (k : ℕ) → env.grants k ≡ true) where
  -- A reply of at most 2 GB can be sent whole within so many served calls of write.
  abbrev pub Fulfillable : ℕ → Answer Msg → Type 0
  Fulfillable turns (reply r m) =
      CanSend env responses messages all r m
      × (reply_size env responses messages all r m ≤ 2 ^ 31)
      × (reply_size env responses messages all r m ≤ turns)
  Fulfillable turns _ = Unit {0}

  -- The round gave the answer: of the stream, only the frame was consumed, and only a reply writes, with so many served
  -- calls in hand before it. A request that does not parse closes the descriptor, and the loop goes on.
  abbrev pub Gives : ℕ → Bytes → Bytes → Answer Msg → Round → Type 0
  Gives turns rest output (reply r m) (goes_on t) =
      (t.closes ≡ 0)
      × (t.buffer.block ≡ some t.buffer.size)
      × (t.socket.output ≡ output ++ reply_bytes env responses messages all r m)
      × (t.socket.input ≡ rest)
      × IsHarmless t.socket.turns
      × (turns ≤ count_serves t.socket.turns + reply_size env responses messages all r m)
  Gives turns rest output close (goes_on t) =
      (t.closes ≡ 1) × (t.socket.output ≡ output) × (t.socket.input ≡ rest)
  Gives turns rest output crash fault = Unit {0}
  Gives turns rest output (escape what) (escaped what') = what' ≡ what
  Gives turns rest output _ _ = ⊥

  pub Gives-fewer :
      (n k : ℕ) (rest output : Bytes) (answer : Answer Msg) (round : Round)
      → n ≤ k
      → Gives k rest output answer round
      → Gives n rest output answer round
  Gives-fewer n k rest output (reply r m) (goes_on t) h (c, b, o, i, x, turns) =
      (c, b, o, i, x, omega arith)
  Gives-fewer n k rest output close (goes_on t) h g = g
  Gives-fewer n k rest output crash fault h g = tt
  Gives-fewer n k rest output (escape what) (escaped what') h g = g
  Gives-fewer n k rest output (reply r m) (breaks t) h g = g
  Gives-fewer n k rest output (reply r m) blocked h g = g
  Gives-fewer n k rest output (reply r m) fault h g = g
  Gives-fewer n k rest output (reply r m) (escaped what) h g = g
  Gives-fewer n k rest output close (breaks t) h g = g
  Gives-fewer n k rest output close blocked h g = g
  Gives-fewer n k rest output close fault h g = g
  Gives-fewer n k rest output close (escaped what) h g = g
  Gives-fewer n k rest output crash (goes_on t) h g = g
  Gives-fewer n k rest output crash (breaks t) h g = g
  Gives-fewer n k rest output crash blocked h g = g
  Gives-fewer n k rest output crash (escaped what) h g = g
  Gives-fewer n k rest output (escape what) (goes_on t) h g = g
  Gives-fewer n k rest output (escape what) (breaks t) h g = g
  Gives-fewer n k rest output (escape what) blocked h g = g
  Gives-fewer n k rest output (escape what) fault h g = g

  send_reply-sends :
      (t : Thread)
      → t.closes ≡ 0
      → (r : Response) (m : Msg) → CanSend env responses messages all r m
      → (w : Sent t.socket (reply_bytes env responses messages all r m))
      → send_reply env t (some m) r (env.responses.byte_size r) (env.messages.byte_size m)
        ≡ goes_on (with_socket w.after t)
  unfolding send_reply
  send_reply-sends t open_fd r m k w =
      rw
        (
          responses.serialize r (env.responses.byte_size r) k.rpc_fits (omega arith),
          messages.serialize m (env.messages.byte_size m) k.resp_fits (omega arith),
          send_reply,
        )
        (rw (on_descriptor-open _ t open_fd) (rw cut (rw w.returned refl)))
    where
      cut :
          take
            (u32 (sizeof_packet + env.responses.byte_size r + env.messages.byte_size m))
            (reply_bytes env responses messages all r m)
          ≡ reply_bytes env responses messages all r m
      cut =
          ap (λ n. take n (reply_bytes env responses messages all r m))
            (omega (arith, k.small, length-reply_bytes env responses messages all r m k))
          ∙ take-all (reply_bytes env responses messages all r m)

  module _ (t : Thread) (open_fd : t.closes ≡ 0) (whole : t.buffer.block ≡ some t.buffer.size)
      (harmless : IsHarmless t.socket.turns) where
    respond-Gives :
        (r : Response) (m : Msg)
        → Fulfillable (count_serves t.socket.turns) (reply r m)
        → Gives
            (count_serves t.socket.turns)
            t.socket.input
            t.socket.output
            (reply r m)
            (respond_to_client env t (some m) r)
    unfolding respond_to_client
    respond-Gives r m (can, small, turns) =
        rw (rpc, resp)
          (rw (size, b.1, roomy, respond_to_client)
            (rw (send_reply-sends (record t { buffer = b.0 }) open_fd r m can w) (
              open_fd,
              b.2.0,
              w.output,
              w.input,
              w.harmless,
              omega (arith, w.turns, length-reply_bytes env responses messages all r m can),
            )))
      where
        rpc : u32 (env.responses.byte_size r) ≡ env.responses.byte_size r
        rpc = omega (arith, small)

        resp : u32 (env.messages.byte_size m) ≡ env.messages.byte_size m
        resp = omega (arith, small)

        size :
            u32 (sizeof_packet + env.responses.byte_size r + env.messages.byte_size m)
            ≡ reply_size env responses messages all r m
        size = omega (arith, small)

        b :
            (b : Buffer) × (expand_packet env.grants 32 t.buffer
                (reply_size env responses messages all r m)
              ≡ ready b)
            × Holds b (reply_size env responses messages all r m)
        b =
            expand_packet-Ready env.grants t.buffer (reply_size env responses messages all r m) all
              (inr whole) small

        roomy : leb (reply_size env responses messages all r m) b.0.size ≡ true
        roomy = ground (arith, b.2)

        w : Sent t.socket (reply_bytes env responses messages all r m)
        w =
            writes t.socket (reply_bytes env responses messages all r m) harmless
              (omega (arith, length-reply_bytes env responses messages all r m can, turns))

    pub call_service-Gives :
        (cs : CarrotService Msg) (md : ℕ) (request : Msg)
        → Fulfillable (count_serves t.socket.turns) (answer_parsed env cs md (some request))
        → Gives
            (count_serves t.socket.turns)
            t.socket.input
            t.socket.output
            (answer_parsed env cs md (some request))
            (call_service env t cs md request)
    unfolding call_service
    call_service-Gives cs md request k =
        go (cs.s.call_method md (new_controller env.garbage env.garbage) request cs.c) k
      where
        go :
            (called : Called Msg)
            → Fulfillable (count_serves t.socket.turns) (answer_call env called)
            → Gives
                (count_serves t.socket.turns)
                t.socket.input
                t.socket.output
                (answer_call env called)
                (elim called [
                  | returned response controller ↦
                      respond_to_client env t (some response) (verdict controller)
                  | threw what response controller ↦ escaped what
                ])
        go (returned m c) k = respond-Gives (verdict c) m k
        go (threw what m c) _ = refl
