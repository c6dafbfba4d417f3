-- ===== src/Server/Simple/Reply.antt =====
-- How handle_client ends for a frame that has arrived whole.
use carrot_rpc.Prelude.{
  ℕ, ◌+◌, ◌^◌, ◌≤◌, ◌<◌, ◌≡◌, refl, Bool, true, some, ◌++◌, Bytes, leb, length, arith,
  length-append,
}
use carrot_rpc.Packet.{Packet, u32, sizeof_packet, header_image, store_u32}
use carrot_rpc.Buffer.{Buffer, IsConsistent}
use carrot_rpc.Io.{Socket, IsHarmless, count_serves}
use carrot_rpc.Io.Writing.{Sent, writes}
use carrot_rpc.Frame.{frame}
use carrot_rpc.Message.{IsCodec}
use carrot_rpc.Protob.Response
use carrot_rpc.Protob.Response.{Response}
use carrot_rpc.Server.Simple.Arrival.{Expands, expands}
use carrot_rpc.Server.Simple.{Served, kept, Environment, respond_to_client, write_reply}

-- The header of a reply with messages of these sizes.
abbrev pub reply_header : ℕ → ℕ → Packet
reply_header rpc_len resp_len = record { rpc_len = rpc_len; req_len = 0; resp_len = resp_len }

module _ {Msg : Type 0} (env : Environment Msg) {ready_to_parse : Msg → Bool} {fits : Msg → Type 0}
    (responses : IsCodec env.responses Response.is_initialized Response.Fits)
    (messages : IsCodec env.messages ready_to_parse fits)
    (all : (k : ℕ) → env.grants k ≡ true) where
  -- The bytes of a reply.
  abbrev pub reply_bytes : Response → Msg → Bytes
  reply_bytes rpc_resp resp =
      frame (reply_header (env.responses.byte_size rpc_resp) (env.messages.byte_size resp))
        (responses.bytes_of rpc_resp ++ messages.bytes_of resp)

  abbrev pub reply_size : Response → Msg → ℕ
  reply_size rpc_resp resp =
      sizeof_packet + env.responses.byte_size rpc_resp + env.messages.byte_size resp

  -- A reply that can be sent: messages of the kind that the library takes, whose frame is below 4 GB.
  pub record CanSend (rpc_resp : Response) (resp : Msg) : Type 0 where
    pub rpc_fits : Response.Fits rpc_resp
    pub resp_fits : fits resp
    pub small : reply_size rpc_resp resp < 2 ^ 32

  pub length-reply_bytes :
      (r : Response) (m : Msg) → CanSend r m → length (reply_bytes r m) ≡ reply_size r m
  unfolding header_image store_u32
  length-reply_bytes r m k = omega (
    arith,
    length-append (responses.bytes_of r) (messages.bytes_of m),
    responses.length-bytes_of r k.rpc_fits,
    messages.length-bytes_of m k.resp_fits,
  )

  -- A call of respond_to_client that returned with the reply sent.
  pub record Replied (s : Socket) (r : Response) (m : Msg) (served : Served) : Type 0 where
    pub buffer : Buffer
    pub sound : IsConsistent buffer
    pub after : Socket
    pub returned : served ≡ kept buffer after
    pub output : after.output ≡ s.output ++ reply_bytes r m
    pub input : after.input ≡ s.input

  write_reply-Sent :
      (c : Buffer) (s : Socket) (r : Response) (m : Msg)
      → CanSend r m
      → (w : Sent s (reply_bytes r m))
      → write_reply env c s (some m) r (env.responses.byte_size r) (env.messages.byte_size m)
        ≡ kept c w.after
  unfolding write_reply
  write_reply-Sent c s r m k w =
      rw
        (
          responses.serialize r (env.responses.byte_size r) k.rpc_fits (omega arith),
          messages.serialize m (env.messages.byte_size m) k.resp_fits (omega arith),
          rpc,
          resp,
          w.returned,
        )
        refl
    where
      rpc : u32 (env.responses.byte_size r) ≡ env.responses.byte_size r
      rpc = omega (arith, k.small)

      resp : u32 (env.messages.byte_size m) ≡ env.messages.byte_size m
      resp = omega (arith, k.small)

  pub replies :
      (b : Buffer) (s : Socket) (r : Response) (m : Msg)
      → IsConsistent b
      → CanSend r m
      → IsHarmless s.turns
      → reply_size r m ≤ count_serves s.turns
      → Replied s r m (respond_to_client env b s (some m) r)
  unfolding respond_to_client
  replies b s r m consistent k h t = record {
    buffer = x.0;
    sound = x.3;
    after = w.after;
    returned = rw (x.1, roomy) (write_reply-Sent x.0 s r m k w);
    output = w.output;
    input = w.input;
  }
    where
      x : Expands env.grants b (u32 (reply_size r m))
      x = expands env.grants b (u32 (reply_size r m)) all consistent

      w : Sent s (reply_bytes r m)
      w = writes s (reply_bytes r m) h (omega (arith, length-reply_bytes r m k))

      roomy : leb (reply_size r m) x.0.size ≡ true
      roomy = ground (arith, x.2, k.small)
