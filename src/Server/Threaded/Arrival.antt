-- ===== src/Server/Threaded/Arrival.antt =====
-- A round of the threaded server up to the metadata of a request that has arrived whole.
use carrot_rpc.Prelude.{
  ℕ, ◌+◌, ◌^◌, ◌≤◌, ◌≡◌, refl, ap, ◌∙◌, true, ◌&&◌, ◌++◌, Bytes, leb, length, arith, length-append,
  ◌==◌,
}
use carrot_rpc.Packet.{Packet, sizeof_packet}
use carrot_rpc.Buffer.{Buffer, ready, expand_packet, IsConsistent}
use carrot_rpc.Buffer.Growth.{Holds, expand_packet-Ready}
use carrot_rpc.Io.{Socket, Outcome, completed, read_n, IsHarmless, count_serves}
use carrot_rpc.Frame.{read_header, receive}
use carrot_rpc.Frame.Header.{Got, read_header-Got, receive-Got}
use carrot_rpc.Server.Registry.{Services}
use carrot_rpc.Server.Simple.{Environment, packet_size, payload_size}
use carrot_rpc.Server.Simple.Arrival.{Arrives}
use carrot_rpc.Server.Threaded.{Thread, on_descriptor, decode_request, read_payload, serve_request}

-- A system call on a descriptor that was not closed.
pub on_descriptor-open :
    {A : Type 0} (call : Socket → Outcome A) (t : Thread)
    → t.closes ≡ 0
    → on_descriptor call t ≡ call t.socket
on_descriptor-open call t open_fd = rw is_open refl
  where
    is_open : (t.closes == 0) ≡ true
    is_open = ground (arith, open_fd)

module _ {Msg : Type 0} (env : Environment Msg) (all : (k : ℕ) → env.grants k ≡ true)
    (services : Services Msg) (t : Thread) (open_fd : t.closes ≡ 0)
    (consistent : IsConsistent t.buffer) (p : Packet) (meta param extra rest : Bytes)
    (a : Arrives t.socket p meta param extra rest)
    (small : 12 + p.rpc_len + p.req_len + p.resp_len ≤ 2 ^ 31) where
  abbrev pub payload : Bytes
  payload = meta ++ (param ++ extra)

  pub length-payload : length payload ≡ p.rpc_len + p.req_len + p.resp_len
  length-payload =
      omega (
        arith,
        length-append meta (param ++ extra),
        length-append param extra,
        a.rpc,
        a.req,
        a.resp,
      )

  -- The thread after the payload was read.
  pub record Read : Type 0 where
    pub buffer : Buffer
    pub held : Holds buffer (packet_size p)
    pub after : Socket
    pub goes_on :
        serve_request env services t
        ≡ decode_request env services (record t { buffer = buffer; socket = after }) payload p
    pub input : after.input ≡ rest
    pub output : after.output ≡ t.socket.output
    pub harmless : IsHarmless after.turns
    pub turns : count_serves t.socket.turns ≤ count_serves after.turns + (12 + length payload)

  pub reads : Read
  unfolding serve_request read_payload
  reads = record {
    buffer = b.0;
    held = b.2;
    after = q.after;
    goes_on = rw (on_descriptor-open read_header t open_fd) (
        rw header.returned (
          rw (b.1, roomy, read_payload)
            (rw (on_descriptor-open (λ s. read_n s (payload_size p)) read_thread open_fd)
              (rw got refl))));
    input = q.input;
    output = q.output ∙ header.output;
    harmless = q.harmless;
    turns = omega (arith, header.turns, q.turns);
  }
    where
      header : Got t.socket p 12 (payload ++ rest) (read_header t.socket)
      header =
          read_header-Got t.socket p (payload ++ rest)
            (record {
              rpc = omega (arith, small);
              req = omega (arith, small);
              resp = omega (arith, small);
            })
            a.input a.harmless (omega (arith, a.turns))

      whole : packet_size p ≡ 12 + length payload
      whole = omega (arith, small, length-payload)

      b :
          (b : Buffer) × (expand_packet env.grants 32 t.buffer (packet_size p) ≡ ready b)
          × Holds b (packet_size p)
      b =
          expand_packet-Ready env.grants t.buffer (packet_size p) all consistent
            (omega (arith, whole, length-payload, small))

      read_thread : Thread
      read_thread = record t { buffer = b.0; socket = header.after }

      wanted : payload_size p ≡ length payload
      wanted = omega (arith, small, length-payload)

      roomy : (leb sizeof_packet b.0.size && leb (sizeof_packet + payload_size p) b.0.size) ≡ true
      roomy = ground (arith, b.2, whole, wanted)

      q : Got header.after payload (length payload) rest (receive (length payload) header.after)
      q =
          receive-Got header.after payload rest header.input header.harmless
            (omega (arith, header.turns, a.turns, length-payload))

      got : read_n header.after (payload_size p) ≡ completed payload q.after
      got = ap (read_n header.after) wanted ∙ q.returned
