-- ===== src/Server/Simple/Arrival.antt =====
-- handle_client up to the request's metadata.
use carrot_rpc.Prelude.{
  ℕ, ◌+◌, ◌^◌, ◌≤◌, ◌<◌, ◌≡◌, refl, ap, ◌∙◌, inr, Bool, true, ◌&&◌, ◌++◌, Bytes, leb, ltb, length,
  take, arith, length-append, take-append,
}
use carrot_rpc.Packet.{Packet, sizeof_packet}
use carrot_rpc.Buffer.{
  Buffer, Expanded, ready, failed, looping, expand_connection_packet, IsConsistent, Serves,
}
use carrot_rpc.Buffer.Growth.{expand_connection_packet-Serves}
use carrot_rpc.Io.{Socket, completed, read_n, IsHarmless, count_serves}
use carrot_rpc.Frame.{read_header, frame, receive}
use carrot_rpc.Frame.Header.{Got, read_header-Got, receive-Got}
use carrot_rpc.Server.Registry.{Services}
use carrot_rpc.Server.Simple.{
  Environment, packet_size, payload_size, or_destroy, dispatch, read_payload, decode_request,
  handle_client,
}

-- A block for `n` bytes, where the allocator grants every size.
abbrev pub Expands : (ℕ → Bool) → Buffer → ℕ → Type 0
Expands grants b n =
    (c : Buffer) × (expand_connection_packet grants b n ≡ ready c) × (n ≤ c.size) × IsConsistent c

pub expands :
    (grants : ℕ → Bool) (b : Buffer) (n : ℕ)
    → ((k : ℕ) → grants k ≡ true)
    → IsConsistent b
    → Expands grants b n
expands grants b n all c =
    go (expand_connection_packet grants b n) refl (expand_connection_packet-Serves grants b n c)
  where
    go :
        (e : Expanded)
        → expand_connection_packet grants b n ≡ e
        → Serves grants n e
        → Expands grants b n
    go (ready d) e (whole, enough) = (d, e, enough, inr whole)
    go (failed d) e (k, refused, _, _) = absurd (cc (all k, refused))
    go looping e f = absurd f

-- A frame has arrived: three lengths that add up to less than 2^32, the bytes that they announce, and a
-- kernel that lets them through.
pub record Arrives (s : Socket) (p : Packet) (meta param extra rest : Bytes) : Type 0 where
  pub rpc : p.rpc_len ≡ length meta
  pub req : p.req_len ≡ length param
  pub resp : p.resp_len ≡ length extra
  pub small : 12 + p.rpc_len + p.req_len + p.resp_len < 2 ^ 32
  pub input : s.input ≡ frame p ((meta ++ (param ++ extra)) ++ rest)
  pub harmless : IsHarmless s.turns
  pub turns : 12 + p.rpc_len + p.req_len + p.resp_len ≤ count_serves s.turns

module _ {Msg : Type 0} (env : Environment Msg) (all : (k : ℕ) → env.grants k ≡ true)
    (services : Services Msg) (b : Buffer) (consistent : IsConsistent b) (s : Socket) (p : Packet)
    (meta param extra rest : Bytes) (a : Arrives s p meta param extra rest) where
  unfoldable pub payload : Bytes
  payload = meta ++ (param ++ extra)

  pub length-payload : length payload ≡ p.rpc_len + p.req_len + p.resp_len
  unfolding payload
  length-payload =
      omega (
        arith,
        length-append meta (param ++ extra),
        length-append param extra,
        a.rpc,
        a.req,
        a.resp,
      )

  taken : take (length meta) payload ≡ meta
  unfolding payload
  taken = take-append meta (param ++ extra)

  pub decodes :
      p.rpc_len < 2 ^ 31
      → (c : Buffer) (s' : Socket)
      → decode_request env services c s' payload p
        ≡ or_destroy
            (env.requests.parse_from_array meta)
            c
            s'
            λ rpc_req. dispatch env services c s' payload p rpc_req
  unfolding decode_request
  decodes is_int c s' = rw (sized, fits, whole) refl
    where
      sized : ltb p.rpc_len (2 ^ 31) ≡ true
      sized = ground (arith, is_int)

      fits : leb p.rpc_len (length payload) ≡ true
      fits = ground (arith, length-payload)

      whole :
          env.requests.parse_from_array (take p.rpc_len payload)
          ≡ env.requests.parse_from_array meta
      whole =
          ap (λ n. env.requests.parse_from_array (take n payload)) a.rpc
          ∙ ap env.requests.parse_from_array taken

  -- The connection and its socket after the payload was read.
  pub record Read : Type 0 where
    pub buffer : Buffer
    pub sound : IsConsistent buffer
    pub after : Socket
    pub goes_on :
        handle_client env services b s ≡ decode_request env services buffer after payload p
    pub input : after.input ≡ rest
    pub output : after.output ≡ s.output
    pub harmless : IsHarmless after.turns
    pub turns : count_serves s.turns ≤ count_serves after.turns + (12 + length payload)

  pub reads : Read
  unfolding handle_client read_payload payload
  reads = record {
    buffer = x.0;
    sound = x.3;
    after = q.after;
    goes_on = rw (header.returned, handle_client) (rw (x.1, read_payload) (rw (roomy, got) refl));
    input = q.input;
    output = q.output ∙ header.output;
    harmless = q.harmless;
    turns = omega (arith, header.turns, q.turns);
  }
    where
      header : Got s p 12 (payload ++ rest) (read_header s)
      header =
          read_header-Got s p (payload ++ rest)
            (record {
              rpc = omega (arith, a.small);
              req = omega (arith, a.small);
              resp = omega (arith, a.small);
            })
            a.input a.harmless (omega (arith, a.turns))

      x : Expands env.grants b (packet_size p)
      x = expands env.grants b (packet_size p) all consistent

      whole : packet_size p ≡ 12 + length payload
      whole = omega (arith, a.small, length-payload)

      wanted : payload_size p ≡ length payload
      wanted = omega (arith, a.small, length-payload)

      roomy : (leb sizeof_packet x.0.size && leb (sizeof_packet + payload_size p) x.0.size) ≡ true
      roomy = ground (arith, x.2, whole, wanted)

      q : Got header.after payload (length payload) rest (receive (length payload) header.after)
      q =
          receive-Got header.after payload rest header.input header.harmless
            (omega (arith, header.turns, a.turns, length-payload))

      got : read_n header.after (payload_size p) ≡ completed payload q.after
      got = ap (read_n header.after) wanted ∙ q.returned
