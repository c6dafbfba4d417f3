-- ===== src/Client/Blocking/Call.antt =====
-- A call of the blocking channel that is answered.
use mathlib.Core.List.{append-nil}
use carrot_rpc.Prelude.{
  ℕ, ◌+◌, ◌-◌, ◌^◌, ◌≤◌, ◌<◌, ◌≡◌, sym, ap, ◌∙◌, true, false, not, ◌&&◌, Option, none, some, [],
  ◌++◌, Bytes, text, leb, ltb, length, take, drop, take-append, drop-append, length-append, arith,
  Option-cases, inl, inr,
}
use carrot_rpc.Packet.{
  Packet, u32, sizeof_packet, header_image, store_u32, convert_to_network_order,
}
use carrot_rpc.Io.{Socket, completed, read_n, IsHarmless, count_serves}
use carrot_rpc.Frame.{frame, receive}
use carrot_rpc.Frame.Header.{Got, receive-Got, wire_word, word-wire}
use carrot_rpc.Protob.Response.{Response}
use carrot_rpc.Controller.{Controller, set_failed_with, ec_serialization_error}
use carrot_rpc.Client.Blocking.{
  CallEnd, ran_done, Environment, take_status, take_parameter, take_metadata, read_payload,
  receive_reply, read_lengths,
}

module _ {Msg : Type 0} (env : Environment Msg) (controller : Controller)
    (all : (k : ℕ) → env.grants k ≡ true) where
  -- The end of a call whose reply carries this metadata and this message, with `none` for what does not
  -- parse.
  abbrev pub reply_end : Option Response → Option Msg → Socket → CallEnd Msg
  reply_end none m s =
      ran_done
        (set_failed_with controller (text "failed to read Response metadata from server")
          ec_serialization_error)
        none s
  reply_end (some r) none s =
      ran_done
        (set_failed_with (take_status r controller)
          (text "failed to read response parameter from server") ec_serialization_error)
        none s
  reply_end (some r) (some m) s = ran_done (take_status r controller) (some m) s

  read_payload-reply :
      (p : Packet) (meta param : Bytes) (s : Socket)
      → p.rpc_len ≡ length meta
      → p.resp_len ≡ length param
      → p.rpc_len < 2 ^ 31
      → p.resp_len < 2 ^ 31
      → read_payload env controller p (meta ++ param) s
        ≡ reply_end (env.responses.parse_from_array meta) (env.messages.parse_from_array param) s
  unfolding read_payload take_metadata take_parameter
  read_payload-reply p meta param s e f rpc_int resp_int =
      elim (Option-cases (env.responses.parse_from_array meta)) [
        | inl n ↦ rw (rpc_sized, fits, meta_at, n, read_payload, take_metadata)
        | inr (r, y) ↦ elim (Option-cases (env.messages.parse_from_array param)) [
          | inl n ↦ rw (
            rpc_sized, fits, meta_at, y, read_payload, take_metadata, resp_sized, both_fit,
            param_at, n, take_parameter,
          )
          | inr (m, z) ↦ rw (
            rpc_sized, fits, meta_at, y, read_payload, take_metadata, resp_sized, both_fit,
            param_at, z, take_parameter,
          )
        ]
      ]
    where
      rpc_sized : ltb p.rpc_len (2 ^ 31) ≡ true
      rpc_sized = ground (arith, rpc_int)

      resp_sized : ltb p.resp_len (2 ^ 31) ≡ true
      resp_sized = ground (arith, resp_int)

      fits : leb p.rpc_len (length (meta ++ param)) ≡ true
      fits = ground (arith, length-append meta param)

      both_fit : leb (p.rpc_len + p.resp_len) (length (meta ++ param)) ≡ true
      both_fit = ground (arith, length-append meta param)

      meta_at : take p.rpc_len (meta ++ param) ≡ meta
      meta_at = ap (λ n. take n (meta ++ param)) e ∙ take-append meta param

      param_at : take p.resp_len (drop p.rpc_len (meta ++ param)) ≡ param
      param_at =
          ap (λ n. take p.resp_len (drop n (meta ++ param))) e
          ∙ (ap (take p.resp_len) (drop-append meta param)
              ∙ (ap (λ n. take n param) f
                  ∙ ap (take (length param)) (sym (append-nil param))
                  ∙ take-append param []))

-- A reply that has arrived: the frame that the server sent, metadata and message each below 2 GB, and a kernel
-- that lets it through.
pub record Answers (s : Socket) (p : Packet) (meta param rest : Bytes) : Type 0 where
  pub rpc : p.rpc_len ≡ length meta
  pub req : p.req_len ≡ 0
  pub resp : p.resp_len ≡ length param
  pub small : p.rpc_len + p.resp_len < 2 ^ 32
  pub rpc_is_int : p.rpc_len < 2 ^ 31
  pub resp_is_int : p.resp_len < 2 ^ 31
  pub input : s.input ≡ frame p ((meta ++ param) ++ rest)
  pub harmless : IsHarmless s.turns
  pub turns : 12 + p.rpc_len + p.resp_len ≤ count_serves s.turns

module _ {Msg : Type 0} (env : Environment Msg) (controller : Controller)
    (all : (k : ℕ) → env.grants k ≡ true) (n : ℕ) (s : Socket) (p : Packet)
    (meta param rest : Bytes) (a : Answers s p meta param rest) where
  -- The socket after the reply was read.
  pub record Ended (result : CallEnd Msg) : Type 0 where
    pub after : Socket
    pub returned :
        result
        ≡ reply_end env controller all
            (env.responses.parse_from_array meta)
            (env.messages.parse_from_array param)
            after
    pub input : after.input ≡ rest
    pub output : after.output ≡ s.output

  pub read_lengths-Ended : Ended (read_lengths env controller n s)
  unfolding read_lengths receive_reply header_image store_u32 convert_to_network_order
  read_lengths-Ended = record {
    after = whole.after;
    returned =
        rw (first.returned, second.returned, third.returned)
          (rw (word-wire p.rpc_len u_rpc, word-wire p.req_len u_req, word-wire p.resp_len u_resp)
            (rw (roomy, got)
              (read_payload-reply env controller all p meta param whole.after a.rpc a.resp
                a.rpc_is_int a.resp_is_int)));
    input = whole.input;
    output = whole.output ∙ (third.output ∙ (second.output ∙ first.output));
  }
    where
      u_rpc : p.rpc_len < 2 ^ 32
      u_rpc = omega (arith, a.small)

      u_req : p.req_len < 2 ^ 32
      u_req = omega (arith, a.req)

      u_resp : p.resp_len < 2 ^ 32
      u_resp = omega (arith, a.small)

      first :
          Got s
            (wire_word p.rpc_len)
            4
            (wire_word p.req_len ++ (wire_word p.resp_len ++ ((meta ++ param) ++ rest)))
            (receive 4 s)
      first = receive-Got s (wire_word p.rpc_len) _ a.input a.harmless (omega (arith, a.turns))

      second :
          Got first.after
            (wire_word p.req_len)
            4
            (wire_word p.resp_len ++ ((meta ++ param) ++ rest))
            (receive 4 first.after)
      second =
          receive-Got first.after (wire_word p.req_len) _ first.input first.harmless
            (omega (arith, first.turns, a.turns))

      third :
          Got second.after
            (wire_word p.resp_len)
            4
            ((meta ++ param) ++ rest)
            (receive 4 second.after)
      third =
          receive-Got second.after (wire_word p.resp_len) _ second.input second.harmless
            (omega (arith, first.turns, second.turns, a.turns))

      size : length (meta ++ param) ≡ p.rpc_len + p.resp_len
      size = omega (arith, length-append meta param, a.rpc, a.resp)

      whole :
          Got third.after
            (meta ++ param)
            (length (meta ++ param))
            rest
            (receive (length (meta ++ param)) third.after)
      whole =
          receive-Got third.after (meta ++ param) rest third.input third.harmless
            (omega (arith, first.turns, second.turns, third.turns, size, a.turns))

      wanted : u32 (p.rpc_len + p.req_len + p.resp_len) ≡ length (meta ++ param)
      wanted = omega (arith, a.small, a.req, size)

      got :
          read_n third.after (u32 (p.rpc_len + p.req_len + p.resp_len))
          ≡ completed (meta ++ param) whole.after
      got = ap (read_n third.after) wanted ∙ whole.returned

      roomy :
          (ltb (n - sizeof_packet) (u32 (p.rpc_len + p.req_len + p.resp_len))
            && not (env.grants (u32 (p.rpc_len + p.req_len + p.resp_len) + sizeof_packet)))
          ≡ false
      roomy = ground (arith, all (u32 (p.rpc_len + p.req_len + p.resp_len) + sizeof_packet))
