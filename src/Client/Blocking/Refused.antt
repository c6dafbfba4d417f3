-- ===== src/Client/Blocking/Refused.antt =====
-- What the simple server does with a call of the blocking channel.
use carrot_rpc.Prelude.{
  arith, ℕ, ◌<◌, ◌^◌, ◌≡◌, refl, ap, length, sym, ◌∙◌, subst, Bool, true, none, some, Bytes,
}
use carrot_rpc.Packet.{Packet}
use carrot_rpc.Buffer.{Buffer, IsConsistent}
use carrot_rpc.Io.{Socket}
use carrot_rpc.Message.{IsCodec}
use carrot_rpc.Protob.Request
use carrot_rpc.Protob.Request.{Request, is_initialized}
use carrot_rpc.Protob.Response
use carrot_rpc.Server.Registry.{Services}
use carrot_rpc.Server.Simple.{Environment, handle_client}
use carrot_rpc.Server.Simple.Arrival.{Arrives, Read, reads, decodes}
use carrot_rpc.Server.Simple.Answer.{close, Gives}
use carrot_rpc.Client.Blocking.{request_of}

module _ {Msg : Type 0} (env : Environment Msg) {ready_to_parse : Msg → Bool} {fits : Msg → Type 0}
    (requests : IsCodec env.requests Request.is_initialized Request.Fits)
    (responses : IsCodec env.responses Response.is_initialized Response.Fits)
    (messages : IsCodec env.messages ready_to_parse fits)
    (all : (k : ℕ) → env.grants k ≡ true) where
  -- The metadata of a call of the blocking channel has no id, which is a required field: whatever the services and
  -- the method, the simple server closes the connection on a frame that begins with the metadata that the
  -- channel serialized, with nothing written.
  pub request_of-Refused :
      (services : Services Msg) (b : Buffer) (s : Socket) (p : Packet)
      (method_identity meta param extra rest : Bytes)
      → IsConsistent b
      → Request.Fits (request_of method_identity)
      → env.requests.serialize_to_array
          (request_of method_identity)
          (env.requests.byte_size (request_of method_identity))
        ≡ some meta
      → Arrives s p meta param extra rest
      → Gives env responses messages all rest s.output close (handle_client env services b s)
  unfolding request_of is_initialized
  request_of-Refused services b s p method_identity meta param extra rest consistent f e a =
      rw
        (
          r.goes_on,
          decodes env all services b consistent s p meta param extra rest a meta_is_int r.buffer
              r.after,
          unparsed,
        )
        (r.sound, r.output, r.input)
    where
      same : some (requests.bytes_of (request_of method_identity)) ≡ some meta
      same =
          sym (
            requests.serialize (request_of method_identity)
              (env.requests.byte_size (request_of method_identity)) f (omega arith))
          ∙ e

      same_bytes : requests.bytes_of (request_of method_identity) ≡ meta
      same_bytes = cc same

      unparsed : env.requests.parse_from_array meta ≡ none
      unparsed =
          subst (λ bytes. env.requests.parse_from_array bytes ≡ none) same_bytes
            (requests.parse_refuses (request_of method_identity) f refl)

      meta_is_int : p.rpc_len < 2 ^ 31
      meta_is_int = omega (
        arith,
        a.rpc,
        ap length same_bytes,
        requests.length-bytes_of (request_of method_identity) f,
        requests.size_is_int (request_of method_identity) f,
      )

      r : Read env all services b consistent s p meta param extra rest a
      r = reads env all services b consistent s p meta param extra rest a
