-- ===== src/Server/Simple/Examples.antt =====
-- A call of the method echo on the sample server.
use carrot_rpc.Prelude.{refl, inl, [], ◌∷◌, arith, subst, sym}
use carrot_rpc.Buffer.{empty_buffer}
use carrot_rpc.Protob.Status
use carrot_rpc.Protob.Response
use carrot_rpc.Protob.Response.{Response, new_response, set_status}
use carrot_rpc.Protob.Codec.{response_codec_lem}
use carrot_rpc.Protob.Sample.{sample_wire, sample_wire-IsWire, sample_lite, sample_lite-IsLite}
use carrot_rpc.Server.Sample.{sample_env, bytes_codec-IsCodec, echo_services}
use carrot_rpc.Server.Sample.Echoing.{meta, header, connection, arrives, answered, reply-Fits}
use carrot_rpc.Server.Simple.{handle_client}
use carrot_rpc.Server.Simple.Answer.{reply, answer, Fulfillable, Gives, handle_client-Answers}

fulfillable :
    Fulfillable sample_env
      (response_codec_lem sample_wire sample_lite sample_wire-IsWire sample_lite-IsLite)
      bytes_codec-IsCodec
      (λ _. refl)
      33
      (reply (set_status new_response Status.success) (1 ∷ 2 ∷ []))
unfolding Response.byte_size
fulfillable =
    (record { rpc_fits = reply-Fits; resp_fits = omega arith; small = omega arith }, omega arith)

handle_client-Answers_example :
    Gives sample_env
      (response_codec_lem sample_wire sample_lite sample_wire-IsWire sample_lite-IsLite)
      bytes_codec-IsCodec
      (λ _. refl)
      (9 ∷ [])
      []
      (answer sample_env echo_services (sample_env.requests.parse_from_array meta) (1 ∷ 2 ∷ []))
      (handle_client sample_env echo_services empty_buffer connection)
handle_client-Answers_example =
    handle_client-Answers sample_env
      (response_codec_lem sample_wire sample_lite sample_wire-IsWire sample_lite-IsLite)
      bytes_codec-IsCodec (λ _. refl) echo_services empty_buffer (inl refl) connection header meta
      (1 ∷ 2 ∷ []) [] (9 ∷ []) arrives (omega arith) (omega arith)
      (subst (Fulfillable sample_env _ bytes_codec-IsCodec (λ _. refl) 33) (sym answered)
        fulfillable)
