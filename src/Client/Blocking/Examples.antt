-- ===== src/Client/Blocking/Examples.antt =====
-- Concrete calls of the blocking channel.
use carrot_rpc.Prelude.{
  ℕ, zero, suc, ◌≡◌, refl, inl, inr, true, some, List, [], ◌∷◌, ◌++◌, Bytes, text, arith,
}
use carrot_rpc.Packet.{Packet}
use carrot_rpc.Buffer.{empty_buffer}
use carrot_rpc.Io.{Socket, Turn, serves}
use carrot_rpc.Frame.{frame}
use carrot_rpc.Protob.Request
use carrot_rpc.Protob.Codec.{request_codec, response_codec, request_codec_lem, response_codec_lem}
use carrot_rpc.Protob.Sample.{sample_wire, sample_wire-IsWire, sample_lite, sample_lite-IsLite}
use carrot_rpc.Controller.{Controller, new_controller_for}
use carrot_rpc.Server.Sample
use carrot_rpc.Server.Sample.{bytes_codec, bytes_codec-IsCodec, echo_services}
use carrot_rpc.Server.Simple.{handle_client}
use carrot_rpc.Server.Simple.Arrival.{Arrives}
use carrot_rpc.Server.Simple.Answer.{close, Gives}
use carrot_rpc.Client.Blocking.{Environment, request_of, call_method}
use carrot_rpc.Client.Blocking.Whole.{CanCall, Completed, call_method-Completed}
use carrot_rpc.Client.Blocking.Refused.{request_of-Refused}

abbrev sample_env : Environment Bytes
sample_env = record {
  requests = request_codec sample_wire sample_lite;
  responses = response_codec sample_wire sample_lite;
  messages = bytes_codec;
  grants = λ _. true;
  strerror = λ _. [];
}

abbrev controller : Controller
controller = new_controller_for 0 [] [] 0

abbrev many : ℕ → List Turn
many zero = []
many (suc n) = serves 3 ∷ many n

abbrev reply_header : Packet
reply_header = record { rpc_len = 4; req_len = 0; resp_len = 1 }

abbrev reply_meta : Bytes
reply_meta = 8 ∷ 1 ∷ 16 ∷ 1 ∷ []

-- A connection on which the peer sends a reply.
abbrev answered : Socket
answered = record {
  input = frame reply_header ((reply_meta ++ (9 ∷ [])) ++ []);
  output = [];
  turns = many 60;
  errno = 0;
}

request-Fits : Request.Fits (request_of (text "Echo.echo"))
unfolding request_of text
request-Fits = record {
  tidy = record { id_default = inr refl; method_identity_default = inl refl };
  id_is_u64 = omega arith;
  short = omega arith;
  known = refl;
}

can_call :
    CanCall sample_env
      (request_codec_lem sample_wire sample_lite sample_wire-IsWire sample_lite-IsLite)
      bytes_codec-IsCodec
      (λ _. refl)
      controller
      (text "Echo.echo")
      (7 ∷ [])
      answered
      reply_header
      reply_meta
      (9 ∷ [])
      []
unfolding request_of text Request.byte_size
can_call = record {
  rpc_fits = request-Fits;
  req_fits = omega arith;
  size_is_int = omega arith;
  answer = record {
    rpc = refl;
    req = refl;
    resp = refl;
    small = omega arith;
    rpc_is_int = omega arith;
    resp_is_int = omega arith;
    input = refl;
    harmless = tt;
    turns = omega arith;
  };
  enough = omega arith;
}

call_method-Completed_example :
    Completed sample_env
      (request_codec_lem sample_wire sample_lite sample_wire-IsWire sample_lite-IsLite)
      bytes_codec-IsCodec
      (λ _. refl)
      controller
      (text "Echo.echo")
      (7 ∷ [])
      answered
      reply_meta
      (9 ∷ [])
      []
      (call_method sample_env controller (text "Echo.echo") (7 ∷ []) answered)
call_method-Completed_example =
    call_method-Completed sample_env
      (request_codec_lem sample_wire sample_lite sample_wire-IsWire sample_lite-IsLite)
      bytes_codec-IsCodec (λ _. refl) controller (text "Echo.echo") (7 ∷ []) answered reply_header
      reply_meta (9 ∷ []) [] can_call

abbrev request_header : Packet
request_header = record { rpc_len = 11; req_len = 1; resp_len = 0 }

-- The same call at the server.
abbrev arrived : Socket
arrived = record {
  input =
      frame request_header
        ((Sample.request_bytes (request_of (text "Echo.echo")) ++ ((7 ∷ []) ++ [])) ++ []);
  output = [];
  turns = many 60;
  errno = 0;
}

arrives :
    Arrives arrived request_header
      (Sample.request_bytes (request_of (text "Echo.echo")))
      (7 ∷ [])
      []
      []
unfolding request_of text Request.serialize
arrives = record {
  rpc = refl;
  req = refl;
  resp = refl;
  small = omega arith;
  input = refl;
  harmless = tt;
  turns = omega arith;
}

serialized :
    Sample.sample_env.requests.serialize_to_array
      (request_of (text "Echo.echo"))
      (Sample.sample_env.requests.byte_size (request_of (text "Echo.echo")))
    ≡ some (Sample.request_bytes (request_of (text "Echo.echo")))
unfolding request_of text Request.serialize Request.byte_size
serialized = refl

request_of-Refused_example :
    Gives Sample.sample_env
      (response_codec_lem sample_wire sample_lite sample_wire-IsWire sample_lite-IsLite)
      bytes_codec-IsCodec
      (λ _. refl)
      []
      []
      close
      (handle_client Sample.sample_env echo_services empty_buffer arrived)
request_of-Refused_example =
    request_of-Refused Sample.sample_env
      (request_codec_lem sample_wire sample_lite sample_wire-IsWire sample_lite-IsLite)
      (response_codec_lem sample_wire sample_lite sample_wire-IsWire sample_lite-IsLite)
      bytes_codec-IsCodec (λ _. refl) echo_services empty_buffer arrived request_header
      (text "Echo.echo") (Sample.request_bytes (request_of (text "Echo.echo"))) (7 ∷ []) [] []
      (inl refl) request-Fits serialized arrives
