-- ===== src/Server/Sample.antt =====
-- A server to run the model with: one service, Echo, with the methods `echo`, which returns its parameter, and
-- `fail`, which sets the controller failed. A message is its bytes.
pub mod Echoing
use carrot_rpc.Prelude.{
  ℕ, zero, suc, ◌^◌, ◌<◌, ◌≡◌, refl, true, none, some, [], ◌∷◌, Bytes, bytes_eq, text, leb, length,
  arith, if◌then◌else◌,
}
use carrot_rpc.Message.{Codec, IsCodec}
use carrot_rpc.Protob.Request
use carrot_rpc.Protob.Response
use carrot_rpc.Protob.Request.{Request, new_request, set_id, set_method_identity}
use carrot_rpc.Protob.Codec.{request_codec, response_codec, request_codec_lem, response_codec_lem}
use carrot_rpc.Protob.Sample.{sample_wire, sample_wire-IsWire, sample_lite, sample_lite-IsLite}
use carrot_rpc.Controller.{Controller, set_failed}
use carrot_rpc.Server.Registry.{Service, Services, Called, returned, method_identity_of}
use carrot_rpc.Server.Simple.{Environment}

abbrev pub bytes_codec : Codec Bytes
bytes_codec = record {
  byte_size = length;
  serialize_to_array = λ m size. if leb (length m) size then some m else none;
  parse_from_array = λ bytes. some bytes;
  serialize_negative = λ m size. none;
  parse_negative = λ size bytes. none;
}

pub bytes_codec-IsCodec : IsCodec bytes_codec (λ m. true) (λ m. length m < 2 ^ 31)
bytes_codec-IsCodec = record {
  bytes_of = λ m. m;
  size_is_int = λ m f. f;
  length-bytes_of = λ m f. refl;
  serialize = λ m size f h. ground arith;
  parse-bytes_of = λ m f i. refl;
  parse_refuses = λ m f i. cc;
}

pub bytes_codec-bytes_of : (m : Bytes) → bytes_codec-IsCodec.bytes_of m ≡ m
unfolding bytes_codec-IsCodec
bytes_codec-bytes_of m = refl

abbrev pub sample_env : Environment Bytes
sample_env = record {
  requests = request_codec sample_wire sample_lite;
  responses = response_codec sample_wire sample_lite;
  messages = bytes_codec;
  grants = λ _. true;
  garbage = 0;
  strerror = text "Success";
}

pub sample_requests : IsCodec sample_env.requests Request.is_initialized Request.Fits
sample_requests = request_codec_lem sample_wire sample_lite sample_wire-IsWire sample_lite-IsLite

pub sample_responses : IsCodec sample_env.responses Response.is_initialized Response.Fits
sample_responses = response_codec_lem sample_wire sample_lite sample_wire-IsWire sample_lite-IsLite

abbrev call_echo : ℕ → Controller → Bytes → ℕ → Called Bytes
call_echo zero controller request done = returned request controller
call_echo (suc md) controller request done = returned [] (set_failed controller (text "no"))

abbrev pub echo : Service Bytes
echo = record {
  name = text "Echo";
  find_method = λ name.
      if bytes_eq name (text "echo")
      then some 0
      else if bytes_eq name (text "fail")
      then some 1
      else none;
  parse_request = λ md bytes. some bytes;
  parse_negative = λ md size bytes. none;
  call_method = call_echo;
}

abbrev pub echo_services : Services Bytes
echo_services = (text "Echo", record { s = echo; c = 0 }) ∷ []

-- The metadata of a call of `method`.
abbrev pub echo_request : Bytes → Request
echo_request method =
    set_method_identity (set_id new_request 5) (method_identity_of (text "Echo") method)

abbrev pub request_bytes : Request → Bytes
request_bytes m = Request.serialize sample_wire m
