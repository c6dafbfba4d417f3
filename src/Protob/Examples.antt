-- ===== src/Protob/Examples.antt =====
-- The contract of the two messages over the sample library.
use carrot_rpc.Prelude.{◌&&◌}
use carrot_rpc.Message.{IsCodec}
use carrot_rpc.Protob.Request
use carrot_rpc.Protob.Response
use carrot_rpc.Protob.Codec.{
  request_codec, response_codec, request_codec-IsCodec, response_codec-IsCodec,
}
use carrot_rpc.Protob.Sample.{sample_wire, sample_wire-IsWire, sample_lite, sample_lite-IsLite}

request_codec-IsCodec_example :
    IsCodec
      (request_codec sample_wire sample_lite)
      (λ m. m.has_id && m.has_method_identity)
      Request.Fits
request_codec-IsCodec_example =
    request_codec-IsCodec sample_wire sample_lite sample_wire-IsWire sample_lite-IsLite

response_codec-IsCodec_example :
    IsCodec (response_codec sample_wire sample_lite) (λ m. m.has_id && m.has_status) Response.Fits
response_codec-IsCodec_example =
    response_codec-IsCodec sample_wire sample_lite sample_wire-IsWire sample_lite-IsLite
