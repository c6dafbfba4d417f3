-- ===== src/Protob/Codec.antt =====
-- MessageLite::ParseFromArray and SerializeToArray over the functions of rpc.pb.cc that they call. They
-- are the library's, so they are parameters; with their documented behaviour Request and Response have
-- the interface of `Message`.
use carrot_rpc.Prelude.{ℕ, ◌≤◌, ◌≡◌, Bool, true, ◌&&◌, false, Option, none, some, [], Bytes, length}
use carrot_rpc.Message.{Codec, IsCodec}
use carrot_rpc.Protob.Wire.{Wire, IsWire}
use carrot_rpc.Protob.Request
use carrot_rpc.Protob.Request.{Request, new_request}
use carrot_rpc.Protob.Response
use carrot_rpc.Protob.Response.{Response, new_response}

pub record Lite (M : Type 0) : Type 0 where
  -- ParseFromArray, from what MergePartialFromCodedStream makes of the bytes and from IsInitialized.
  pub parse_from_array : (Bytes → Option (M × Bytes)) → (M → Bool) → Bytes → Option M
  -- SerializeToArray, from what SerializeWithCachedSizesToArray writes, ByteSize and the size of the array.
  pub serialize_to_array : Bytes → ℕ → ℕ → Option Bytes
  -- The two with a size that is negative as an int.
  pub serialize_negative : M → ℕ → Option Bytes
  pub parse_negative : ℕ → Bytes → Option M

pub record IsLite {M : Type 0} (lite : Lite M) : Type 0 where
  pub parse_complete :
      (merge : Bytes → Option (M × Bytes)) (initialized : M → Bool) (bytes : Bytes) (m : M)
      → merge bytes ≡ some (m, [])
      → initialized m ≡ true
      → lite.parse_from_array merge initialized bytes ≡ some m
  pub parse_missing :
      (merge : Bytes → Option (M × Bytes)) (initialized : M → Bool) (bytes : Bytes) (m : M)
      → merge bytes ≡ some (m, [])
      → initialized m ≡ false
      → lite.parse_from_array merge initialized bytes ≡ none
  pub serialize_fits :
      (written : Bytes) (needed size : ℕ)
      → length written ≡ needed
      → needed ≤ size
      → lite.serialize_to_array written needed size ≡ some written

abbrev request_merged : Request.Parsed → Option (Request × Bytes)
request_merged (Request.success m rest) = some (m, rest)
request_merged Request.failure = none
request_merged Request.looping = none

abbrev response_merged : Response.Parsed → Option (Response × Bytes)
response_merged (Response.success m rest) = some (m, rest)
response_merged Response.failure = none
response_merged Response.looping = none

abbrev pub request_codec : Wire → Lite Request → Codec Request
request_codec w lite = record {
  byte_size = Request.byte_size w;
  serialize_to_array = λ m. lite.serialize_to_array (Request.serialize w m) (Request.byte_size w m);
  parse_from_array =
      lite.parse_from_array (λ bytes. request_merged (Request.merge_partial w new_request bytes))
        Request.is_initialized;
  serialize_negative = lite.serialize_negative;
  parse_negative = lite.parse_negative;
}

abbrev pub response_codec : Wire → Lite Response → Codec Response
response_codec w lite = record {
  byte_size = Response.byte_size w;
  serialize_to_array =
      λ m. lite.serialize_to_array (Response.serialize w m) (Response.byte_size w m);
  parse_from_array =
      lite.parse_from_array (λ bytes. response_merged (Response.merge_partial w new_response bytes))
        Response.is_initialized;
  serialize_negative = lite.serialize_negative;
  parse_negative = lite.parse_negative;
}

pub request_codec_lem :
    (w : Wire) (lite : Lite Request)
    → IsWire w
    → IsLite lite
    → IsCodec (request_codec w lite) Request.is_initialized Request.Fits
request_codec_lem w lite l k = record {
  bytes_of = Request.serialize w;
  size_is_int = Request.RoundTrip.byte_size-lt w l;
  length-bytes_of = Request.RoundTrip.length-serialize w l;
  serialize =
      λ m size f h. k.serialize_fits _ _ size (Request.RoundTrip.length-serialize w l m f) h;
  parse-bytes_of =
      λ m f i. k.parse_complete _ _ _ m (rw (Request.RoundTrip.request-roundtrip w l m f)) i;
  parse_refuses =
      λ m f i. k.parse_missing _ _ _ m (rw (Request.RoundTrip.request-roundtrip w l m f)) i;
}

pub response_codec_lem :
    (w : Wire) (lite : Lite Response)
    → IsWire w
    → IsLite lite
    → IsCodec (response_codec w lite) Response.is_initialized Response.Fits
response_codec_lem w lite l k = record {
  bytes_of = Response.serialize w;
  size_is_int = λ m f. Response.RoundTrip.byte_size-lt w l m f;
  length-bytes_of = λ m f. Response.RoundTrip.length-serialize w l m f;
  serialize =
      λ m size f h. k.serialize_fits _ _ size (Response.RoundTrip.length-serialize w l m f) h;
  parse-bytes_of =
      λ m f i. k.parse_complete _ _ _ m (rw (Response.RoundTrip.response-roundtrip w l m f)) i;
  parse_refuses =
      λ m f i. k.parse_missing _ _ _ m (rw (Response.RoundTrip.response-roundtrip w l m f)) i;
}

-- Over a library that behaves as documented, Request keeps the contract of a protobuf message: ByteSize is an
-- int and the number of bytes written, and the bytes are read back to the message if id and
-- method_identity are set, and refused if one of them is not.
pub request_codec-IsCodec :
    (w : Wire) (lite : Lite Request)
    → IsWire w
    → IsLite lite
    → IsCodec (request_codec w lite) (λ m. m.has_id && m.has_method_identity) Request.Fits
unfolding Request.is_initialized
request_codec-IsCodec w lite l k = request_codec_lem w lite l k

-- Over a library that behaves as documented, Response keeps the same contract: its bytes are read back if id and
-- status are set, and refused if one of them is not, whether or not there is a message.
pub response_codec-IsCodec :
    (w : Wire) (lite : Lite Response)
    → IsWire w
    → IsLite lite
    → IsCodec (response_codec w lite) (λ m. m.has_id && m.has_status) Response.Fits
unfolding Response.is_initialized
response_codec-IsCodec w lite l k = response_codec_lem w lite l k
