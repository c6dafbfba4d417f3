-- ===== src/Protob/Response/Examples.antt =====
-- Concrete responses.
use carrot_rpc.Prelude.{◌≡◌, ◌≢◌, refl, inl, inr, [], ◌∷◌, text, arith}
use carrot_rpc.Protob.Status
use carrot_rpc.Protob.Sample.{sample_wire, sample_wire-IsWire}
use carrot_rpc.Protob.Response.{
  Response, success, looping, Fits, IsTidy, new_response, set_id, set_status, set_message,
  merge_partial, serialize,
}
use carrot_rpc.Protob.Response.Parse.{response_parse_ends}
use carrot_rpc.Protob.Response.RoundTrip.{response-roundtrip}

abbrev sample : Response
sample = set_message (set_status (set_id new_response 5) Status.not_found) (text "method not found")

abbrev bare : Response
bare = set_status new_response Status.failed

sample-IsTidy : IsTidy sample
sample-IsTidy = record {
  id_default = inl refl;
  status_default = inl refl;
  message_default = inl refl;
}

bare-IsTidy : IsTidy bare
bare-IsTidy = record {
  id_default = inr refl;
  status_default = inl refl;
  message_default = inr refl;
}

sample-Fits : Fits sample
unfolding text
sample-Fits = record {
  tidy = sample-IsTidy;
  id_is_u64 = omega arith;
  short = omega arith;
  known = refl;
}

response_parse_ends_example :
    merge_partial sample_wire new_response (8 ∷ 5 ∷ 16 ∷ 200 ∷ 1 ∷ []) ≢ looping
response_parse_ends_example =
    response_parse_ends sample_wire sample_wire-IsWire new_response (8 ∷ 5 ∷ 16 ∷ 200 ∷ 1 ∷ [])

response-roundtrip_example :
    merge_partial sample_wire new_response (serialize sample_wire sample) ≡ success sample []
response-roundtrip_example = response-roundtrip sample_wire sample_wire-IsWire sample sample-Fits
