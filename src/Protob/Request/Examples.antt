-- ===== src/Protob/Request/Examples.antt =====
-- Concrete requests.
use carrot_rpc.Prelude.{◌≡◌, ◌≢◌, refl, inl, inr, [], ◌∷◌, text, arith}
use carrot_rpc.Protob.Sample.{sample_wire, sample_wire-IsWire}
use carrot_rpc.Protob.Request.{
  Request, success, looping, Fits, IsTidy, new_request, set_id, set_method_identity, merge_partial,
  serialize,
}
use carrot_rpc.Protob.Request.Parse.{request_parse_ends}
use carrot_rpc.Protob.Request.RoundTrip.{request-roundtrip}

abbrev sample : Request
sample = set_method_identity (set_id new_request 5) (text "Echo.echo")

abbrev anonymous : Request
anonymous = set_method_identity new_request (text "Echo.ping")

sample-IsTidy : IsTidy sample
sample-IsTidy = record { id_default = inl refl; method_identity_default = inl refl }

anonymous-IsTidy : IsTidy anonymous
anonymous-IsTidy = record { id_default = inr refl; method_identity_default = inl refl }

sample-Fits : Fits sample
unfolding text
sample-Fits = record {
  tidy = sample-IsTidy;
  id_is_u64 = omega arith;
  short = omega arith;
  known = refl;
}

request_parse_ends_example :
    merge_partial sample_wire new_request (8 ∷ 5 ∷ 18 ∷ 200 ∷ 1 ∷ []) ≢ looping
request_parse_ends_example =
    request_parse_ends sample_wire sample_wire-IsWire new_request (8 ∷ 5 ∷ 18 ∷ 200 ∷ 1 ∷ [])

request-roundtrip_example :
    merge_partial sample_wire new_request (serialize sample_wire sample) ≡ success sample []
request-roundtrip_example = request-roundtrip sample_wire sample_wire-IsWire sample sample-Fits
