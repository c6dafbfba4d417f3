-- ===== src/Packet/Examples.antt =====
-- Concrete headers.
use carrot_rpc.Prelude.{◌≡◌, refl, arith, some, [], ◌∷◌, ◌++◌}
use carrot_rpc.Packet.{
  Packet, htonl, header_at, header_image, convert_to_network_order, convert_to_host_order,
}
use carrot_rpc.Packet.Order.{header-roundtrip}

abbrev sample : Packet
sample = record { rpc_len = 258; req_len = 7; resp_len = 0 }

htonl_258 : htonl 258 ≡ 0x02010000
unfolding htonl
htonl_258 = refl

header-roundtrip_example :
    header_at (header_image (convert_to_network_order sample) ++ (9 ∷ []))
      ≡ some (convert_to_network_order sample, 9 ∷ [])
    × (convert_to_host_order (convert_to_network_order sample) ≡ sample)
header-roundtrip_example =
    header-roundtrip sample (9 ∷ [])
      (record { rpc = omega arith; req = omega arith; resp = omega arith })
