-- ===== src/Buffer/Examples.antt =====
-- Concrete buffers.
use carrot_rpc.Prelude.{◌≡◌, refl, true, some, inr, arith}
use carrot_rpc.Buffer.{Buffer, expand_packet, grow, empty_buffer, ready, looping, Serves}
use carrot_rpc.Buffer.Growth.{expand_packet-Serves}
use carrot_rpc.Buffer.Overflow.{expand_packet_loops}

expand_100 :
    expand_packet (λ _. true) 32 empty_buffer 100 ≡ ready (record { block = some 128; size = 128 })
unfolding expand_packet grow
expand_100 = refl

-- A block of 16 bytes.
abbrev sixteen : Buffer
sixteen = record { block = some 16; size = 16 }

expand_packet-Serves_example : Serves (λ _. true) 100 (expand_packet (λ _. true) 32 sixteen 100)
expand_packet-Serves_example = expand_packet-Serves (λ _. true) sixteen 100 (inr refl) (omega arith)

expand_packet_loops_example : expand_packet (λ _. true) 50 sixteen 3000000000 ≡ looping
expand_packet_loops_example =
    expand_packet_loops (λ _. true) 50 sixteen 3000000000 (inr (27, refl)) (omega arith)
