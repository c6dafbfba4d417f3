-- ===== src/Packet/Order.antt =====
-- The byte order on the wire, and that both ends read the same header.
use carrot_rpc.Prelude.{ℕ, ◌/◌, ◌%◌, ◌≡◌, arith, some, [], ◌∷◌, ◌++◌, Bytes}
use carrot_rpc.Packet.{
  Packet, IsU32, FieldsAreU32, store_u32, load_u32, htonl, ntohl, convert_to_network_order,
  convert_to_host_order, header_image, header_at,
}

-- A word with its highest byte first, the order of the network.
abbrev pub big_endian : ℕ → Bytes
big_endian x = (x / 16777216) ∷ (x / 65536 % 256) ∷ (x / 256 % 256) ∷ (x % 256) ∷ []

pub load-store :
    (x : ℕ)
    → IsU32 x
    → load_u32 (x % 256) (x / 256 % 256) (x / 65536 % 256) (x / 16777216 % 256) ≡ x
unfolding load_u32
load-store x h = omega arith

store-htonl : (x : ℕ) → IsU32 x → store_u32 (htonl x) ≡ big_endian x
unfolding store_u32 htonl
store-htonl x h = ground arith

pub htonl-IsU32 : (x : ℕ) → IsU32 (htonl x)
unfolding htonl
htonl-IsU32 x = omega arith

pub ntohl-htonl : (x : ℕ) → IsU32 x → ntohl (htonl x) ≡ x
unfolding ntohl
ntohl-htonl x h = omega arith

-- The header of a packet converted to network order has its three lengths in big-endian bytes, in the
-- order rpc_len, req_len, resp_len, if each length is a uint32_t.
pub header_image-big_endian :
    (p : Packet)
    → FieldsAreU32 p
    → header_image (convert_to_network_order p)
      ≡ big_endian p.rpc_len ++ big_endian p.req_len ++ big_endian p.resp_len
unfolding header_image convert_to_network_order
header_image-big_endian p v = rw (store-htonl _ v.rpc, store-htonl _ v.req, store-htonl _ v.resp)

-- A header with uint32_t lengths that is converted to network order, copied to the wire in front of
-- a payload, read back over memory and converted to host order is the header that was sent, and the
-- payload is what stands behind it.
pub header-roundtrip :
    (p : Packet) (payload : Bytes)
    → FieldsAreU32 p
    → header_at (header_image (convert_to_network_order p) ++ payload)
        ≡ some (convert_to_network_order p, payload)
      × (convert_to_host_order (convert_to_network_order p) ≡ p)
unfolding header_at header_image store_u32 convert_to_network_order convert_to_host_order
header-roundtrip p payload v = (
  rw (
    load-store _ (htonl-IsU32 p.rpc_len),
    load-store _ (htonl-IsU32 p.req_len),
    load-store _ (htonl-IsU32 p.resp_len),
  ),
  rw (ntohl-htonl _ v.rpc, ntohl-htonl _ v.req, ntohl-htonl _ v.resp),
)
