-- ===== src/Packet.antt =====
-- src/common/packet.h: the header that stands in front of every message, its byte order, and its
-- image in memory. The host is little-endian, so htonl and ntohl reverse the four bytes of a word.
pub mod Order
mod Examples
use carrot_rpc.Prelude.{ℕ, ◌+◌, ◌*◌, ◌/◌, ◌%◌, ◌^◌, ◌<◌, Option, none, some, [], ◌∷◌, ◌++◌, Bytes}

-- The conversion of a wider unsigned number to uint32_t.
abbrev pub u32 : ℕ → ℕ
u32 x = x % 2 ^ 32

abbrev pub IsU32 : ℕ → Type 0
IsU32 x = x < 2 ^ 32

-- The fields of `struct packet` in front of `data`, and the size of them.
pub record Packet : Type 0 where
  pub rpc_len : ℕ
  pub req_len : ℕ
  pub resp_len : ℕ

abbrev pub sizeof_packet : ℕ
sizeof_packet = 12

pub record FieldsAreU32 (p : Packet) : Type 0 where
  pub rpc : IsU32 p.rpc_len
  pub req : IsU32 p.req_len
  pub resp : IsU32 p.resp_len

-- A uint32_t in the memory of the host, lowest byte first, and back.
unfoldable pub store_u32 : ℕ → Bytes
store_u32 x = (x % 256) ∷ (x / 256 % 256) ∷ (x / 65536 % 256) ∷ (x / 16777216 % 256) ∷ []

unfoldable pub load_u32 : ℕ → ℕ → ℕ → ℕ → ℕ
load_u32 a b c d = a + b * 256 + c * 65536 + d * 16777216

unfoldable pub htonl : ℕ → ℕ
unfolding load_u32
htonl x = load_u32 (x / 16777216 % 256) (x / 65536 % 256) (x / 256 % 256) (x % 256)

unfoldable pub ntohl : ℕ → ℕ
unfolding htonl
ntohl x = htonl x

-- CONVERT_TO_NETWORK_ORDER and CONVERT_TO_HOST_ORDER.
unfoldable pub convert_to_network_order : Packet → Packet
convert_to_network_order p = record {
  rpc_len = htonl p.rpc_len;
  req_len = htonl p.req_len;
  resp_len = htonl p.resp_len;
}

unfoldable pub convert_to_host_order : Packet → Packet
convert_to_host_order p = record {
  rpc_len = ntohl p.rpc_len;
  req_len = ntohl p.req_len;
  resp_len = ntohl p.resp_len;
}

-- The memory of the header: the fields in the order of their declaration, with no padding.
unfoldable pub header_image : Packet → Bytes
header_image p = store_u32 p.rpc_len ++ store_u32 p.req_len ++ store_u32 p.resp_len

-- A packet read over the memory of a buffer; the bytes behind the header are `data`.
unfoldable pub header_at : Bytes → Option (Packet × Bytes)
header_at (a ∷ b ∷ c ∷ d ∷ e ∷ f ∷ g ∷ h ∷ i ∷ j ∷ k ∷ l ∷ payload) = some (
  record { rpc_len = load_u32 a b c d; req_len = load_u32 e f g h; resp_len = load_u32 i j k l },
  payload,
)
header_at _ = none
