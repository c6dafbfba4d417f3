-- ===== src/Frame.antt =====
-- Reading the header of a frame off a blocking socket: the three reads of four bytes and the ntohl's
-- that the simple server, the threaded server and the blocking channel have in common.
pub mod Header
mod Examples
use carrot_rpc.Prelude.{ℕ, suc, ◌+◌, [], ◌∷◌, ◌++◌, Bytes, length}
use carrot_rpc.Packet.{Packet, load_u32, ntohl, convert_to_network_order, header_image}
use carrot_rpc.Io.{Socket, Outcome, completed, broken, waiting, read_n, write_n}

-- Actions on a socket; a failure ends the sequence.
abbrev pub Io : Type 0 → Type 0
Io A = Socket → Outcome A

infixl 5 ◌>>=◌
abbrev pub ◌>>=◌ : {A B : Type 0} → Io A → (A → Io B) → Io B
◌>>=◌ m f s = elim (m s) [ completed a s' ↦ f a s' | broken s' ↦ broken s' | waiting ↦ waiting ]

abbrev pub pure : {A : Type 0} → A → Io A
pure a s = completed a s

abbrev pub receive : ℕ → Io Bytes
receive n s = read_n s n

abbrev pub send : Bytes → Io (Unit {0})
send bytes s = write_n s bytes

-- A uint32_t read over the four bytes of its memory.
abbrev pub word : Bytes → ℕ
word (a ∷ b ∷ c ∷ d ∷ _) = load_u32 a b c d
word _ = 0

unfoldable pub read_header : Io Packet
read_header = do
  rpc_len ← receive 4
  req_len ← receive 4
  resp_len ← receive 4
  pure (record {
    rpc_len = ntohl (word rpc_len);
    req_len = ntohl (word req_len);
    resp_len = ntohl (word resp_len);
  })

-- What stands on the wire for a header and the bytes behind it.
abbrev pub frame : Packet → Bytes → Bytes
frame p payload = header_image (convert_to_network_order p) ++ payload
