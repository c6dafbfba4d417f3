-- ===== src/Sockets.antt =====
-- The creation of sockets in src/common/utils.cpp, and what the blocking channel and the servers do with it.
-- getaddrinfo is a parameter: its result is an error, or the list of addresses it has found.
pub mod Balance
mod Examples
use carrot_rpc.Prelude.{
  ℕ, suc, ◌+◌, ◌≤◌, Bool, true, false, ◌&&◌, Option, none, some, List, [], ◌∷◌, Bytes, leb, length,
  ◌==◌, if◌then◌else◌,
}
use Prim.Native.Nat.{bit_or}
use carrot_rpc.Os.{Os, Ran, ran, failed, corrupted, plain_call, sys_socket, sys_setfl, sys_close}

-- The fields of a result of getaddrinfo that the code reads.
pub record AddrInfo : Type 0 where
  pub family : ℕ
  pub addr : Bytes

-- The loop of connect_to; `s` is the variable of this name, where none is -1.
unfoldable pub connect_loop : List AddrInfo → Option ℕ → Os → Option ℕ × Os
connect_loop [] s os = (s, os)
connect_loop (res ∷ next) s os = elim (sys_socket os) [
  | corrupted ↦ (none, os)
  | failed os' ↦ connect_loop next none os'
  | ran fd os' ↦ elim (plain_call os') [
    | corrupted ↦ (none, os')
    | failed os'' ↦ connect_loop next none (sys_close fd os'')
    | ran _ os'' ↦ (some fd, os'')
  ]
]

-- connect_to; `s` is set to 1 in front of the loop.
unfoldable pub connect_to : Option (List AddrInfo) → Os → Option ℕ × Os
connect_to none os = (none, os)
connect_to (some res0) os = connect_loop res0 (some 1) os

-- resolve_hostname: the address that is copied to `addr`, with its length, or -1.
unfoldable pub resolve_hostname : Option (List AddrInfo) → Option (Bytes × ℕ)
resolve_hostname none = none
resolve_hostname (some []) = none
resolve_hostname (some (res ∷ next)) = some (res.addr, length res.addr)

abbrev pub o_nonblock : ℕ
o_nonblock = 2048

-- set_fd_nonblocking
unfoldable pub set_fd_nonblocking : ℕ → Os → Ran ℕ
set_fd_nonblocking fd os = elim (plain_call os) [
  | corrupted ↦ corrupted
  | failed os' ↦ failed os'
  | ran flags os' ↦ sys_setfl fd (bit_or flags o_nonblock) os'
]

-- create_nonblocking_tcp_socket
unfoldable pub create_nonblocking_tcp_socket : Os → Ran ℕ
create_nonblocking_tcp_socket os = elim (sys_socket os) [
  | corrupted ↦ corrupted
  | failed os' ↦ failed os'
  | ran sock os' ↦ elim (set_fd_nonblocking sock os') [
    | corrupted ↦ corrupted
    | failed os'' ↦ failed (sys_close sock os'')
    | ran _ os'' ↦ ran sock os''
  ]
]

abbrev pub af_inet : ℕ
af_inet = 2

abbrev pub af_inet6 : ℕ
af_inet6 = 10

abbrev pub sizeof_sockaddr : ℕ
sizeof_sockaddr = 16

-- The fields that the code fills in, by their offset and size: sin_family, sin_addr and sin_port of a
-- sockaddr_in; sin6_family, sin6_addr and sin6_port of a sockaddr_in6.
abbrev pub filled_in : ℕ → List (ℕ × ℕ)
filled_in family =
    if family == af_inet then (0, 2) ∷ (4, 4) ∷ (2, 2) ∷ [] else (0, 2) ∷ (8, 16) ∷ (2, 2) ∷ []

abbrev pub all_within : ℕ → List (ℕ × ℕ) → Bool
all_within size [] = true
all_within size ((offset, width) ∷ fields) = leb (offset + width) size && all_within size fields

-- create_server_tcp_socket, which fills in a `struct sockaddr`.
unfoldable pub create_server_tcp_socket : ℕ → Os → Ran ℕ
create_server_tcp_socket protofamily os = elim (sys_socket os) [
  | corrupted ↦ corrupted
  | failed os' ↦ failed os'
  | ran sock os' ↦
      if all_within sizeof_sockaddr (filled_in protofamily)
      then elim (plain_call os') [
        | corrupted ↦ corrupted
        | failed os'' ↦ failed os''
        | ran _ os'' ↦ elim (plain_call os'') [
          | corrupted ↦ corrupted
          | failed os''' ↦ failed os'''
          | ran _ os''' ↦ ran sock os'''
        ]
      ]
      else corrupted
]

-- CarrotServer::CarrotServer, which throws where this fails; `ip4` is protocol == PROTOCOL_IP4.
unfoldable pub new_server : Bool → Os → Ran ℕ
new_server ip4 os = create_server_tcp_socket (if ip4 then af_inet else af_inet6) os

-- CarrotBlockingChannel::CarrotBlockingChannel, which throws where this fails.
unfoldable pub open_channel : Option (List AddrInfo) → Os → Ran ℕ
open_channel res os =
    let (s, os') = connect_to res os in elim s [ none ↦ failed os' | some sock ↦ ran sock os' ]

-- CarrotBlockingChannel::~CarrotBlockingChannel, which closes `sock` unless it is -1.
unfoldable pub close_channel : Option ℕ → Os → Os
close_channel none os = os
close_channel (some sock) os = sys_close sock os
