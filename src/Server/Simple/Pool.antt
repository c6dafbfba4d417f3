-- ===== src/Server/Simple/Pool.antt =====
-- The connections of CarrotSimpleServer in src/server/carrot_simple_server.cpp: accepting, reuse, and the end of a
-- connection and of the server. A connection is known by its address; it stands once in one of the two
-- collections. The reactor is a library: what the server relies on are the events that it has added.
pub mod Counting
pub mod Owned
pub mod Accepting
pub mod Runs
pub mod End
mod Examples
use carrot_rpc.Prelude.{
  ℕ, suc, ◌+◌, ◌≡◌, Bool, true, false, Option, none, some, List, [], ◌∷◌, ◌++◌, ◌==◌, if◌then◌else◌,
}
use carrot_rpc.Buffer.{Buffer, empty_buffer}
use carrot_rpc.Io.{Socket}
use carrot_rpc.Os.{Os, Answer, grants, refuses, called, count, remove, sys_close}
use carrot_rpc.Server.Registry.{Services}
use carrot_rpc.Server.Simple.{
  Served, kept, destroyed, blocked, fault, escaped, Environment, handle_client,
}

-- struct rpc_connection; `address` is the pointer, the key of conns_in_use.
pub record RpcConnection : Type 0 where
  pub address : ℕ
  pub client_fd : ℕ
  pub alive : Bool
  pub buffer : Buffer

-- `events` are the descriptors whose event is in the reactor, `os` the descriptors of the process.
pub record SimpleServer : Type 0 where
  pub conns_unused : List RpcConnection
  pub conns_in_use : List RpcConnection
  pub events : List ℕ
  pub os : Os

-- `new rpc_connection()`
abbrev pub new_rpc_connection : ℕ → RpcConnection
new_rpc_connection address = record {
  address = address;
  client_fd = 0;
  alive = false;
  buffer = empty_buffer;
}

abbrev pub erase_at : ℕ → List RpcConnection → List RpcConnection
erase_at a [] = []
erase_at a (c ∷ cs) = let rest = erase_at a cs in if c.address == a then rest else c ∷ rest

-- TEMP_FAILURE_RETRY(::close(c->client_fd)) if the connection is alive.
abbrev pub close_if_alive : RpcConnection → Os → Os
close_if_alive c os = if c.alive then sys_close c.client_fd os else os

-- destroy_rpc_connection
unfoldable pub destroy_rpc_connection : RpcConnection → SimpleServer → SimpleServer
destroy_rpc_connection c s = record {
  conns_unused = record c { alive = false } ∷ s.conns_unused;
  conns_in_use = erase_at c.address s.conns_in_use;
  events = remove c.client_fd s.events;
  os = close_if_alive c s.os;
}

-- The end of handle_listen_sock, with the connection that it has taken or made; `adds` tells whether the reactor
-- takes the event of a descriptor.
abbrev pub install : (ℕ → Bool) → ℕ → RpcConnection → SimpleServer → SimpleServer
install adds fd conn s =
    let c = record conn { client_fd = fd; alive = true } in
    if adds fd then record s { conns_in_use = c ∷ s.conns_in_use; events = fd ∷ s.events } else s

-- handle_listen_sock; `address` is where operator new puts a connection.
unfoldable pub handle_listen_sock : (ℕ → Bool) → ℕ → SimpleServer → SimpleServer
handle_listen_sock adds address s = elim (s.os.answers s.os.calls) [
  | refuses e ↦ record s { os = record (called s.os) { errno = e } }
  | grants fd ↦
      let s' = record s { os = record (called s.os) { fds = fd ∷ s.os.fds } } in
      elim s.conns_unused [
        | [] ↦ install adds fd (new_rpc_connection address) s'
        | conn ∷ rest ↦ install adds fd conn (record s' { conns_unused = rest })
      ]
]

-- The connection with this address is changed in place.
abbrev pub replace : RpcConnection → List RpcConnection → List RpcConnection
replace c [] = []
replace c (d ∷ ds) =
    let rest = replace c ds in if d.address == c.address then c ∷ rest else d ∷ rest

-- What the end of handle_client means for the server; none where it does not end by returning.
abbrev pub after_client : RpcConnection → Served → SimpleServer → Option SimpleServer
after_client c (kept b _) s =
    some (record s { conns_in_use = replace (record c { buffer = b }) s.conns_in_use })
after_client c (destroyed b _) s = some (destroy_rpc_connection (record c { buffer = b }) s)
after_client c blocked s = none
after_client c fault s = none
after_client c (escaped what) s = none

-- client_callback, which handles E_READ only.
unfoldable pub client_callback :
    {Msg : Type 0}
    → Environment Msg
    → Services Msg
    → Bool
    → RpcConnection
    → Socket
    → SimpleServer
    → Option SimpleServer
client_callback env services is_read c socket s =
    if is_read then after_client c (handle_client env services c.buffer socket) s else some s

-- A loop of the destructor: alive connections are closed and all are deleted.
unfoldable pub close_all : List RpcConnection → Os → Os
close_all [] os = os
close_all (c ∷ cs) os = close_all cs (close_if_alive c os)

-- CarrotSimpleServer::~CarrotSimpleServer
unfoldable pub destroy_simple_server : SimpleServer → SimpleServer
destroy_simple_server s = record {
  conns_unused = [];
  conns_in_use = [];
  events = [];
  os = close_all s.conns_in_use (close_all s.conns_unused s.os);
}
