-- ===== src/Sockets/Examples.antt =====
-- A host with two addresses, of which the first refuses the connection.
use carrot_rpc.Prelude.{ℕ, zero, suc, ◌≡◌, ◌≢◌, refl, some, List, [], ◌∷◌, text}
use carrot_rpc.Os.{Answer, grants, refuses, Os, Ran, failed}
use carrot_rpc.Sockets.{
  AddrInfo, connect_to, connect_loop, create_nonblocking_tcp_socket, create_server_tcp_socket,
  open_channel, af_inet,
}
use carrot_rpc.Sockets.Balance.{
  Balanced, connect_to-Balanced, Closes, open_channel-Closes, NonBlocking,
  create_nonblocking_tcp_socket-NonBlocking, Listens, create_server_tcp_socket-Listens,
}

abbrev answers_of : List Answer → ℕ → Answer
answers_of [] k = grants 0
answers_of (a ∷ as') zero = a
answers_of (a ∷ as') (suc k) = answers_of as' k

abbrev system : List Answer → Os
system answers = record {
  fds = 0 ∷ 1 ∷ 2 ∷ [];
  flags = λ k. 2;
  answers = answers_of answers;
  calls = 0;
  errno = 0;
  wrong_closes = 0;
}

abbrev addresses : List AddrInfo
addresses =
    record { family = 10; addr = text "::1" } ∷ record { family = 2; addr = text "localhost" } ∷ []

abbrev second_works : Os
second_works = system (grants 3 ∷ refuses 111 ∷ grants 3 ∷ grants 0 ∷ [])

found_addresses : some addresses ≢ some []
found_addresses e = cc

connects_to_second : (connect_to (some addresses) second_works).0 ≡ some 3
unfolding connect_to connect_loop
connects_to_second = refl

connect_to-Balanced_example : Balanced second_works (connect_to (some addresses) second_works)
connect_to-Balanced_example = connect_to-Balanced (some addresses) second_works found_addresses

open_channel-Closes_example : Closes second_works (open_channel (some addresses) second_works)
open_channel-Closes_example = open_channel-Closes (some addresses) second_works found_addresses

abbrev no_flags : Os
no_flags = system (grants 3 ∷ grants 2 ∷ refuses 9 ∷ [])

create_nonblocking_tcp_socket-NonBlocking_example :
    NonBlocking no_flags (create_nonblocking_tcp_socket no_flags)
create_nonblocking_tcp_socket-NonBlocking_example =
    create_nonblocking_tcp_socket-NonBlocking no_flags

abbrev port_in_use : Os
port_in_use = system (grants 3 ∷ refuses 98 ∷ [])

-- The socket that could not be bound stays open.
abbrev fds_of : Ran ℕ → List ℕ
fds_of (failed os) = os.fds
fds_of _ = []

bind_leaks : fds_of (create_server_tcp_socket af_inet port_in_use) ≡ 3 ∷ 0 ∷ 1 ∷ 2 ∷ []
unfolding create_server_tcp_socket
bind_leaks = refl

create_server_tcp_socket-Listens_example :
    Listens af_inet port_in_use (create_server_tcp_socket af_inet port_in_use)
create_server_tcp_socket-Listens_example = create_server_tcp_socket-Listens af_inet port_in_use
