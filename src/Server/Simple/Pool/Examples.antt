-- ===== src/Server/Simple/Pool/Examples.antt =====
-- A connection that is accepted, breaks off, and is reused for the next client.
use carrot_rpc.Prelude.{ℕ, ◌≤◌, ◌≡◌, refl, true, [], ◌∷◌, arith}
use carrot_rpc.Io
use carrot_rpc.Io.{Socket, read_n, read_loop}
use carrot_rpc.Frame.{read_header}
use carrot_rpc.Os.{grants, Os, count}
use carrot_rpc.Server.Sample.{sample_env, echo_services}
use carrot_rpc.Server.Simple.{handle_client}
use carrot_rpc.Server.Simple.Pool.{
  RpcConnection, SimpleServer, new_rpc_connection, handle_listen_sock, destroy_rpc_connection,
  client_callback, destroy_simple_server,
}
use carrot_rpc.Server.Simple.Pool.Owned.{IsOwned}
use carrot_rpc.Server.Simple.Pool.Runs.{
  new_simple_server, accepts, serves, Reach, fresh, next, Once, Reach-IsOwned,
}
use carrot_rpc.Server.Simple.Pool.End.{destroy_simple_server-Closes}

abbrev process : Os
process = record {
  fds = 3 ∷ [];
  flags = λ k. 0;
  answers = λ k. grants 4;
  calls = 0;
  errno = 0;
  wrong_closes = 0;
}

abbrev accepted : SimpleServer
accepted = handle_listen_sock (λ _. true) 100 (new_simple_server process)

abbrev client : RpcConnection
client = record (new_rpc_connection 100) { client_fd = 4; alive = true }

-- The peer has sent nothing and closed.
abbrev hung_up : Socket
hung_up = record { input = []; output = []; turns = Io.serves 0 ∷ []; errno = 0 }

abbrev broken_off : SimpleServer
broken_off = destroy_rpc_connection client accepted

abbrev reused : SimpleServer
reused = handle_listen_sock (λ _. true) 200 broken_off

run : Reach sample_env echo_services (λ _. true) process reused
unfolding handle_listen_sock destroy_rpc_connection client_callback handle_client read_header read_n
    read_loop
run =
    next {s = broken_off}
      (next {s = accepted}
        (next {s = new_simple_server process} fresh (accepts 100 (λ fd e. free fd e) refl refl))
        (serves [] client [] true hung_up refl refl))
      (accepts 200 (λ fd e. free fd e) refl refl)
  where
    free : (fd : ℕ) → grants 4 ≡ grants fd → count fd (3 ∷ []) ≡ 0
    free fd e = let same : 4 ≡ fd = cc e in ground (arith, same)

once : Once sample_env echo_services (λ _. true) process
once = ((λ k. at_most k), refl)
  where
    at_most : (k : ℕ) → count k (3 ∷ []) ≤ 1
    at_most k = ground arith

Reach-IsOwned_example : IsOwned (λ _. true) (λ k. count k process.fds) reused
Reach-IsOwned_example = Reach-IsOwned sample_env echo_services (λ _. true) process reused once run

destroy_simple_server-Closes_example :
    ((k : ℕ) → true ≡ true → count k (destroy_simple_server reused).os.fds ≡ count k process.fds)
    × ((destroy_simple_server reused).os.wrong_closes ≡ 0)
destroy_simple_server-Closes_example =
    destroy_simple_server-Closes sample_env echo_services (λ _. true) process reused once run
