-- ===== src/Server/Simple/Pool/Runs.antt =====
-- The runs of a simple server: connections that are accepted or not, requests on any of them, and the end of the server.
use carrot_rpc.Prelude.{
  ℕ, ◌+◌, ◌≤◌, ◌≡◌, refl, subst, Bool, true, false, some, List, [], ◌∷◌, ◌++◌, arith,
}
use carrot_rpc.Io.{Socket}
use carrot_rpc.Os.{grants, Os, count}
use carrot_rpc.Server.Registry.{Services}
use carrot_rpc.Server.Simple.{
  Served, kept, destroyed, blocked, fault, escaped, Environment, handle_client,
}
use carrot_rpc.Server.Simple.Pool.{
  RpcConnection, SimpleServer, handle_listen_sock, after_client, client_callback,
}
use carrot_rpc.Server.Simple.Pool.Counting.{places}
use carrot_rpc.Server.Simple.Pool.Owned.{IsOwned, destroy-IsOwned, keep-IsOwned}
use carrot_rpc.Server.Simple.Pool.Accepting.{handle_listen_sock-IsOwned}

-- A server that has just been made, in a process with these descriptors.
abbrev pub new_simple_server : Os → SimpleServer
new_simple_server os = record { conns_unused = []; conns_in_use = []; events = []; os = os }

module _ {Msg : Type 0} (env : Environment Msg) (services : Services Msg) (adds : ℕ → Bool) where
  -- accept gives a number that is not open, and operator new an address that is not in use.
  pub data Step (s t : SimpleServer) : Type 0 where
    accepts :
        (address : ℕ)
        → ((fd : ℕ) → s.os.answers s.os.calls ≡ grants fd → count fd s.os.fds ≡ 0)
        → places address s.conns_in_use + places address s.conns_unused ≡ 0
        → handle_listen_sock adds address s ≡ t
        → Step s t
    serves :
        (before : List RpcConnection) (c : RpcConnection) (after : List RpcConnection)
        (is_read : Bool) (socket : Socket)
        → s.conns_in_use ≡ before ++ (c ∷ after)
        → client_callback env services is_read c socket s ≡ some t
        → Step s t

  pub data Reach (os : Os) : SimpleServer → Type 0 where
    fresh : Reach os (new_simple_server os)
    next : {s t : SimpleServer} → Reach os s → Step s t → Reach os t

  module _ (base : ℕ → ℕ) where
    callback-IsOwned :
        (s : SimpleServer) (before : List RpcConnection) (c : RpcConnection)
        (after : List RpcConnection) (is_read : Bool) (socket : Socket) (t : SimpleServer)
        → IsOwned adds base s
        → s.conns_in_use ≡ before ++ (c ∷ after)
        → client_callback env services is_read c socket s ≡ some t
        → IsOwned adds base t
    unfolding client_callback
    callback-IsOwned s before c after false socket t sound at e =
        subst (IsOwned adds base) (cc e) sound
    callback-IsOwned s before c after true socket t sound at e =
        go (handle_client env services c.buffer socket) e
      where
        go : (served : Served) → after_client c served s ≡ some t → IsOwned adds base t
        go (kept b _) e =
            subst (IsOwned adds base) (cc e) (keep-IsOwned adds base s sound before c after at b)
        go (destroyed b _) e =
            subst (IsOwned adds base) (cc e) (destroy-IsOwned adds base s sound before c after at b)
        go blocked e = cc
        go fault e = cc
        go (escaped what) e = cc

    Step-IsOwned : (s t : SimpleServer) → Step s t → IsOwned adds base s → IsOwned adds base t
    Step-IsOwned s t (accepts address free new_address e) sound =
        subst (IsOwned adds base) e
          (handle_listen_sock-IsOwned adds base address s sound free new_address)
    Step-IsOwned s t (serves before c after is_read socket at e) sound =
        callback-IsOwned s before c after is_read socket t sound at e

  -- The descriptors that a process has before its server accepts.
  abbrev pub Once : Os → Type 0
  Once os = ((k : ℕ) → count k os.fds ≤ 1) × (os.wrong_closes ≡ 0)

  -- In every run of a simple server that starts with no number open twice, if accept gives no number that is open and
  -- operator new no address in use: the connections in use are alive and those kept for reuse are not;
  -- each descriptor for which the reactor takes events and that was not open at the start
  -- is open once for each connection in use that has it; the reactor has one event for each connection in
  -- use; no number is open twice, so that no two connections in use share one; and no number is
  -- closed that is not open.
  pub Reach-IsOwned :
      (os : Os) (s : SimpleServer) → Once os → Reach os s → IsOwned adds (λ k. count k os.fds) s
  Reach-IsOwned os s once fresh = record {
    alive = tt;
    idle = tt;
    held = λ k y. omega arith;
    added = λ k z. refl;
    registered = λ k. refl;
    once = once.0;
    apart = λ a. omega arith;
    wrong = once.1;
  }
  Reach-IsOwned os t once (next {s} r step) =
      Step-IsOwned (λ k. count k os.fds) s t step (Reach-IsOwned os s once r)
