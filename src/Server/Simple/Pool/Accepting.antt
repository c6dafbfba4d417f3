-- ===== src/Server/Simple/Pool/Accepting.antt =====
-- handle_listen_sock: a new descriptor is given to one connection.
use carrot_rpc.Prelude.{
  ℕ, ◌+◌, ◌≤◌, ◌≡◌, ◌≢◌, refl, ap, sym, subst, inl, inr, Bool, false, List, [], ◌∷◌, ◌==◌,
  if◌then◌else◌, arith, Bool-cases, Every,
}
use carrot_rpc.Os.{grants, called, count}
use carrot_rpc.Os.Descriptors.{Answer-cases}
use carrot_rpc.Server.Simple.Pool.{
  RpcConnection, SimpleServer, new_rpc_connection, install, handle_listen_sock,
}
use carrot_rpc.Server.Simple.Pool.Counting.{places}
use carrot_rpc.Server.Simple.Pool.Owned.{IsOwned}

module _ (adds : ℕ → Bool) (base : ℕ → ℕ) where
  -- A new descriptor with a connection that is in no collection.
  module _ (s : SimpleServer) (sound : IsOwned adds base s) (fd : ℕ)
      (new_fd : count fd s.os.fds ≡ 0) (conn : RpcConnection) (rest : List RpcConnection)
      (idle : Every (λ c. c.alive ≡ false) rest)
      (apart : (a : ℕ)
        → places a s.conns_in_use + ((if conn.address == a then 1 else 0) + places a rest)
          ≤ 1) where
    abbrev accepted : SimpleServer
    accepted = record s { conns_unused = rest; os = record (called s.os) { fds = fd ∷ s.os.fds } }

    once_more : (k : ℕ) → count k (fd ∷ s.os.fds) ≤ 1
    once_more k = elim (Bool-cases (fd == k)) [
      | inl y ↦
          let same : fd ≡ k = ground (arith, y) in
          ground (arith, y, subst (λ k. count k s.os.fds ≡ 0) same new_fd)
      | inr z ↦ ground (arith, z, sound.once k)
    ]

    other : (k : ℕ) → adds fd ≢ adds k → (fd == k) ≡ false
    other k differs = elim (Bool-cases (fd == k)) [
      | inr d ↦ d
      | inl e ↦ let same : fd ≡ k = ground (arith, e) in absurd (differs (ap adds same))
    ]

    install-IsOwned : IsOwned adds base (install adds fd conn accepted)
    install-IsOwned = elim (Bool-cases (adds fd)) [
      | inl y ↦ rw y (record {
        alive = (refl, sound.alive);
        idle = idle;
        held = λ k a. omega (arith, sound.held k a);
        added = λ k z. ground (arith, other k (λ same. cc (same, y, z)), sound.added k z);
        registered = λ k. omega (arith, sound.registered k);
        once = once_more;
        apart = λ a. omega (arith, apart a);
        wrong = sound.wrong;
      })
      | inr z ↦ rw z (record {
        alive = sound.alive;
        idle = idle;
        held = λ k y. ground (arith, other k (λ same. cc (same, y, z)), sound.held k y);
        added = sound.added;
        registered = sound.registered;
        once = once_more;
        apart = λ a. omega (arith, apart a);
        wrong = sound.wrong;
      })
    ]

  -- The kernel gives no number that is open, and the allocator no address that is in use.
  pub handle_listen_sock-IsOwned :
      (address : ℕ) (s : SimpleServer)
      → IsOwned adds base s
      → ((fd : ℕ) → s.os.answers s.os.calls ≡ grants fd → count fd s.os.fds ≡ 0)
      → places address s.conns_in_use + places address s.conns_unused ≡ 0
      → IsOwned adds base (handle_listen_sock adds address s)
  unfolding handle_listen_sock
  handle_listen_sock-IsOwned address s sound free new_address =
      elim (Answer-cases (s.os.answers s.os.calls)) [
        | inr (e, r) ↦
            rw (r, handle_listen_sock)
              (record {
                alive = sound.alive;
                idle = sound.idle;
                held = sound.held;
                added = sound.added;
                registered = sound.registered;
                once = sound.once;
                apart = sound.apart;
                wrong = sound.wrong;
              })
        | inl (fd, r) ↦ rw (r, handle_listen_sock) (go s.conns_unused refl fd (free fd r))
      ]
    where
      lone : (a : ℕ) → places a s.conns_in_use + ((if address == a then 1 else 0) + 0) ≤ 1
      lone a = elim (Bool-cases (address == a)) [
        | inr z ↦ ground (arith, z, sound.apart a)
        | inl y ↦
            let same : address ≡ a = ground (arith, y) in
            ground (
              arith,
              y,
              subst (λ a. places a s.conns_in_use + places a s.conns_unused ≡ 0) same new_address,
            )
      ]

      go :
          (unused : List RpcConnection)
          → s.conns_unused ≡ unused
          → (fd : ℕ) → count fd s.os.fds ≡ 0
          → IsOwned adds base (elim unused [
            | [] ↦
                install adds fd
                  (new_rpc_connection address)
                  (record s { os = record (called s.os) { fds = fd ∷ s.os.fds } })
            | conn ∷ rest ↦ install adds fd conn (record s {
              conns_unused = rest;
              os = record (called s.os) { fds = fd ∷ s.os.fds };
            })
          ])
      go [] e fd new_fd =
          subst
            (λ unused. IsOwned adds base (
              install adds fd (new_rpc_connection address) (record s {
                conns_unused = unused;
                os = record (called s.os) { fds = fd ∷ s.os.fds };
              })))
            (sym e) (install-IsOwned s sound fd new_fd (new_rpc_connection address) [] tt lone)
      go (conn ∷ rest) e fd new_fd =
          install-IsOwned s sound fd new_fd conn rest
            ((subst (Every (λ c. c.alive ≡ false)) e sound.idle).1)
            (λ a. omega (arith, sound.apart a, ap (places a) e))
