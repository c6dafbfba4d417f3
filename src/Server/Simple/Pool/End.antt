-- ===== src/Server/Simple/Pool/End.antt =====
-- The destructor of a simple server closes what is open.
use carrot_rpc.Prelude.{
  ℕ, ◌+◌, ◌≡◌, refl, ap, sym, subst, ◌∙◌, inl, inr, Bool, true, false, List, [], ◌∷◌, ◌==◌,
  if◌then◌else◌, arith, Bool-cases, Every,
}
use carrot_rpc.Os.{Os, count, sys_close}
use carrot_rpc.Os.Descriptors.{count-remove}
use carrot_rpc.Server.Registry.{Services}
use carrot_rpc.Server.Simple.{Environment}
use carrot_rpc.Server.Simple.Pool.{
  RpcConnection, SimpleServer, close_if_alive, close_all, destroy_simple_server,
}
use carrot_rpc.Server.Simple.Pool.Counting.{uses}
use carrot_rpc.Server.Simple.Pool.Runs.{Reach, Once, Reach-IsOwned}

close-dead : (c : RpcConnection) (os : Os) → c.alive ≡ false → close_if_alive c os ≡ os
close-dead c os dead = go c.alive dead
  where
    go : (a : Bool) → a ≡ false → (if a then sys_close c.client_fd os else os) ≡ os
    go true e = cc
    go false e = refl

close-living :
    (c : RpcConnection) (os : Os) → c.alive ≡ true → close_if_alive c os ≡ sys_close c.client_fd os
close-living c os living = go c.alive living
  where
    go :
        (a : Bool)
        → a ≡ true
        → (if a then sys_close c.client_fd os else os) ≡ sys_close c.client_fd os
    go true e = refl
    go false e = cc

-- The loops of the destructor.
unused-stay :
    (cs : List RpcConnection) (os : Os) → Every (λ c. c.alive ≡ false) cs → close_all cs os ≡ os
unfolding close_all
unused-stay [] os e = refl
unused-stay (c ∷ cs) os (dead, e) = ap (close_all cs) (close-dead c os dead) ∙ unused-stay cs os e

in_use-close :
    (cs : List RpcConnection) (os : Os) (base : ℕ → ℕ) (adds : ℕ → Bool)
    → Every (λ c. c.alive ≡ true) cs
    → ((k : ℕ) → adds k ≡ true → count k os.fds ≡ base k + uses k cs)
    → ((k : ℕ) → adds k ≡ false → uses k cs ≡ 0)
    → os.wrong_closes ≡ 0
    → ((k : ℕ) → adds k ≡ true → count k (close_all cs os).fds ≡ base k)
      × ((close_all cs os).wrong_closes ≡ 0)
unfolding close_all
in_use-close [] os base adds e held added wrong = ((λ k y. omega (arith, held k y)), wrong)
in_use-close (c ∷ cs) os base adds (living, e) held added wrong =
    subst
      (λ o.
        ((k : ℕ) → adds k ≡ true → count k (close_all cs o).fds ≡ base k)
        × ((close_all cs o).wrong_closes ≡ 0))
      (sym (close-living c os living))
      (in_use-close cs (sys_close c.client_fd os) base adds e
        (λ k y. ground (arith, count-remove k c.client_fd os.fds, held k y))
        (λ k z. ground (arith, added k z)) (rw is_open wrong))
  where
    is_open : (count c.client_fd os.fds == 0) ≡ false
    is_open = elim (Bool-cases (adds c.client_fd)) [
      | inl y ↦ ground (arith, held c.client_fd y)
      | inr z ↦ ground (arith, added c.client_fd z)
    ]

-- After any run of a simple server, if accept gives no number that is open, operator new no address in use and
-- no number was open twice at the start, the destructor closes every descriptor that the server accepted and
-- whose events the reactor takes, none of those that were open at the start, and no number
-- that is not open.
pub destroy_simple_server-Closes :
    {Msg : Type 0} (env : Environment Msg) (services : Services Msg) (adds : ℕ → Bool) (os : Os)
    (s : SimpleServer)
    → Once env services adds os
    → Reach env services adds os s
    → ((k : ℕ) → adds k ≡ true → count k (destroy_simple_server s).os.fds ≡ count k os.fds)
      × ((destroy_simple_server s).os.wrong_closes ≡ 0)
unfolding destroy_simple_server
destroy_simple_server-Closes env services adds os s once run =
    let sound = Reach-IsOwned env services adds os s once run in
    rw (unused-stay s.conns_unused s.os sound.idle) (
      in_use-close s.conns_in_use s.os (λ k. count k os.fds) adds sound.alive sound.held sound.added
        sound.wrong)
