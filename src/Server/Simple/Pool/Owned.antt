-- ===== src/Server/Simple/Pool/Owned.antt =====
-- Each descriptor of the server belongs to one connection.
use carrot_rpc.Prelude.{
  ℕ, ◌+◌, ◌≤◌, ◌≡◌, refl, ap, sym, subst, ◌∙◌, inl, inr, Bool, true, false, List, ◌∷◌, ◌++◌, ◌==◌,
  if◌then◌else◌, arith, Bool-cases, Every, Every-middle, Every-drop,
}
use carrot_rpc.Buffer.{Buffer}
use carrot_rpc.Os.{count, remove, sys_close}
use carrot_rpc.Os.Descriptors.{count-remove}
use carrot_rpc.Server.Simple.Pool.{
  RpcConnection, SimpleServer, erase_at, replace, close_if_alive, destroy_rpc_connection,
}
use carrot_rpc.Server.Simple.Pool.Counting.{
  uses, places, uses-middle, places-middle, erase_at-middle, replace-middle,
}

-- `base` are the descriptors that the server does not own. The connections in use are alive and the others not; the
-- descriptors whose event the reactor takes are those of `base` and one for each connection in use; the
-- events are those of the connections in use; no descriptor is open twice, no address stands
-- twice, and no number was closed that is not open.
pub record IsOwned (adds : ℕ → Bool) (base : ℕ → ℕ) (s : SimpleServer) : Type 0 where
  pub alive : Every (λ c. c.alive ≡ true) s.conns_in_use
  pub idle : Every (λ c. c.alive ≡ false) s.conns_unused
  pub held : (k : ℕ) → adds k ≡ true → count k s.os.fds ≡ base k + uses k s.conns_in_use
  pub added : (k : ℕ) → adds k ≡ false → uses k s.conns_in_use ≡ 0
  pub registered : (k : ℕ) → count k s.events ≡ uses k s.conns_in_use
  pub once : (k : ℕ) → count k s.os.fds ≤ 1
  pub apart : (a : ℕ) → places a s.conns_in_use + places a s.conns_unused ≤ 1
  pub wrong : s.os.wrong_closes ≡ 0

module _ (adds : ℕ → Bool) (base : ℕ → ℕ) where
  module _ (s : SimpleServer) (sound : IsOwned adds base s) (before : List RpcConnection)
      (c : RpcConnection) (after : List RpcConnection)
      (at : s.conns_in_use ≡ before ++ (c ∷ after)) where
    uses-at :
        (k : ℕ)
        → uses k s.conns_in_use ≡ (if c.client_fd == k then 1 else 0) + uses k (before ++ after)
    uses-at k = ap (uses k) at ∙ uses-middle k before c after

    places-at :
        (a : ℕ)
        → places a s.conns_in_use ≡ (if c.address == a then 1 else 0) + places a (before ++ after)
    places-at a = ap (places a) at ∙ places-middle a before c after

    alone : places c.address (before ++ after) ≡ 0
    alone = ground (arith, sound.apart c.address, places-at c.address)

    erased : erase_at c.address s.conns_in_use ≡ before ++ after
    erased = ap (erase_at c.address) at ∙ erase_at-middle before c after alone

    in_use-alive : Every (λ c. c.alive ≡ true) (before ++ (c ∷ after))
    in_use-alive = subst (Every (λ c. c.alive ≡ true)) at sound.alive

    c-alive : c.alive ≡ true
    c-alive = (Every-middle (λ c. c.alive ≡ true) before c after in_use-alive).0

    is_open : (count c.client_fd s.os.fds == 0) ≡ false
    is_open = elim (Bool-cases (adds c.client_fd)) [
      | inl y ↦ ground (arith, sound.held c.client_fd y, uses-at c.client_fd)
      | inr z ↦ ground (arith, sound.added c.client_fd z, uses-at c.client_fd)
    ]

    closed :
        (b : Buffer) → close_if_alive (record c { buffer = b }) s.os ≡ sys_close c.client_fd s.os
    closed b = go c.alive c-alive
      where
        go :
            (a : Bool)
            → a ≡ true
            → (if a then sys_close c.client_fd s.os else s.os) ≡ sys_close c.client_fd s.os
        go true y = refl
        go false y = cc

    -- The connections and the descriptors once `c` has been destroyed.
    destroyed : Buffer → SimpleServer
    destroyed b = record {
      conns_unused = record c { buffer = b; alive = false } ∷ s.conns_unused;
      conns_in_use = before ++ after;
      events = remove c.client_fd s.events;
      os = sys_close c.client_fd s.os;
    }

    destroyed-IsOwned : (b : Buffer) → IsOwned adds base (destroyed b)
    unfolding destroyed
    destroyed-IsOwned b = record {
      alive = Every-drop (λ c. c.alive ≡ true) before c after in_use-alive;
      idle = (refl, sound.idle);
      held = λ k y. ground (arith, count-remove k c.client_fd s.os.fds, sound.held k y, uses-at k);
      added = λ k z. ground (arith, sound.added k z, uses-at k);
      registered =
          λ k. ground (arith, count-remove k c.client_fd s.events, sound.registered k, uses-at k);
      once = λ k. ground (arith, count-remove k c.client_fd s.os.fds, sound.once k);
      apart = λ a. ground (arith, sound.apart a, places-at a);
      wrong = rw is_open sound.wrong;
    }

    pub destroy-IsOwned :
        (b : Buffer) → IsOwned adds base (destroy_rpc_connection (record c { buffer = b }) s)
    unfolding destroy_rpc_connection destroyed
    destroy-IsOwned b = rw (erased, closed b) (destroyed-IsOwned b)

    pub keep-IsOwned :
        (b : Buffer)
        → IsOwned adds base
            (record s { conns_in_use = replace (record c { buffer = b }) s.conns_in_use })
    keep-IsOwned b = rw replaced (record {
      alive =
          (Every-middle (λ c. c.alive ≡ true) before c after in_use-alive).1
            (record c { buffer = b }) c-alive;
      idle = sound.idle;
      held = λ k y. sound.held k y ∙ ap (λ n. base k + n) (same_uses k);
      added = λ k z. sym (same_uses k) ∙ sound.added k z;
      registered = λ k. sound.registered k ∙ same_uses k;
      once = sound.once;
      apart = λ a. omega (
        arith,
        sound.apart a,
        places-at a,
        places-middle a before (record c { buffer = b }) after,
      );
      wrong = sound.wrong;
    })
      where
        replaced :
            replace (record c { buffer = b }) s.conns_in_use
            ≡ before ++ (record c { buffer = b } ∷ after)
        replaced =
            ap (replace (record c { buffer = b })) at
            ∙ replace-middle before c (record c { buffer = b }) after refl alone

        same_uses :
            (k : ℕ) → uses k s.conns_in_use ≡ uses k (before ++ (record c { buffer = b } ∷ after))
        same_uses k = omega (arith, uses-at k, uses-middle k before (record c { buffer = b }) after)
