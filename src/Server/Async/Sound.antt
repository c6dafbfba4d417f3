-- ===== src/Server/Async/Sound.antt =====
-- What holds in every run of an asynchronous server.
use carrot_rpc.Prelude.{
  ◌≡◌, refl, inl, subst, Bool, true, false, List, [], ◌∷◌, Every, arith, if◌then◌else◌,
}
use carrot_rpc.Server.Simple.{Environment}
use carrot_rpc.Server.Async.{
  Pending, accepting, reading_header, reading_payload, writing_response, Connection, AsyncServer,
}
use carrot_rpc.Server.Async.Handlers.{
  start_accept, new_async_server, register_async, forget_server, forget_servers, destroy_server,
}
use carrot_rpc.Server.Async.Step.{
  After-Leaves, Step, registers, ends, calls_back, Reach, fresh, next,
}
use carrot_rpc.Server.Async.Phase.{IsLinked, HasRoom, Phase, awaits, busy, over, stalled}
use carrot_rpc.Server.Async.Called.{Accepts, IsSound, call_back-IsSound}

module _ {Msg : Type 0} (env : Environment Msg) where
  -- The server ends: the connections of the map lose their back pointer, and no other connection has a handler.
  drop-Phase :
      (c : Connection)
      → Phase env.grants true c
      → Phase env.grants false (record c { has_server = false })
  drop-Phase c (awaits q o l b) = awaits q o refl b
  drop-Phase c (busy h q o l room) = busy h q o refl (room_for h room)
    where
      room_for : (h : Pending) → HasRoom c h → HasRoom (record c { has_server = false }) h
      room_for accepting room = room
      room_for reading_header room = room
      room_for reading_payload room = room
      room_for writing_response w = record {
        bytes = w.bytes;
        earlier = w.earlier;
        given = w.given;
        held = w.held;
      }
  drop-Phase c (over q o) = over q o
  drop-Phase c (stalled k z q o) = stalled k z q o

  unlinked : (c : Connection) → c.registered ≡ false → IsLinked true c → IsLinked false c
  unlinked c z l = ground (arith, z, l)

  keep-Phase :
      (c : Connection) → c.registered ≡ false → Phase env.grants true c → Phase env.grants false c
  keep-Phase c z (awaits q o l b) = awaits q o (unlinked c z l) b
  keep-Phase c z (busy h q o l room) = busy h q o (unlinked c z l) room
  keep-Phase c z (over q o) = over q o
  keep-Phase c z (stalled k r q o) = stalled k r q o

  forget-Phase :
      (c : Connection) → Phase env.grants true c → Phase env.grants false (forget_server c)
  forget-Phase c phase = go c.registered refl
    where
      go :
          (b : Bool)
          → c.registered ≡ b
          → Phase env.grants false (if b then record c { has_server = false } else c)
      go true y = drop-Phase c phase
      go false z = keep-Phase c z phase

  forgets :
      (cs : List Connection)
      → Every (Phase env.grants true) cs
      → Every (Phase env.grants false) (forget_servers cs)
  forgets [] e = tt
  forgets (c ∷ cs) (p, e) = (forget-Phase c p, forgets cs e)

  Step-IsSound : (s t : AsyncServer Msg) → Step env s t → IsSound env s → IsSound env t
  unfolding register_async destroy_server
  Step-IsSound s t (registers service closure e) sound =
      subst (IsSound env) e (record { phases = sound.phases; acceptor = sound.acceptor })
  Step-IsSound s t (ends living e) sound = subst (IsSound env) e (record {
    phases =
        forgets s.connections
          (subst (λ a. Every (Phase env.grants a) s.connections) living sound.phases);
    acceptor = λ dead. cc;
  })
  Step-IsSound s t (calls_back before c after earlier h later e bytes at p l) sound =
      After-Leaves (IsSound env) _ t
        (call_back-IsSound env s sound before c after at earlier h later e bytes p) l

  Reach-IsSound : (s : AsyncServer Msg) → Reach env s → IsSound env s
  unfolding new_async_server start_accept
  Reach-IsSound s fresh = record {
    phases = (awaits refl refl refl (inl refl), tt);
    acceptor = λ living. inl refl;
  }
  Reach-IsSound t (next {s} r step) = Step-IsSound s t step (Reach-IsSound s r)

  -- In every run of a server up to a crash of a handler, whatever errors asio reports, in whatever
  -- order it calls the handlers back and whether or not the server has been destroyed, every
  -- connection waits for a client with a closed socket; or its socket is open and exactly one
  -- operation on it is pending, for which the block is large enough: it holds a header, if one is
  -- read; the header and as many bytes behind it as are read, if a payload is read; the bytes that
  -- were given to async_write, if a reply is written; or its socket is closed and it waits for
  -- nothing; or, if the allocator ever refuses, its socket is open and it waits for nothing. The
  -- back pointer of a connection with a pending handler is NULL or points to a server that lives and
  -- has the connection in its map.
  pub Reach-Phase :
      (s : AsyncServer Msg) → Reach env s → Every (Phase env.grants s.alive) s.connections
  Reach-Phase s r = (Reach-IsSound s r).phases

  -- In every run up to a crash of a handler, a server that was not destroyed has exactly one accept pending, whatever happened to its
  -- connections, unless the allocator refuses some size.
  pub Reach-Accepts :
      (s : AsyncServer Msg) → Reach env s → s.alive ≡ true → Accepts env s.connections
  Reach-Accepts s r = (Reach-IsSound s r).acceptor
