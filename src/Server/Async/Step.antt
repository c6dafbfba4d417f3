-- ===== src/Server/Async/Step.antt =====
-- The runs of an asynchronous server: handlers that asio calls back in any order, each with any error, services that
-- the user registers, and the end of the server.
use carrot_rpc.Prelude.{ℕ, ◌≡◌, subst, true, List, ◌∷◌, ◌++◌, Bytes}
use carrot_rpc.Asio.{Error}
use carrot_rpc.Server.Registry.{Service}
use carrot_rpc.Server.Simple.{Environment}
use carrot_rpc.Server.Async.{
  Pending, accepting, reading_header, reading_payload, writing_response, Connection, AsyncServer,
  Ended, finished, raised, crashed, spins, and_then,
}
use carrot_rpc.Server.Async.Handlers.{
  handle_read_header, handle_read_payload, handle_write_response, handle_accept, register_async,
  new_async_server, destroy_server, put,
}

-- What a member function leaves, by a return or by an exception.
abbrev pub Leaves : {S : Type 0} → Ended S → S → Type 0
Leaves (finished s) t = s ≡ t
Leaves (raised s what) t = s ≡ t
Leaves crashed t = ⊥
Leaves spins t = ⊥

abbrev pub After : {S : Type 0} → (S → Type 0) → Ended S → Type 0
After P (finished s) = P s
After P (raised s what) = P s
After P crashed = Unit {0}
After P spins = Unit {0}

pub After-Leaves :
    {S : Type 0} (P : S → Type 0) (r : Ended S) (t : S) → After P r → Leaves r t → P t
After-Leaves P (finished s) t a l = subst P l a
After-Leaves P (raised s what) t a l = subst P l a
After-Leaves P crashed t a l = absurd l
After-Leaves P spins t a l = absurd l

module _ {Msg : Type 0} (env : Environment Msg) where
  abbrev pub within :
      List Connection
      → List Connection
      → AsyncServer Msg
      → Ended Connection
      → Ended (AsyncServer Msg)
  within before after s r = and_then r (put before after s) (λ d. finished (put before after s d))

  -- asio calls a handler of the connection between `before` and `after` with an error code and, for a read, with
  -- the bytes that were read.
  abbrev pub call_back :
      Pending
      → Error
      → Bytes
      → List Connection
      → Connection
      → List Connection
      → AsyncServer Msg
      → Ended (AsyncServer Msg)
  call_back accepting e bytes before c after s = handle_accept env e before c after s
  call_back reading_header e bytes before c after s =
      within before after s (handle_read_header env s.services e bytes c)
  call_back reading_payload e bytes before c after s =
      within before after s (handle_read_payload env s.services e bytes c)
  call_back writing_response e bytes before c after s =
      within before after s (handle_write_response env s.services e c)

  pub data Step (s t : AsyncServer Msg) : Type 0 where
    registers :
        (service : Service Msg) (closure : ℕ) → (register_async service closure s).1 ≡ t → Step s t
    ends : s.alive ≡ true → destroy_server s ≡ t → Step s t
    calls_back :
        (before : List Connection) (c : Connection) (after : List Connection)
        (earlier : List Pending) (h : Pending) (later : List Pending) (e : Error) (bytes : Bytes)
        → s.connections ≡ before ++ (c ∷ after)
        → c.pending ≡ earlier ++ (h ∷ later)
        → Leaves (call_back h e bytes before (record c { pending = earlier ++ later }) after s) t
        → Step s t

  pub data Reach : AsyncServer Msg → Type 0 where
    fresh : Reach new_async_server
    next : {s t : AsyncServer Msg} → Reach s → Step s t → Reach t
