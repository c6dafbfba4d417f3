-- ===== src/Client/Async/Step.antt =====
-- The runs of a connection: calls of the user, and handlers that asio calls back in any order, each with any
-- error.
use carrot_rpc.Prelude.{◌≡◌, subst, List, ◌∷◌, ◌++◌, Bytes}
use carrot_rpc.Controller.{Controller}
use carrot_rpc.Client.Async.{
  Pending, resolving, connecting, writing, timing, reading_header, reading_payload, Connection,
  Environment, new_connection,
}
use carrot_rpc.Client.Async.Calls.{Error, Result, returned, threw, faulted, hangs}
use carrot_rpc.Client.Async.Handlers.{
  issue, handle_resolve, handle_connect, handle_write, handle_timeout, handle_read_header,
  handle_read_payload,
}
use carrot_rpc.Client.Async.Once.{After}

-- asio calls a handler with an error code and, for a read, with the bytes that were read.
abbrev pub call_back :
    {Msg : Type 0} → Environment Msg → Pending → Error → Bytes → Connection Msg → Result Msg
call_back env (resolving k) e bytes c = handle_resolve env k e c
call_back env (connecting k) e bytes c = handle_connect env k e c
call_back env (writing k) e bytes c = handle_write env k e c
call_back env (timing k) e bytes c = handle_timeout env k e c
call_back env reading_header e bytes c = handle_read_header env e bytes c
call_back env reading_payload e bytes c = handle_read_payload env e bytes c

-- The connection that a member function leaves, by a return or by an exception.
abbrev pub Leaves : {Msg : Type 0} → Result Msg → Connection Msg → Type 0
Leaves (returned c) d = c ≡ d
Leaves (threw c what) d = c ≡ d
Leaves faulted d = ⊥
Leaves hangs d = ⊥

pub data Step {Msg : Type 0} (env : Environment Msg) (c d : Connection Msg) : Type 0 where
  issues :
      (method : Bytes) (controller : Controller) (request : Msg)
      → Leaves (issue env method controller request c) d
      → Step env c d
  calls_back :
      (before after : List Pending) (h : Pending) (e : Error) (bytes : Bytes)
      → c.pending ≡ before ++ (h ∷ after)
      → Leaves (call_back env h e bytes (record c { pending = before ++ after })) d
      → Step env c d

pub data Reach {Msg : Type 0} (env : Environment Msg) : Connection Msg → Type 0 where
  fresh : Reach env new_connection
  next : {c d : Connection Msg} → Reach env c → Step env c d → Reach env d

pub After-Leaves :
    {Msg : Type 0} (P : Connection Msg → Type 0) (r : Result Msg) (d : Connection Msg)
    → After P r
    → Leaves r d
    → P d
After-Leaves P (returned c) d a l = subst P l a
After-Leaves P (threw c what) d a l = subst P l a
After-Leaves P faulted d a l = absurd l
After-Leaves P hangs d a l = absurd l
