-- ===== src/Client/Async/Handled.antt =====
-- No call of the user and no handler of RpcClientConnection loses a call or ends one twice.
use carrot_rpc.Prelude.{
  ℕ, suc, ◌%◌, ◌^◌, ◌≡◌, inl, inr, refl, sym, subst, Bool, true, false, ◌||◌, some, List, [], ◌∷◌,
  ◌++◌, Bytes, ◌==◌, if◌then◌else◌, arith, Bool-cases, Option-cases,
}
use carrot_rpc.Controller.{
  Controller, ErrorCode, ec_transport_error, ec_connection_failed, ec_error, set_failed_with,
}
use carrot_rpc.Client.Async.{
  CallTask, resolving, connecting, Connection, Environment, find_task, read_data,
}
use carrot_rpc.Client.Async.Calls.{
  Error, no_error, eof, error, message, Result, returned, threw, faulted, hangs, and_then,
  with_timer, set_state, start_call, start_read,
}
use carrot_rpc.Client.Async.Handlers.{
  new_task, fails, issue, handle_resolve, handle_connect, handle_write,
}
use carrot_rpc.Client.Async.Once.{nobody, AreKept, After, on_task-AreKept, destroy-AreKept}
use carrot_rpc.Client.Async.Kept.{
  exempt, lists-AreKept, task-AreKept, awaits-with_timer, start_read-AreKept, start_call-AreKept,
}

module _ {Msg : Type 0} (env : Environment Msg) where
  Kept : Result Msg → Type 0
  Kept r = After (AreKept nobody) r

  pub and_then-After :
      (P : Connection Msg → Type 0) (r : Result Msg) (k : Connection Msg → Result Msg)
      → After P r
      → ((c : Connection Msg) → P c → After P (k c))
      → After P (and_then r k)
  and_then-After P (returned c) k a h = h c a
  and_then-After P (threw c what) k a h = a
  and_then-After P faulted k a h = tt
  and_then-After P hangs k a h = tt

  exempts : (k : ℕ) (c : Connection Msg) → AreKept nobody c → AreKept (exempt env k) c
  exempts k c = lists-AreKept env nobody (exempt env k) c c refl (λ i h. ground (arith, h))

  pub issue-AreKept :
      (method : Bytes) (controller : Controller) (request : Msg) (c : Connection Msg)
      → AreKept nobody c
      → After (AreKept nobody) (issue env method controller request c)
  unfolding issue
  issue-AreKept method controller request c kept = go c.opened
    where
      k : ℕ
      k = suc c.id % 2 ^ 64

      task : CallTask Msg
      task = new_task env k method controller request

      added : Connection Msg
      added = record c { id = k; tasks = task ∷ c.tasks }

      go :
          (opened : Bool)
          → After (AreKept nobody) (
              if opened
              then start_call env task added
              else returned (record added {
                is_connecting = true;
                pending = resolving k ∷ with_timer k task c.pending;
              }))
      go true = start_call-AreKept env task added ((refl, ground arith), exempts k c kept)
      go false = (
        (refl, ground arith),
        lists-AreKept env nobody nobody c
            (record c { pending = resolving k ∷ with_timer k task c.pending }) refl
            (λ i h. rw (awaits-with_timer env i k task c.pending) (ground (arith, h))) kept,
      )

  fails-AreKept :
      (k : ℕ) (reason : Bytes) (ec : ErrorCode) (e : Error) (c : Connection Msg)
      → AreKept (exempt env k) c
      → After (AreKept nobody) (fails env k reason ec e c)
  fails-AreKept k reason ec e c kept = destroy-AreKept env nobody (message e) _ (
      on_task-AreKept env nobody k
        (λ t controller. set_failed_with controller (reason ++ message e) ec) c c.outgoing_tasks
        (λ i. refl)
        (lists-AreKept env (exempt env k) (λ i. k == i || nobody i) c c refl
          (λ i h. ground (arith, h)) kept))

  pub handle_resolve-AreKept :
      (k : ℕ) (e : Error) (c : Connection Msg)
      → AreKept (exempt env k) c
      → After (AreKept nobody) (handle_resolve env k e c)
  unfolding handle_resolve
  handle_resolve-AreKept k no_error c kept =
      lists-AreKept env (exempt env k) nobody c
        (record c { opened = true; pending = connecting k ∷ c.pending }) refl
        (λ i h. ground (arith, h)) kept
  handle_resolve-AreKept k eof c kept = fails-AreKept k _ ec_error eof c kept
  handle_resolve-AreKept k (error what) c kept = fails-AreKept k _ ec_error (error what) c kept

  find_task-id :
      (k : ℕ) (ts : List (CallTask Msg)) (t : CallTask Msg) → find_task k ts ≡ some t → t.id ≡ k
  find_task-id k [] t e = cc
  find_task-id k (u ∷ ts) t e = elim (Bool-cases (u.id == k)) [
    | inl y ↦ let same : some u ≡ some t = rw y at e in grind (arith, same)
    | inr z ↦ find_task-id k ts t (rw z at e)
  ]

  pub handle_connect-AreKept :
      (k : ℕ) (e : Error) (c : Connection Msg)
      → AreKept (exempt env k) c
      → After (AreKept nobody) (handle_connect env k e c)
  unfolding handle_connect
  handle_connect-AreKept k no_error c kept = elim (Option-cases (find_task k c.tasks)) [
    | inl e ↦ rw (e, handle_connect) tt
    | inr (t, e) ↦
        rw (e, handle_connect)
          (and_then-After (AreKept nobody) (start_call env t (record c { is_connecting = false }))
            (start_read env)
            (start_call-AreKept env t (record c { is_connecting = false })
              (subst (λ i. AreKept (exempt env i) c) (sym (find_task-id k c.tasks t e)) kept))
            (start_read-AreKept env nobody))
  ]
  handle_connect-AreKept k eof c kept = fails-AreKept k _ ec_connection_failed eof c kept
  handle_connect-AreKept k (error what) c kept =
      fails-AreKept k _ ec_connection_failed (error what) c kept

  pub handle_write-AreKept :
      (k : ℕ) (e : Error) (c : Connection Msg)
      → AreKept nobody c
      → After (AreKept nobody) (handle_write env k e c)
  unfolding handle_write
  handle_write-AreKept k no_error c kept =
      task-AreKept env nobody k (set_state read_data) c (λ t. (refl, refl, refl)) kept
  handle_write-AreKept k eof c kept = fails-AreKept k _ ec_transport_error eof c (exempts k c kept)
  handle_write-AreKept k (error what) c kept =
      fails-AreKept k _ ec_transport_error (error what) c (exempts k c kept)
