-- ===== src/Client/Async/Ending.antt =====
-- What a reply does to its call.
use carrot_rpc.Message.{parse_at, parse_sized-at}
use carrot_rpc.Prelude.{
  ℕ, ◌+◌, ◌≡◌, inl, inr, refl, ◌∙◌, subst, false, some, List, [], ◌∷◌, Bytes, ◌==◌, leb, length,
  arith, Bool-cases, Option, ap, drop, suc, none, true,
}
use carrot_rpc.Protob.Status.{Status}
use carrot_rpc.Client.Async.Handlers.{
  take_status, take_response, complete_task, take_reply, read_reply, settle,
}
use carrot_rpc.Client.Async.{
  done, CallTask, Connection, Environment, elem, erase, on_task, at_id, each, find_task, run_done,
  fail_task, finish_task,
}
use carrot_rpc.Client.Async.Calls.{
  set_state, Result, returned, threw, faulted, hangs, and_then, start_read,
}
use carrot_rpc.Protob.Response.{Response}
use carrot_rpc.Client.Async.Replies.{settle-Spares}
use carrot_rpc.Client.Async.Matching.{LeavesAlone, fail_task-id, start_read-alone}

module _ {Msg : Type 0} (env : Environment Msg) where
  pub find_task-hit :
      (k : ℕ) (f : CallTask Msg → CallTask Msg) (ts : List (CallTask Msg)) (t : CallTask Msg)
      → ((t : CallTask Msg) → (f t).id ≡ t.id)
      → find_task k ts ≡ some t
      → find_task k (each (at_id k f) ts) ≡ some (f t)
  find_task-hit k f [] t same e = cc
  find_task-hit k f (u ∷ ts) t same e = elim (Bool-cases (u.id == k)) [
    | inl y ↦ let first : some u ≡ some t = rw y at e in hit u t y (cc first)
    | inr z ↦ rw (z, z) (find_task-hit k f ts t same (rw z at e))
  ]
    where
      found :
          (v : CallTask Msg) → (v.id == k) ≡ true → find_task k (v ∷ each (at_id k f) ts) ≡ some v
      found v y = simp y refl

      hit :
          (u t : CallTask Msg)
          → (u.id == k) ≡ true
          → u ≡ t
          → find_task k (each (at_id k f) (u ∷ ts)) ≡ some (f t)
      hit u t y e = simp y (found (f u) (ap (λ n. n == k) (same u) ∙ y) ∙ ap (λ v. some (f v)) e)

  elem-erase_same : (k : ℕ) (is : List ℕ) → elem k (erase k is) ≡ false
  elem-erase_same k [] = refl
  elem-erase_same k (i ∷ is) = ground (arith, elem-erase_same k is)

  -- The call of a reply is over: done was run once more, with the message of the reply if it parses.
  abbrev pub Settled : CallTask Msg → Option Msg → CallTask Msg → Type 0
  Settled t m u =
      (u.called ≡ true)
      × (u.runs ≡ suc t.runs)
      × (u.response ≡ elim m [ none ↦ t.response | some response ↦ some response ])

  take_status-response :
      (r : Response) (t : CallTask Msg) → (take_status env r t).response ≡ t.response
  take_status-response r t = go r.status
    where
      go : (s : Status) → (take_status env (record r { status = s }) t).response ≡ t.response
      go Status.success = refl
      go Status.error = refl
      go Status.not_found = refl
      go Status.failed = refl

  settle-response :
      (r : Response) (param : Option Msg) (t : CallTask Msg)
      → (settle env r param t).response
        ≡ elim param [ none ↦ t.response | some response ↦ some response ]
  settle-response r param t = go param
    where
      go :
          (m : Option Msg)
          → (take_response env m (take_status env r (set_state done t))).response
            ≡ elim m [ none ↦ t.response | some response ↦ some response ]
      go none = take_status-response r (set_state done t)
      go (some m) = refl

  open-over :
      (v : CallTask Msg)
      → v.called ≡ false
      → ((fail_task env (λ controller. controller) v).called ≡ true)
        × ((fail_task env (λ controller. controller) v).runs ≡ suc v.runs)
        × ((fail_task env (λ controller. controller) v).response ≡ v.response)
  unfolding fail_task run_done
  open-over v e = ground arith

  settle-Settled :
      (r : Response) (param : Option Msg) (t : CallTask Msg)
      → t.called ≡ false
      → Settled t param (fail_task env (λ controller. controller) (settle env r param t))
  settle-Settled r param t open_call =
      let (called, runs, same) = settle-Spares env r param t in
      let (over, ran, kept) = open-over (settle env r param t) (called ∙ open_call) in
      (over, ran ∙ ap suc runs, kept ∙ settle-response r param t)

  -- A reply settles its call.
  abbrev Settles : CallTask Msg → Response → Option Msg → Result Msg → Type 0
  Settles t r param (returned d) =
      (u : CallTask Msg) × (find_task r.id d.tasks ≡ some u)
      × Settled t param u
      × (elem r.id d.outgoing_tasks ≡ false)
  Settles t r param _ = Unit {0}

  complete_task-Settles :
      (r : Response) (param : Option Msg) (c : Connection Msg) (t : CallTask Msg)
      → find_task r.id c.tasks ≡ some t
      → t.called ≡ false
      → Settles t r param (complete_task env r param c)
  unfolding complete_task finish_task
  complete_task-Settles r param c t at open_call =
      go (start_read env (on_task r.id (settle env r param) c))
        (start_read-alone env r.id (on_task r.id (settle env r param) c))
    where
      settled :
          find_task r.id (each (at_id r.id (settle env r param)) c.tasks)
          ≡ some (settle env r param t)
      settled =
          find_task-hit r.id (settle env r param) c.tasks t (λ t. (settle-Spares env r param t).2)
            at

      go :
          (x : Result Msg)
          → LeavesAlone env r.id (on_task r.id (settle env r param) c) x
          → Settles t r param (
              and_then x λ c'. returned (
                finish_task env r.id (record c' { outgoing_tasks = erase r.id c'.outgoing_tasks })))
      go (returned d) (tasks, outgoing) = (
        fail_task env (λ controller. controller) (settle env r param t),
        find_task-hit r.id (fail_task env λ controller. controller) d.tasks (settle env r param t)
            (fail_task-id env r.id λ controller. controller) (tasks ∙ settled),
        settle-Settled r param t open_call,
        elem-erase_same r.id d.outgoing_tasks,
      )
      go (threw d what) _ = tt
      go faulted _ = tt
      go hangs _ = tt

  -- What the parse of the parameter of a reply gives.
  abbrev pub parameter_of : Bytes → Connection Msg → Option Msg
  parameter_of bytes c = parse_at env.messages c.header.resp_len (drop c.header.rpc_len bytes)

  take_reply-Settles :
      (bytes : Bytes) (c : Connection Msg) (r : Response) (t : CallTask Msg)
      → elem r.id c.outgoing_tasks ≡ true
      → find_task r.id c.tasks ≡ some t
      → t.called ≡ false
      → Settles t r (parameter_of bytes c) (take_reply env bytes c (some r))
  take_reply-Settles bytes c r t found at open_call = rw found (
      parse_sized-at (Settles t r (parameter_of bytes c)) env.messages c.header.resp_len
        (drop c.header.rpc_len bytes) (leb (c.header.rpc_len + c.header.resp_len) (length bytes))
        faulted (λ param. complete_task env r param c) (parameter_of bytes c) refl tt
        (complete_task-Settles r (parameter_of bytes c) c t at open_call))

  read_reply-Settles :
      (bytes : Bytes) (c : Connection Msg) (r : Response) (t : CallTask Msg)
      → parse_at env.responses c.header.rpc_len bytes ≡ some r
      → elem r.id c.outgoing_tasks ≡ true
      → find_task r.id c.tasks ≡ some t
      → t.called ≡ false
      → Settles t r (parameter_of bytes c) (read_reply env bytes c)
  unfolding read_reply
  read_reply-Settles bytes c r t e found at open_call =
      parse_sized-at (Settles t r (parameter_of bytes c)) env.responses c.header.rpc_len bytes
        (leb c.header.rpc_len (length bytes)) faulted (take_reply env bytes c) (some r) e tt
        (take_reply-Settles bytes c r t found at open_call)

  -- A reply whose metadata parses and carries the id of an outgoing call that is not over ends this call, if the
  -- handler returns: done was run once more and the call is marked as called, it has left the map, and the
  -- message of the reply is its response if it parses.
  pub read_reply-Ends :
      (bytes : Bytes) (c d : Connection Msg) (r : Response) (t : CallTask Msg)
      → parse_at env.responses c.header.rpc_len bytes ≡ some r
      → elem r.id c.outgoing_tasks ≡ true
      → find_task r.id c.tasks ≡ some t
      → t.called ≡ false
      → read_reply env bytes c ≡ returned d
      → (u : CallTask Msg) × (find_task r.id d.tasks ≡ some u)
        × Settled t (parameter_of bytes c) u
        × (elem r.id d.outgoing_tasks ≡ false)
  read_reply-Ends bytes c d r t e found at open_call ends =
      subst (Settles t r (parameter_of bytes c)) ends
        (read_reply-Settles bytes c r t e found at open_call)
