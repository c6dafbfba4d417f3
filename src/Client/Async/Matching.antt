-- ===== src/Client/Async/Matching.antt =====
-- Which calls a reply leaves alone.
use carrot_rpc.Message.{parse_sized-holds, parse_at, parse_sized-at}
use carrot_rpc.Prelude.{
  drop, Option, ℕ, ◌+◌, ◌≡◌, ◌≢◌, inl, inr, refl, ◌∙◌, subst, false, some, List, [], ◌∷◌, Bytes,
  text, ◌==◌, leb, length, arith, Bool-cases,
}
use carrot_rpc.Packet.{sizeof_packet}
use carrot_rpc.Buffer.{Expanded, ready, failed, looping, expand_packet}
use carrot_rpc.Protob.Response.{Response}
use carrot_rpc.Controller.{Controller}
use carrot_rpc.Client.Async.{
  CallTask, Connection, Environment, reading_header, elem, erase, on_task, at_id, each, find_task,
  run_done, fail_task, finish_task, destroy,
}
use carrot_rpc.Client.Async.Calls.{Result, returned, threw, faulted, hangs, and_then, start_read}
use carrot_rpc.Client.Async.Handlers.{complete_task, take_reply, read_reply, settle}
use carrot_rpc.Client.Async.Once.{elem-erase}
use carrot_rpc.Client.Async.Replies.{settle-Spares}

module _ {Msg : Type 0} (env : Environment Msg) (i : ℕ) where
  -- A member function that returned has left the call i as it was.
  abbrev pub LeavesAlone : Connection Msg → Result Msg → Type 0
  LeavesAlone c (returned d) =
      (find_task i d.tasks ≡ find_task i c.tasks)
      × (elem i d.outgoing_tasks ≡ elem i c.outgoing_tasks)
  LeavesAlone c _ = Unit {0}

  find_task-each :
      (k : ℕ) (f : CallTask Msg → CallTask Msg) (ts : List (CallTask Msg))
      → i ≢ k
      → ((t : CallTask Msg) → (f t).id ≡ t.id)
      → find_task i (each (at_id k f) ts) ≡ find_task i ts
  find_task-each k f [] other same = refl
  find_task-each k f (t ∷ ts) other same = elim (Bool-cases (t.id == k)) [
    | inl y ↦
        let skip : (t.id == i) ≡ false = ground arith in
        rw (y, same t, skip) (find_task-each k f ts other same)
    | inr z ↦ elim (Bool-cases (t.id == i)) [
      | inl y ↦ rw (z, y) refl
      | inr n ↦ rw (z, n) (find_task-each k f ts other same)
    ]
  ]

  pub fail_task-id :
      (g : Controller → Controller) (t : CallTask Msg) → (fail_task env g t).id ≡ t.id
  unfolding fail_task run_done
  fail_task-id g t = ground arith

  elem-erase_other : (k : ℕ) (is : List ℕ) → i ≢ k → elem i (erase k is) ≡ elem i is
  elem-erase_other k is other = ground (arith, elem-erase i k is)

  -- start_read changes no call, if it returns.
  pub start_read-alone : (c : Connection Msg) → LeavesAlone c (start_read env c)
  unfolding start_read
  start_read-alone c = go (expand_packet env.grants 32 c.buffer sizeof_packet)
    where
      go :
          (e : Expanded)
          → LeavesAlone c (elim e [
            | looping ↦ hangs
            | failed b ↦
                threw
                  (destroy env (text "Cannot allocate memory") (record c { buffer = b }))
                  (text "std::bad_alloc")
            | ready b ↦ returned (record c { buffer = b; pending = reading_header ∷ c.pending })
          ])
      go looping = tt
      go (failed b) = tt
      go (ready b) = (refl, refl)

  complete_task-alone :
      (r : Response) (param : Option Msg) (c : Connection Msg)
      → i ≢ r.id
      → LeavesAlone c (complete_task env r param c)
  unfolding complete_task finish_task
  complete_task-alone r param c other =
      go (start_read env (on_task r.id (settle env r param) c))
        (start_read-alone (on_task r.id (settle env r param) c))
    where
      go :
          (x : Result Msg)
          → LeavesAlone (on_task r.id (settle env r param) c) x
          → LeavesAlone c (
              and_then x λ c'. returned (
                finish_task env r.id (record c' { outgoing_tasks = erase r.id c'.outgoing_tasks })))
      go (returned d) (tasks, outgoing) = (
        find_task-each r.id (fail_task env λ controller. controller) d.tasks other
              (fail_task-id λ controller. controller)
            ∙ (tasks
                ∙ find_task-each r.id (settle env r param) c.tasks other
                    (λ t. (settle-Spares env r param t).2)),
        elem-erase_other r.id d.outgoing_tasks other ∙ outgoing,
      )
      go (threw d what) _ = tt
      go faulted _ = tt
      go hangs _ = tt

  take_reply-alone :
      (bytes : Bytes) (c : Connection Msg) (r : Response)
      → i ≢ r.id
      → LeavesAlone c (take_reply env bytes c (some r))
  take_reply-alone bytes c r other = elim (Bool-cases (elem r.id c.outgoing_tasks)) [
    | inr z ↦ rw z (start_read-alone c)
    | inl found ↦ rw found (
        parse_sized-holds (LeavesAlone c) env.messages.parse_from_array env.messages.parse_negative
          c.header.resp_len (drop c.header.rpc_len bytes)
          (leb (c.header.rpc_len + c.header.resp_len) (length bytes)) faulted
          (λ param. complete_task env r param c) tt (λ param. complete_task-alone r param c other))
  ]

  read_reply-alone :
      (bytes : Bytes) (c : Connection Msg) (r : Response)
      → parse_at env.responses c.header.rpc_len bytes ≡ some r
      → i ≢ r.id
      → LeavesAlone c (read_reply env bytes c)
  unfolding read_reply
  read_reply-alone bytes c r e other =
      parse_sized-at (LeavesAlone c) env.responses c.header.rpc_len bytes
        (leb c.header.rpc_len (length bytes)) faulted (take_reply env bytes c) (some r) e tt
        (take_reply-alone bytes c r other)

  -- A reply touches no call but the one whose id it carries: if the metadata that arrived parses to a Response
  -- with another id and the handler returns, then the task of the call, with all its fields, is what it was,
  -- and it is in the map of outgoing calls if it was.
  pub read_reply-Matches :
      (bytes : Bytes) (c d : Connection Msg) (r : Response)
      → parse_at env.responses c.header.rpc_len bytes ≡ some r
      → i ≢ r.id
      → read_reply env bytes c ≡ returned d
      → (find_task i d.tasks ≡ find_task i c.tasks)
        × (elem i d.outgoing_tasks ≡ elem i c.outgoing_tasks)
  read_reply-Matches bytes c d r e other ends =
      subst (LeavesAlone c) ends (read_reply-alone bytes c r e other)
