-- ===== src/Client/Async/Kept.antt =====
-- The member functions of RpcClientConnection lose no call.
use carrot_rpc.Message.{serialize_sized}
use carrot_rpc.Prelude.{
  ℕ, ◌+◌, ◌≡◌, inl, inr, refl, sym, subst, Bool, true, ◌||◌, List, ◌∷◌, ◌++◌, Bytes, text, ◌==◌,
  leb, if◌then◌else◌, arith, Bool-cases, Option-cases,
}
use carrot_rpc.Packet.{u32, sizeof_packet}
use carrot_rpc.Buffer.{Buffer, Expanded, ready, failed, looping, expand_packet}
use carrot_rpc.Frame.{frame}
use carrot_rpc.Controller.{ErrorCode, ec_oom, timeout_never}
use carrot_rpc.Client.Async.{
  CallTask, Pending, reading_header, Connection, Environment, elem, on_task, finish_task, destroy,
  write_to_server,
}
use carrot_rpc.Client.Async.Calls.{
  returned, threw, faulted, hangs, with_timer, set_buffer, set_error, set_state, start_call,
  start_read, write_packet, request_of, rpc_len_of, req_len_of, launch,
}
use carrot_rpc.Client.Async.Once.{
  awaits, Every, nobody, AreKept, After, elem-insert, on_task-AreKept, Spares, each-AreKept,
  IsHeld-more, Every-weakens, destroy-AreKept,
}

module _ {Msg : Type 0} (env : Environment Msg) where
  -- A change of the lists only.
  pub lists-AreKept :
      (ex ex' : ℕ → Bool) (c d : Connection Msg)
      → d.tasks ≡ c.tasks
      → ((i : ℕ)
          → (ex i || (elem i c.outgoing_tasks || awaits i c.pending)) ≡ true
          → (ex' i || (elem i d.outgoing_tasks || awaits i d.pending)) ≡ true)
      → AreKept ex c
      → AreKept ex' d
  lists-AreKept ex ex' c d e more kept = subst (Every _) (sym e) (
      Every-weakens _ _
        (λ t (o, held). (
          o,
          IsHeld-more ex ex' c.outgoing_tasks d.outgoing_tasks c.pending d.pending t (more t.id)
              held,
        ))
        c.tasks kept)

  -- A change of a task that leaves open whether it is over.
  pub task-AreKept :
      (ex : ℕ → Bool) (k : ℕ) (f : CallTask Msg → CallTask Msg) (c : Connection Msg)
      → Spares env f
      → AreKept ex c
      → AreKept ex (on_task k f c)
  task-AreKept ex k f c spares = each-AreKept env ex ex k f c (on_task k f c) spares refl (λ i h. h)

  pub awaits-with_timer :
      (i k : ℕ) (t : CallTask Msg) (hs : List Pending) → awaits i (with_timer k t hs) ≡ awaits i hs
  awaits-with_timer i k t hs = elim (Bool-cases (t.controller.timeout == timeout_never)) [
    | inl y ↦ rw y
    | inr z ↦ rw z
  ]

  pub start_read-AreKept :
      (ex : ℕ → Bool) (c : Connection Msg) → AreKept ex c → After (AreKept ex) (start_read env c)
  unfolding start_read
  start_read-AreKept ex c kept = go (expand_packet env.grants 32 c.buffer sizeof_packet)
    where
      go :
          (e : Expanded)
          → After (AreKept ex) (elim e [
            | looping ↦ hangs
            | failed b ↦
                threw
                  (destroy env (text "Cannot allocate memory") (record c { buffer = b }))
                  (text "std::bad_alloc")
            | ready b ↦ returned (record c { buffer = b; pending = reading_header ∷ c.pending })
          ])
      go looping = tt
      go (failed b) = destroy-AreKept env ex _ (record c { buffer = b }) kept
      go (ready b) = kept

  -- `exempt k` claims nothing of the task k, which the function is busy with.
  abbrev pub exempt : ℕ → ℕ → Bool
  exempt k i = k == i

  pub finish_task-AreKept :
      (k : ℕ) (c : Connection Msg) → AreKept (exempt k) c → AreKept nobody (finish_task env k c)
  unfolding finish_task
  finish_task-AreKept k c kept =
      on_task-AreKept env nobody k (λ t controller. controller) c c.outgoing_tasks (λ i. refl)
        (lists-AreKept (exempt k) (λ i. k == i || nobody i) c c refl (λ i h. ground (arith, h))
          kept)

  gives_up-AreKept :
      (t : CallTask Msg) (reason : Bytes) (ec : ErrorCode) (c : Connection Msg)
      → AreKept (exempt t.id) c
      → AreKept nobody (finish_task env t.id (on_task t.id (set_error reason ec) c))
  gives_up-AreKept t reason ec c kept =
      finish_task-AreKept t.id (on_task t.id (set_error reason ec) c)
        (task-AreKept (exempt t.id) t.id (set_error reason ec) c (λ t. (refl, refl, refl)) kept)

  write_packet-AreKept :
      (t : CallTask Msg) (c : Connection Msg)
      → AreKept (exempt t.id) c
      → After (AreKept nobody) (write_packet env t c)
  unfolding write_packet
  write_packet-AreKept t c kept =
      elim (Option-cases (
        serialize_sized env.requests (request_of env t)
          (u32 (rpc_len_of env t + req_len_of env t)))) [
            | inl e ↦ rw (e, write_packet) (gives_up-AreKept t _ _ c kept)
            | inr (meta, e) ↦
                elim (Option-cases (serialize_sized env.messages t.request (req_len_of env t))) [
                  | inl e' ↦ rw (e, e', write_packet) (gives_up-AreKept t _ _ c kept)
                  | inr (param, e') ↦
                      rw (e, e', write_packet)
                        (each-AreKept env (exempt t.id) nobody t.id (set_state write_to_server) c
                          (launch env t
                            (frame
                              (record {
                                rpc_len = rpc_len_of env t;
                                req_len = req_len_of env t;
                                resp_len = 0;
                              })
                              (meta ++ param))
                            c)
                          (λ t. (refl, refl, refl)) refl
                          (λ i h.
                            rw
                              (
                                elem-insert i t.id c.outgoing_tasks,
                                awaits-with_timer i t.id t c.pending,
                              )
                              (ground (arith, h)))
                          kept)
                ]
          ]

  pub start_call-AreKept :
      (t : CallTask Msg) (c : Connection Msg)
      → AreKept (exempt t.id) c
      → After (AreKept nobody) (start_call env t c)
  unfolding start_call
  start_call-AreKept t c kept = go (
      expand_packet env.grants 32 t.buffer
        (u32 (sizeof_packet + rpc_len_of env t + req_len_of env t)))
    where
      buffered : (b : Buffer) → AreKept (exempt t.id) (on_task t.id (set_buffer b) c)
      buffered b = task-AreKept (exempt t.id) t.id (set_buffer b) c (λ t. (refl, refl, refl)) kept

      go :
          (e : Expanded)
          → After (AreKept nobody) (elim e [
            | looping ↦ hangs
            | failed b ↦ returned (
                finish_task env t.id (
                  on_task t.id
                    (set_error (text "failed to allocate memory for rpc packet") ec_oom)
                    (on_task t.id (set_buffer b) c)))
            | ready b ↦
                if leb (sizeof_packet + rpc_len_of env t + req_len_of env t) b.size
                then write_packet env t (on_task t.id (set_buffer b) c)
                else faulted
          ])
      go looping = tt
      go (failed b) = gives_up-AreKept t _ _ (on_task t.id (set_buffer b) c) (buffered b)
      go (ready b) =
          elim (Bool-cases (leb (sizeof_packet + rpc_len_of env t + req_len_of env t) b.size)) [
            | inl y ↦ rw y (write_packet-AreKept t (on_task t.id (set_buffer b) c) (buffered b))
            | inr z ↦ rw z tt
          ]
