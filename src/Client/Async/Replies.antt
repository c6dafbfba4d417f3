-- ===== src/Client/Async/Replies.antt =====
-- The handlers of RpcClientConnection for a timeout and for what the server sends lose no call.
use carrot_rpc.Message.{parse_sized-holds}
use carrot_rpc.Prelude.{
  drop, ℕ, ◌+◌, ◌≡◌, inl, inr, refl, ◌∙◌, Bool, true, false, ◌||◌, Option, none, some, ◌∷◌, ◌++◌,
  Bytes, text, ◌==◌, leb, length, if◌then◌else◌, arith, Bool-cases, Option-cases,
}
use carrot_rpc.Packet.{Packet, sizeof_packet, header_at, convert_to_host_order}
use carrot_rpc.Buffer.{Expanded, ready, failed, looping, expand_packet}
use carrot_rpc.Protob.Status.{Status}
use carrot_rpc.Protob.Response.{Response}
use carrot_rpc.Controller.{ec_rpc_timeout, set_failed_with}
use carrot_rpc.Client.Async.{
  done, reading_payload, Connection, Environment, elem, erase, on_task, destroy,
}
use carrot_rpc.Client.Async.Calls.{
  Error, no_error, eof, error, returned, threw, faulted, hangs, set_state, start_read,
}
use carrot_rpc.Client.Async.Handlers.{
  state_str, time_out, handle_timeout, start_payload, handle_read_header, handle_read_payload,
  complete_task, take_reply, read_reply, take_status, take_response, settle,
}
use carrot_rpc.Client.Async.Once.{
  nobody, AreKept, After, elem-erase, on_task-AreKept, Spares, destroy-AreKept,
}
use carrot_rpc.Client.Async.Kept.{
  exempt, lists-AreKept, task-AreKept, start_read-AreKept, finish_task-AreKept,
}
use carrot_rpc.Client.Async.Handled.{and_then-After}

module _ {Msg : Type 0} (env : Environment Msg) where
  -- A task that leaves the map is not claimed to be held.
  erased :
      (k : ℕ) (c : Connection Msg)
      → AreKept nobody c
      → AreKept (exempt env k) (record c { outgoing_tasks = erase k c.outgoing_tasks })
  erased k c =
      lists-AreKept env nobody (exempt env k) c
        (record c { outgoing_tasks = erase k c.outgoing_tasks }) refl
        (λ i h. ground (arith, h, elem-erase i k c.outgoing_tasks))

  pub handle_timeout-AreKept :
      (k : ℕ) (e : Error) (c : Connection Msg)
      → AreKept nobody c
      → After (AreKept nobody) (handle_timeout env k e c)
  unfolding handle_timeout
  handle_timeout-AreKept k eof c kept = kept
  handle_timeout-AreKept k (error what) c kept = kept
  handle_timeout-AreKept k no_error c kept = go c.is_connecting
    where
      timed_out : Connection Msg
      timed_out = on_task k (time_out env) (record c { outgoing_tasks = erase k c.outgoing_tasks })

      over : AreKept nobody timed_out
      over =
          on_task-AreKept env nobody k
            (λ t controller.
              set_failed_with controller (text "rpc timed out at state " ++ state_str t.state)
                ec_rpc_timeout)
            c (erase k c.outgoing_tasks) (λ i. elem-erase i k c.outgoing_tasks)
            (lists-AreKept env nobody (λ i. k == i || nobody i) c c refl (λ i h. ground (arith, h))
              kept)

      go :
          (is_connecting : Bool)
          → AreKept nobody (
              if is_connecting
              then destroy env (text "Connection timed out") timed_out
              else timed_out)
      go true = destroy-AreKept env nobody _ timed_out over
      go false = over

  pub handle_read_header-AreKept :
      (e : Error) (bytes : Bytes) (c : Connection Msg)
      → AreKept nobody c
      → After (AreKept nobody) (handle_read_header env e bytes c)
  unfolding handle_read_header start_payload
  handle_read_header-AreKept eof bytes c kept = destroy-AreKept env nobody _ c kept
  handle_read_header-AreKept (error what) bytes c kept = destroy-AreKept env nobody _ c kept
  handle_read_header-AreKept no_error bytes c kept = elim (Option-cases (header_at bytes)) [
    | inl e ↦ rw (e, handle_read_header) tt
    | inr ((image, rest), e) ↦
        rw (e, handle_read_header)
          (go (convert_to_host_order image) _ (expand_packet env.grants 32 c.buffer _))
  ]
    where
      go :
          (p : Packet) (n : ℕ) (x : Expanded)
          → After (AreKept nobody) (elim x [
            | looping ↦ hangs
            | failed b ↦
                threw
                  (destroy env
                    (text "Cannot allocate memory")
                    (record c { buffer = b; header = p; n = n }))
                  (text "std::bad_alloc")
            | ready b ↦
                if leb (n + sizeof_packet) b.size
                then returned (record c {
                  buffer = b;
                  header = p;
                  n = n;
                  pending = reading_payload ∷ c.pending;
                })
                else faulted
          ])
      go p n looping = tt
      go p n (failed b) =
          destroy-AreKept env nobody _ (record c { buffer = b; header = p; n = n }) kept
      go p n (ready b) = elim (Bool-cases (leb (n + sizeof_packet) b.size)) [
        | inl y ↦ rw y kept
        | inr z ↦ rw z tt
      ]

  take_status-Spares : (r : Response) → Spares env (take_status env r)
  take_status-Spares r t = go r.status
    where
      go :
          (s : Status)
          → ((take_status env (record r { status = s }) t).called ≡ t.called)
            × ((take_status env (record r { status = s }) t).runs ≡ t.runs)
            × ((take_status env (record r { status = s }) t).id ≡ t.id)
      go Status.success = (refl, refl, refl)
      go Status.error = (refl, refl, refl)
      go Status.not_found = (refl, refl, refl)
      go Status.failed = (refl, refl, refl)

  take_response-Spares : (m : Option Msg) → Spares env (take_response env m)
  take_response-Spares none t = (refl, refl, refl)
  take_response-Spares (some m) t = (refl, refl, refl)

  pub settle-Spares : (r : Response) (param : Option Msg) → Spares env (settle env r param)
  settle-Spares r param t =
      let (called, runs, same) = take_status-Spares r (set_state done t) in
      let (called', runs', same') =
        take_response-Spares param (take_status env r (set_state done t)) in
      (called' ∙ called, runs' ∙ runs, same' ∙ same)

  complete_task-AreKept :
      (r : Response) (param : Option Msg) (c : Connection Msg)
      → AreKept nobody c
      → After (AreKept nobody) (complete_task env r param c)
  unfolding complete_task
  complete_task-AreKept r param c kept =
      and_then-After env (AreKept nobody) (start_read env (on_task r.id (settle env r param) c)) _
        (start_read-AreKept env nobody (on_task r.id (settle env r param) c)
          (task-AreKept env nobody r.id (settle env r param) c (settle-Spares r param) kept))
        (λ c' kept'.
          finish_task-AreKept env r.id (record c' { outgoing_tasks = erase r.id c'.outgoing_tasks })
            (erased r.id c' kept'))

  take_reply-AreKept :
      (bytes : Bytes) (c : Connection Msg) (o : Option Response)
      → AreKept nobody c
      → After (AreKept nobody) (take_reply env bytes c o)
  take_reply-AreKept bytes c none kept = destroy-AreKept env nobody _ c kept
  take_reply-AreKept bytes c (some r) kept = elim (Bool-cases (elem r.id c.outgoing_tasks)) [
    | inr z ↦ rw z (start_read-AreKept env nobody c kept)
    | inl found ↦ rw found (
        parse_sized-holds (After (AreKept nobody)) env.messages.parse_from_array
          env.messages.parse_negative c.header.resp_len (drop c.header.rpc_len bytes)
          (leb (c.header.rpc_len + c.header.resp_len) (length bytes)) faulted
          (λ param. complete_task env r param c) tt (λ param. complete_task-AreKept r param c kept))
  ]

  read_reply-AreKept :
      (bytes : Bytes) (c : Connection Msg)
      → AreKept nobody c
      → After (AreKept nobody) (read_reply env bytes c)
  unfolding read_reply
  read_reply-AreKept bytes c kept =
      parse_sized-holds (After (AreKept nobody)) env.responses.parse_from_array
        env.responses.parse_negative c.header.rpc_len bytes (leb c.header.rpc_len (length bytes))
        faulted (take_reply env bytes c) tt (λ o. take_reply-AreKept bytes c o kept)

  pub handle_read_payload-AreKept :
      (e : Error) (bytes : Bytes) (c : Connection Msg)
      → AreKept nobody c
      → After (AreKept nobody) (handle_read_payload env e bytes c)
  unfolding handle_read_payload
  handle_read_payload-AreKept no_error bytes c kept = read_reply-AreKept bytes c kept
  handle_read_payload-AreKept (error what) bytes c kept = destroy-AreKept env nobody _ c kept
  handle_read_payload-AreKept eof bytes c kept = elim (Bool-cases (c.n == length bytes)) [
    | inl y ↦ rw y (read_reply-AreKept bytes c kept)
    | inr z ↦ rw z (destroy-AreKept env nobody _ c kept)
  ]
