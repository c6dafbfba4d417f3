-- ===== src/Client/Async/Alert.antt =====
-- No call of the user and no handler leaves an outgoing call without a reader.
use carrot_rpc.Message.{parse_sized-holds}
use carrot_rpc.Prelude.{
  some, none, drop, Option, ℕ, suc, ◌%◌, ◌^◌, ◌≡◌, ◌⊎◌, inl, inr, refl, ◌∙◌, Bool, true, false, [],
  ◌∷◌, Bytes, text, ◌+◌, ◌==◌, leb, length, if◌then◌else◌, Bool-cases, Option-cases,
}
use carrot_rpc.Packet.{Packet, sizeof_packet, header_at, convert_to_host_order}
use carrot_rpc.Buffer.{Expanded, ready, failed, looping, expand_packet}
use carrot_rpc.Protob.Response.{Response}
use carrot_rpc.Controller.{Controller}
use carrot_rpc.Client.Async.{
  CallTask, Pending, resolving, connecting, writing, timing, reading_header, reading_payload,
  Connection, Environment, destroy, find_task, elem, erase, on_task, finish_task,
}
use carrot_rpc.Client.Async.Calls.{
  Error, no_error, eof, error, returned, threw, faulted, hangs, start_call, start_read, with_timer,
}
use carrot_rpc.Client.Async.Handlers.{
  issue, handle_resolve, handle_connect, handle_write, handle_timeout, start_payload,
  handle_read_header, handle_read_payload, take_reply, read_reply, complete_task, time_out,
  new_task, settle,
}
use carrot_rpc.Client.Async.Once.{After}
use carrot_rpc.Client.Async.Reading.{
  is_reader, has_reader, IsRead, and_then-Last, destroy-IsRead, start_read-IsRead, start_call-Goes,
  Goes-After, Goes-Throws, with_timer-reader,
}
use carrot_rpc.Client.Async.Handled.{and_then-After}
use carrot_rpc.Client.Async.Step.{call_back}

module _ {Msg : Type 0} (env : Environment Msg) where
  pub issue-IsRead :
      (method : Bytes) (controller : Controller) (request : Msg) (c : Connection Msg)
      → IsRead c
      → After IsRead (issue env method controller request c)
  unfolding issue
  issue-IsRead method controller request c r = go c.opened r
    where
      k : ℕ
      k = suc c.id % 2 ^ 64

      task : CallTask Msg
      task = new_task env k method controller request

      added : Connection Msg
      added = record c { id = k; tasks = task ∷ c.tasks }

      waits : Connection Msg
      waits = record added {
        is_connecting = true;
        pending = resolving k ∷ with_timer k task c.pending;
      }

      go :
          (opened : Bool)
          → (opened ≡ false) × (c.outgoing_tasks ≡ []) ⊎ (has_reader c.pending ≡ true)
          → After IsRead (if opened then start_call env task added else returned waits)
      go true (inl (o, _)) = cc
      go true (inr h) =
          Goes-After env added (start_call env task added) h (start_call-Goes env task added)
      go false _ = elim r [
        | inl e ↦ inl e
        | inr h ↦ inr (with_timer-reader env k task c.pending ∙ h)
      ]

  -- A handler that is no reader, on the connection without it.
  handle_resolve-IsRead :
      (k : ℕ) (e : Error) (c : Connection Msg) → After IsRead (handle_resolve env k e c)
  unfolding handle_resolve
  handle_resolve-IsRead k no_error c = inr refl
  handle_resolve-IsRead k eof c = destroy-IsRead env _ _
  handle_resolve-IsRead k (error what) c = destroy-IsRead env _ _

  handle_connect-IsRead :
      (k : ℕ) (e : Error) (c : Connection Msg) → After IsRead (handle_connect env k e c)
  unfolding handle_connect
  handle_connect-IsRead k eof c = destroy-IsRead env _ _
  handle_connect-IsRead k (error what) c = destroy-IsRead env _ _
  handle_connect-IsRead k no_error c = elim (Option-cases (find_task k c.tasks)) [
    | inl e ↦ rw (e, handle_connect) tt
    | inr (t, e) ↦
        let connected : Connection Msg = record c { is_connecting = false } in
        rw (e, handle_connect)
          (and_then-Last IsRead (start_call env t connected) (start_read env)
            (Goes-Throws env IsRead connected (start_call env t connected)
              (start_call-Goes env t connected))
            (start_read-IsRead env))
  ]

  handle_write-IsRead :
      (k : ℕ) (e : Error) (c : Connection Msg) → IsRead c → After IsRead (handle_write env k e c)
  unfolding handle_write
  handle_write-IsRead k no_error c r = r
  handle_write-IsRead k eof c r = destroy-IsRead env _ _
  handle_write-IsRead k (error what) c r = destroy-IsRead env _ _

  handle_timeout-IsRead :
      (k : ℕ) (e : Error) (c : Connection Msg) → IsRead c → After IsRead (handle_timeout env k e c)
  unfolding handle_timeout
  handle_timeout-IsRead k eof c r = r
  handle_timeout-IsRead k (error what) c r = r
  handle_timeout-IsRead k no_error c r = go c.is_connecting
    where
      timed_out : Connection Msg
      timed_out = on_task k (time_out env) (record c { outgoing_tasks = erase k c.outgoing_tasks })

      go :
          (is_connecting : Bool)
          → IsRead (
              if is_connecting
              then destroy env (text "Connection timed out") timed_out
              else timed_out)
      go true = destroy-IsRead env _ timed_out
      go false = elim r [ inl (o, e) ↦ inl (o, rw e) | inr h ↦ inr h ]

  handle_read_header-IsRead :
      (e : Error) (bytes : Bytes) (c : Connection Msg)
      → After IsRead (handle_read_header env e bytes c)
  unfolding handle_read_header start_payload
  handle_read_header-IsRead eof bytes c = destroy-IsRead env _ c
  handle_read_header-IsRead (error what) bytes c = destroy-IsRead env _ c
  handle_read_header-IsRead no_error bytes c = elim (Option-cases (header_at bytes)) [
    | inl e ↦ rw (e, handle_read_header) tt
    | inr ((image, rest), e) ↦
        rw (e, handle_read_header)
          (go (convert_to_host_order image) _ (expand_packet env.grants 32 c.buffer _))
  ]
    where
      go :
          (p : Packet) (n : ℕ) (x : Expanded)
          → After IsRead (elim x [
            | looping ↦ hangs
            | failed b ↦
                threw
                  (destroy env
                    (text "Cannot allocate memory")
                    (record c { buffer = b; header = p; n = n }))
                  (text "std::bad_alloc")
            | ready b ↦
                if leb (n + sizeof_packet) b.size
                then returned (record c {
                  buffer = b;
                  header = p;
                  n = n;
                  pending = reading_payload ∷ c.pending;
                })
                else faulted
          ])
      go p n looping = tt
      go p n (failed b) = destroy-IsRead env _ (record c { buffer = b; header = p; n = n })
      go p n (ready b) = elim (Bool-cases (leb (n + sizeof_packet) b.size)) [
        | inl y ↦ rw y (inr refl)
        | inr z ↦ rw z tt
      ]

  complete_task-IsRead :
      (r : Response) (param : Option Msg) (c : Connection Msg)
      → After IsRead (complete_task env r param c)
  unfolding complete_task finish_task
  complete_task-IsRead r param c =
      and_then-After env IsRead (start_read env answered) _ (start_read-IsRead env answered)
        finished
    where
      answered : Connection Msg
      answered = on_task r.id (settle env r param) c

      finished :
          (d : Connection Msg)
          → IsRead d
          → IsRead
              (finish_task env r.id (record d { outgoing_tasks = erase r.id d.outgoing_tasks }))
      finished d (inl (o, e)) = inl (o, rw e)
      finished d (inr h) = inr h

  take_reply-IsRead :
      (bytes : Bytes) (c : Connection Msg) (o : Option Response)
      → After IsRead (take_reply env bytes c o)
  take_reply-IsRead bytes c none = destroy-IsRead env _ c
  take_reply-IsRead bytes c (some r) = elim (Bool-cases (elem r.id c.outgoing_tasks)) [
    | inr z ↦ rw z (start_read-IsRead env c)
    | inl found ↦ rw found (
        parse_sized-holds (After IsRead) env.messages.parse_from_array env.messages.parse_negative
          c.header.resp_len (drop c.header.rpc_len bytes)
          (leb (c.header.rpc_len + c.header.resp_len) (length bytes)) faulted
          (λ param. complete_task env r param c) tt (λ param. complete_task-IsRead r param c))
  ]

  read_reply-IsRead : (bytes : Bytes) (c : Connection Msg) → After IsRead (read_reply env bytes c)
  unfolding read_reply
  read_reply-IsRead bytes c =
      parse_sized-holds (After IsRead) env.responses.parse_from_array env.responses.parse_negative
        c.header.rpc_len bytes (leb c.header.rpc_len (length bytes)) faulted
        (take_reply env bytes c) tt (take_reply-IsRead bytes c)

  handle_read_payload-IsRead :
      (e : Error) (bytes : Bytes) (c : Connection Msg)
      → After IsRead (handle_read_payload env e bytes c)
  unfolding handle_read_payload
  handle_read_payload-IsRead no_error bytes c = read_reply-IsRead bytes c
  handle_read_payload-IsRead (error what) bytes c = destroy-IsRead env _ c
  handle_read_payload-IsRead eof bytes c = elim (Bool-cases (c.n == length bytes)) [
    | inl y ↦ rw y (read_reply-IsRead bytes c)
    | inr z ↦ rw z (destroy-IsRead env _ c)
  ]

  -- `r` is what is known of the connection without the handler, if the handler is no reader.
  pub call_back-IsRead :
      (h : Pending) (e : Error) (bytes : Bytes) (c : Connection Msg)
      → ((is_reader h ≡ false) → IsRead c)
      → After IsRead (call_back env h e bytes c)
  call_back-IsRead (resolving k) e bytes c r = handle_resolve-IsRead k e c
  call_back-IsRead (connecting k) e bytes c r = handle_connect-IsRead k e c
  call_back-IsRead (writing k) e bytes c r = handle_write-IsRead k e c (r refl)
  call_back-IsRead (timing k) e bytes c r = handle_timeout-IsRead k e c (r refl)
  call_back-IsRead reading_header e bytes c r = handle_read_header-IsRead e bytes c
  call_back-IsRead reading_payload e bytes c r = handle_read_payload-IsRead e bytes c
