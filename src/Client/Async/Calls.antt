-- ===== src/Client/Async/Calls.antt =====
-- The member functions of RpcClientConnection that put a call on the wire and that start a read.
use carrot_rpc.Prelude.{ℕ, ◌+◌, none, some, List, ◌∷◌, ◌++◌, Bytes, text, leb, ◌==◌, if◌then◌else◌}
pub use carrot_rpc.Asio.{Error, no_error, eof, error, message}
use carrot_rpc.Packet.{Packet, sizeof_packet, u32}
use carrot_rpc.Buffer.{Buffer, ready, failed, looping, expand_packet}
use carrot_rpc.Frame.{frame}
use carrot_rpc.Message.{serialize_sized}
use carrot_rpc.Protob.Request.{Request, new_request, set_id, set_method_identity}
use carrot_rpc.Controller.{
  ErrorCode, set_failed_with, timeout_never, ec_oom, ec_serialization_error,
}
use carrot_rpc.Client.Async.{
  TaskState, write_to_server, CallTask, Pending, writing, timing, reading_header, Connection,
  Environment, insert, on_task, finish_task, destroy,
}

-- How a member function ends: it returns, an exception leaves it, memory beyond a block or beyond what
-- was received is used, or the loop of expand_packet does not end.
pub data Result (Msg : Type 0) : Type 0 where
  returned : Connection Msg → Result Msg
  threw : Connection Msg → Bytes → Result Msg
  faulted : Result Msg
  hangs : Result Msg

abbrev pub and_then : {Msg : Type 0} → Result Msg → (Connection Msg → Result Msg) → Result Msg
and_then (returned c) k = k c
and_then (threw c what) k = threw c what
and_then faulted k = faulted
and_then hangs k = hangs

module _ {Msg : Type 0} where
  abbrev pub with_timer : ℕ → CallTask Msg → List Pending → List Pending
  with_timer k t pending =
      if t.controller.timeout == timeout_never then pending else timing k ∷ pending

  abbrev pub set_buffer : Buffer → CallTask Msg → CallTask Msg
  set_buffer b t = record t { buffer = b }

  abbrev pub set_error : Bytes → ErrorCode → CallTask Msg → CallTask Msg
  set_error reason ec t = record t { controller = set_failed_with t.controller reason ec }

  abbrev pub set_state : TaskState → CallTask Msg → CallTask Msg
  set_state s t = record t { state = s }

module _ {Msg : Type 0} (env : Environment Msg) where
  abbrev pub request_of : CallTask Msg → Request
  request_of t = set_method_identity (set_id new_request t.id) t.method

  abbrev pub rpc_len_of : CallTask Msg → ℕ
  rpc_len_of t = u32 (env.requests.byte_size (request_of t))

  abbrev pub req_len_of : CallTask Msg → ℕ
  req_len_of t = u32 (env.messages.byte_size t.request)

  -- The end of start_call, with the packet in the buffer of the task.
  abbrev pub launch : CallTask Msg → Bytes → Connection Msg → Connection Msg
  launch t bytes c = on_task t.id (set_state write_to_server) (record c {
    outgoing_tasks = insert t.id c.outgoing_tasks;
    pending = writing t.id ∷ with_timer t.id t c.pending;
    sent = bytes ∷ c.sent;
  })

  abbrev pub gives_up : CallTask Msg → Bytes → ErrorCode → Connection Msg → Result Msg
  gives_up t reason ec c = returned (finish_task env t.id (on_task t.id (set_error reason ec) c))

  -- The packet is serialized into the block of the task and given to async_write.
  unfoldable pub write_packet : CallTask Msg → Connection Msg → Result Msg
  write_packet t c =
      elim (serialize_sized env.requests (request_of t) (u32 (rpc_len_of t + req_len_of t))) [
        | none ↦
            gives_up t (text "failed to serialize Request metadata into byte array")
              ec_serialization_error c
        | some meta ↦ elim (serialize_sized env.messages t.request (req_len_of t)) [
          | none ↦
              gives_up t (text "failed to serialize request paramerter into byte array")
                ec_serialization_error c
          | some param ↦
              let p : Packet = record {
                rpc_len = rpc_len_of t;
                req_len = req_len_of t;
                resp_len = 0;
              } in
              returned (launch t (frame p (meta ++ param)) c)
        ]
      ]

  -- start_call, for the task that the caller holds.
  unfoldable pub start_call : CallTask Msg → Connection Msg → Result Msg
  start_call t c =
      let n = sizeof_packet + rpc_len_of t + req_len_of t in
      elim (expand_packet env.grants 32 t.buffer (u32 n)) [
        | looping ↦ hangs
        | failed b ↦
            gives_up t (text "failed to allocate memory for rpc packet") ec_oom
              (on_task t.id (set_buffer b) c)
        | ready b ↦ if leb n b.size then write_packet t (on_task t.id (set_buffer b) c) else faulted
      ]

  -- start_read
  unfoldable pub start_read : Connection Msg → Result Msg
  start_read c = elim (expand_packet env.grants 32 c.buffer sizeof_packet) [
    | looping ↦ hangs
    | failed b ↦
        threw (destroy env (text "Cannot allocate memory") (record c { buffer = b }))
          (text "std::bad_alloc")
    | ready b ↦ returned (record c { buffer = b; pending = reading_header ∷ c.pending })
  ]
