-- ===== src/Client/Async/Handlers.antt =====
-- The member functions of RpcClientConnection that a call of the user and asio enter.
use carrot_rpc.Prelude.{
  ℕ, suc, ◌+◌, ◌%◌, ◌^◌, true, false, Option, none, some, ◌∷◌, ◌++◌, Bytes, text, leb, length, drop,
  ◌==◌, if◌then◌else◌,
}
use carrot_rpc.Packet.{Packet, sizeof_packet, u32, header_at, convert_to_host_order}
use carrot_rpc.Buffer.{empty_buffer, ready, failed, looping, expand_packet}
use carrot_rpc.Message.{parse_sized}
use carrot_rpc.Protob.Status
use carrot_rpc.Protob.Response.{Response}
use carrot_rpc.Controller.{
  Controller, ErrorCode, set_failed_with, ec_serialization_error, ec_rpc_timeout, ec_error,
  ec_connection_failed, ec_transport_error, ec_method_not_found, ec_failed,
}
use carrot_rpc.Client.Async.{
  TaskState, connect_to_server, write_to_server, read_data, done, CallTask, resolving, connecting,
  reading_payload, Connection, Environment, elem, erase, on_task, find_task, fail_task, finish_task,
  destroy,
}
use carrot_rpc.Client.Async.Calls.{
  Error, no_error, eof, error, message, Result, returned, threw, faulted, hangs, and_then,
  with_timer, set_error, set_state, start_call, start_read,
}

-- The name of the state in the text of a timeout.
abbrev pub state_str : TaskState → Bytes
state_str connect_to_server = text "STATE_CONNECT_TO_SERVER"
state_str write_to_server = text "STATE_WRITE_TO_SERVER"
state_str read_data = text "STATE_READ_DATA"
state_str done = text "STATE_DONE"

-- The `n` that handle_read_header computes, a uint32_t.
abbrev pub payload_size : Packet → ℕ
payload_size p = u32 (p.rpc_len + p.req_len + p.resp_len)

module _ {Msg : Type 0} (env : Environment Msg) where
  abbrev pub new_task : ℕ → Bytes → Controller → Msg → CallTask Msg
  new_task k method controller request = record {
    id = k;
    method = method;
    controller = controller;
    request = request;
    response = none;
    called = false;
    runs = 0;
    state = connect_to_server;
    buffer = empty_buffer;
  }

  -- issue
  unfoldable pub issue : Bytes → Controller → Msg → Connection Msg → Result Msg
  issue method controller request c =
      let k = suc c.id % 2 ^ 64 in
      let task = new_task k method controller request in
      let c' = record c { id = k; tasks = task ∷ c.tasks } in
      if c.opened
      then start_call env task c'
      else returned
          (record c' { is_connecting = true; pending = resolving k ∷ with_timer k task c.pending })

  -- An error of an operation of a task: the task is over, the connection is destroyed, and the error is
  -- thrown.
  abbrev pub fails : ℕ → Bytes → ErrorCode → Error → Connection Msg → Result Msg
  fails k reason ec e c =
      threw
        (destroy env (message e) (
          on_task k
            (fail_task env λ controller. set_failed_with controller (reason ++ message e) ec) c))
        (message e)

  -- handle_resolve
  unfoldable pub handle_resolve : ℕ → Error → Connection Msg → Result Msg
  handle_resolve k no_error c =
      returned (record c { opened = true; pending = connecting k ∷ c.pending })
  handle_resolve k e c = fails k (text "failed to connect, ") ec_error e c

  -- handle_connect
  unfoldable pub handle_connect : ℕ → Error → Connection Msg → Result Msg
  handle_connect k no_error c = elim (find_task k c.tasks) [
    | none ↦ faulted
    | some t ↦ and_then (start_call env t (record c { is_connecting = false })) (start_read env)
  ]
  handle_connect k e c = fails k (text "failed to connect, ") ec_connection_failed e c

  -- handle_write
  unfoldable pub handle_write : ℕ → Error → Connection Msg → Result Msg
  handle_write k no_error c = returned (on_task k (set_state read_data) c)
  handle_write k e c = fails k (text "failed write rpc packet out, ") ec_transport_error e c

  abbrev pub time_out : CallTask Msg → CallTask Msg
  time_out t =
      fail_task env
        (λ controller.
          set_failed_with controller (text "rpc timed out at state " ++ state_str t.state)
            ec_rpc_timeout)
        t

  -- handle_timeout
  unfoldable pub handle_timeout : ℕ → Error → Connection Msg → Result Msg
  handle_timeout k no_error c =
      let c' = on_task k time_out (record c { outgoing_tasks = erase k c.outgoing_tasks }) in
      returned (if c.is_connecting then destroy env (text "Connection timed out") c' else c')
  handle_timeout k e c = returned c

  -- handle_read_header behind the conversion of the header, with the payload of `n` bytes.
  unfoldable pub start_payload : Packet → ℕ → Connection Msg → Result Msg
  start_payload p n c = elim (expand_packet env.grants 32 c.buffer (u32 (n + sizeof_packet))) [
    | looping ↦ hangs
    | failed b ↦
        threw
          (destroy env (text "Cannot allocate memory") (record c { buffer = b; header = p; n = n }))
          (text "std::bad_alloc")
    | ready b ↦
        if leb (n + sizeof_packet) b.size
        then returned
            (record c { buffer = b; header = p; n = n; pending = reading_payload ∷ c.pending })
        else faulted
  ]

  -- handle_read_header, with the bytes that were read over the packet.
  unfoldable pub handle_read_header : Error → Bytes → Connection Msg → Result Msg
  handle_read_header no_error bytes c = elim (header_at bytes) [
    | none ↦ faulted
    | some (image, _) ↦ let p = convert_to_host_order image in start_payload p (payload_size p) c
  ]
  handle_read_header e bytes c = threw (destroy env (message e) c) (message e)

  -- The switch over the status of a reply.
  abbrev pub take_status : Response → CallTask Msg → CallTask Msg
  take_status r t = elim r.status [
    | Status.not_found ↦
        set_error (text "The remote method called not found on the server side: " ++ r.message)
          ec_method_not_found t
    | Status.error ↦
        set_error (text "Some errors occurred during the rpc: " ++ r.message) ec_error t
    | Status.failed ↦ set_error (text "Failed to call rpc: " ++ r.message) ec_failed t
    | Status.success ↦ t
  ]

  abbrev pub take_response : Option Msg → CallTask Msg → CallTask Msg
  take_response none t =
      set_error (text "failed to read response parameter from server") ec_serialization_error t
  take_response (some m) t = record t { response = some m }

  -- What a reply makes of its task, with the parse of the parameter.
  abbrev pub settle : Response → Option Msg → CallTask Msg → CallTask Msg
  settle r param t = take_response param (take_status r (set_state done t))

  -- A reply to an outgoing task.
  unfoldable pub complete_task : Response → Option Msg → Connection Msg → Result Msg
  complete_task r param c = and_then (start_read env (on_task r.id (settle r param) c)) λ c'.
      returned (finish_task env r.id (record c' { outgoing_tasks = erase r.id c'.outgoing_tasks }))

  -- What the parse of the metadata is followed by.
  abbrev pub take_reply : Bytes → Connection Msg → Option Response → Result Msg
  take_reply bytes c none =
      threw (destroy env (text "Invalid argument") c)
        (text "carrot-rpc: failed to parse rpc request metadata")
  take_reply bytes c (some r) =
      if elem r.id c.outgoing_tasks
      then (parse_sized env.messages.parse_from_array env.messages.parse_negative c.header.resp_len
          (drop c.header.rpc_len bytes) (leb (c.header.rpc_len + c.header.resp_len) (length bytes))
          faulted λ param. complete_task r param c)
      else start_read env c

  unfoldable pub read_reply : Bytes → Connection Msg → Result Msg
  read_reply bytes c =
      parse_sized env.responses.parse_from_array env.responses.parse_negative c.header.rpc_len bytes
        (leb c.header.rpc_len (length bytes)) faulted (take_reply bytes c)

  -- handle_read_payload, with the bytes that were read behind the header.
  unfoldable pub handle_read_payload : Error → Bytes → Connection Msg → Result Msg
  handle_read_payload no_error bytes c = read_reply bytes c
  handle_read_payload eof bytes c =
      if c.n == length bytes
      then read_reply bytes c
      else threw (destroy env (message eof) c) (message eof)
  handle_read_payload (error what) bytes c = threw (destroy env what c) what
