-- ===== src/Client/Async/Examples.antt =====
-- A connection on which one call is made and answered, and whose server then closes it.
use carrot_rpc.Message.{parse_at}
use carrot_rpc.Prelude.{◌≡◌, refl, true, none, [], ◌∷◌, Bytes, text, false, arith, some}
use carrot_rpc.Buffer.{expand_packet, grow}
use carrot_rpc.Packet.{header_at, convert_to_host_order, ntohl, htonl, load_u32}
use carrot_rpc.Protob.Request
use carrot_rpc.Protob.Response
use carrot_rpc.Protob.Response.{Response, new_response, set_id, set_status}
use carrot_rpc.Protob.Status
use carrot_rpc.Client.Async.{
  elem, find_task, done, CallTask, resolving, connecting, writing, reading_header, reading_payload,
  Connection, Environment, new_connection, run_done, fail_task, finish_task, destroy,
}
use carrot_rpc.Client.Async.Ending.{Settled, read_reply-Ends}
use carrot_rpc.Client.Async.Matching.{read_reply-Matches}
use carrot_rpc.Client.Async.Handlers.{
  new_task, issue, handle_resolve, handle_connect, handle_write, start_payload, handle_read_header,
  handle_read_payload, read_reply, complete_task,
}
use carrot_rpc.Protob.Status.{status_is_valid, of_int}
use carrot_rpc.Protob.Codec.{request_codec, response_codec}
use carrot_rpc.Protob.Sample.{sample_wire, sample_lite}
use carrot_rpc.Server.Sample.{bytes_codec}
use carrot_rpc.Controller.{Controller, new_controller_for}
use carrot_rpc.Client.Async.Calls.{
  no_error, eof, Result, returned, threw, faulted, hangs, write_packet, start_call, start_read,
}
use carrot_rpc.Client.Async.Once.{Every, nobody, AreKept}
use carrot_rpc.Client.Async.Reading.{IsRead}
use carrot_rpc.Client.Async.Step.{Reach, fresh, next, issues, calls_back}
use carrot_rpc.Client.Async.Sound.{Reach-AreKept, Reach-IsRead, Reach-Done}

abbrev sample_env : Environment Bytes
sample_env = record {
  requests = request_codec sample_wire sample_lite;
  responses = response_codec sample_wire sample_lite;
  messages = bytes_codec;
  grants = λ _. true;
  run = λ _. none;
}

abbrev left_by : Result Bytes → Connection Bytes
left_by (returned c) = c
left_by (threw c what) = c
left_by faulted = new_connection
left_by hangs = new_connection

abbrev controller : Controller
controller = new_controller_for 0 [] [] 0

abbrev issued : Connection Bytes
issued = left_by (issue sample_env (text "Echo.echo") controller (7 ∷ []) new_connection)

abbrev resolved : Connection Bytes
resolved = left_by (handle_resolve sample_env 1 no_error (record issued { pending = [] }))

abbrev connected : Connection Bytes
connected = left_by (handle_connect sample_env 1 no_error (record resolved { pending = [] }))

abbrev written : Connection Bytes
written =
    left_by
      (handle_write sample_env 1 no_error (record connected { pending = reading_header ∷ [] }))

abbrev header_read : Connection Bytes
header_read = left_by (
    handle_read_header sample_env no_error (0 ∷ 0 ∷ 0 ∷ 4 ∷ 0 ∷ 0 ∷ 0 ∷ 0 ∷ 0 ∷ 0 ∷ 0 ∷ 1 ∷ [])
      (record written { pending = [] }))

abbrev answered : Connection Bytes
answered = left_by (
    handle_read_payload sample_env no_error (8 ∷ 1 ∷ 16 ∷ 1 ∷ 9 ∷ [])
      (record header_read { pending = [] }))

abbrev closed : Connection Bytes
closed = left_by (handle_read_header sample_env eof [] (record answered { pending = [] }))

run_written : Reach sample_env written
unfolding issue new_controller_for handle_resolve handle_connect start_call write_packet start_read
    expand_packet grow Request.serialize Request.byte_size handle_write finish_task fail_task
    run_done text
run_written =
    next {c = connected}
      (next {c = resolved}
        (next {c = issued} (next fresh (issues (text "Echo.echo") controller (7 ∷ []) refl))
          (calls_back [] [] (resolving 1) no_error [] refl refl))
        (calls_back [] [] (connecting 1) no_error [] refl refl))
      (calls_back (reading_header ∷ []) [] (writing 1) no_error [] refl refl)

run_closed : Reach sample_env closed
unfolding issue new_controller_for handle_resolve handle_connect start_call write_packet start_read
    expand_packet grow Request.serialize Request.byte_size handle_write finish_task fail_task
    run_done text start_payload handle_read_header handle_read_payload read_reply complete_task
    header_at convert_to_host_order ntohl htonl load_u32 Response.merge_partial
    Response.is_initialized destroy status_is_valid
run_closed =
    next {c = answered}
      (next {c = header_read}
        (next {c = written} run_written (
          calls_back [] [] reading_header no_error
            (0 ∷ 0 ∷ 0 ∷ 4 ∷ 0 ∷ 0 ∷ 0 ∷ 0 ∷ 0 ∷ 0 ∷ 0 ∷ 1 ∷ []) refl refl))
        (calls_back [] [] reading_payload no_error (8 ∷ 1 ∷ 16 ∷ 1 ∷ 9 ∷ []) refl refl))
      (calls_back [] [] reading_header eof [] refl refl)

closed_is_idle : closed.pending ≡ []
unfolding issue new_controller_for handle_resolve handle_connect start_call write_packet start_read
    expand_packet grow Request.serialize Request.byte_size handle_write finish_task fail_task
    run_done text start_payload handle_read_header handle_read_payload read_reply complete_task
    header_at convert_to_host_order ntohl htonl load_u32 Response.merge_partial
    Response.is_initialized destroy status_is_valid
closed_is_idle = refl

Reach-AreKept_example : AreKept nobody closed
Reach-AreKept_example = Reach-AreKept sample_env closed run_closed

Reach-IsRead_example : IsRead written
Reach-IsRead_example = Reach-IsRead sample_env written run_written

Reach-Done_example : Every (λ t. (t.called ≡ true) × (t.runs ≡ 1)) closed.tasks
Reach-Done_example = Reach-Done sample_env closed run_closed closed_is_idle

abbrev reply : Bytes
reply = 8 ∷ 1 ∷ 16 ∷ 1 ∷ 9 ∷ []

abbrev reply_meta : Response
reply_meta = set_status (set_id new_response 1) Status.success

abbrev first_call : CallTask Bytes
first_call = new_task sample_env 1 (text "Echo.echo") controller (7 ∷ [])

abbrev second_call : CallTask Bytes
second_call = new_task sample_env 2 (text "Echo.echo") controller (8 ∷ [])

-- Two calls are outgoing, and the header of a reply was read.
abbrev read : Connection Bytes
read = record new_connection {
  tasks = second_call ∷ first_call ∷ [];
  outgoing_tasks = 2 ∷ 1 ∷ [];
  header = record { rpc_len = 4; req_len = 0; resp_len = 1 };
}

abbrev settled : Connection Bytes
settled = record read {
  tasks =
      second_call
      ∷ record first_call { response = some (9 ∷ []); called = true; runs = 1; state = done }
      ∷ [];
  outgoing_tasks = 2 ∷ [];
  pending = reading_header ∷ [];
  buffer = record { block = some 16; size = 16 };
}

parsed : parse_at sample_env.responses read.header.rpc_len reply ≡ some reply_meta
unfolding Response.merge_partial Response.is_initialized status_is_valid of_int
parsed = refl

read_reply_settles : read_reply sample_env reply read ≡ returned settled
unfolding read_reply Response.merge_partial Response.is_initialized status_is_valid of_int
    complete_task start_read expand_packet grow finish_task fail_task run_done new_controller_for
read_reply_settles = refl

read_reply-Matches_example :
    (find_task 2 settled.tasks ≡ find_task 2 read.tasks)
    × (elem 2 settled.outgoing_tasks ≡ elem 2 read.outgoing_tasks)
read_reply-Matches_example =
    read_reply-Matches sample_env 2 reply read settled reply_meta parsed (omega arith)
      read_reply_settles

first_found : find_task 1 read.tasks ≡ some first_call
first_found = refl

read_reply-Ends_example :
    (u : CallTask Bytes) × (find_task 1 settled.tasks ≡ some u)
    × Settled sample_env first_call (some (9 ∷ [])) u
    × (elem 1 settled.outgoing_tasks ≡ false)
read_reply-Ends_example =
    read_reply-Ends sample_env reply read settled reply_meta first_call parsed refl first_found refl
      read_reply_settles
