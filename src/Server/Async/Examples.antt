-- ===== src/Server/Async/Examples.antt =====
-- A connection of the sample server that serves calls of the method echo, and a run of that server.
use carrot_rpc.Prelude.{
  ◌≡◌, refl, inl, inr, true, some, List, [], ◌∷◌, ◌++◌, Bytes, text, arith, bytes_eq, subst, sym,
  Every,
}
use carrot_rpc.Asio.{no_error, eof}
use carrot_rpc.Packet.{Packet}
use carrot_rpc.Buffer.{expand_packet, grow}
use carrot_rpc.Protob.Status
use carrot_rpc.Protob.Response
use carrot_rpc.Protob.Response.{new_response, set_status, set_id}
use carrot_rpc.Protob.Request.{serialize, merge_partial, is_initialized}
use carrot_rpc.Controller.{new_controller, new_controller_for}
use carrot_rpc.Server.Registry.{resolve, find, find_first_of, method_identity_of}
use carrot_rpc.Server.Sample.{
  sample_env, bytes_codec-IsCodec, sample_responses, echo_services, echo_request, request_bytes,
}
use carrot_rpc.Server.Async.{
  accepting, reading_header, Connection, AsyncServer, Ended, finished, raised, crashed, spins,
  new_connection, serve, destroy,
}
use carrot_rpc.Server.Async.Handlers.{
  handle_read_payload, handle_read_header, handle_accept, start_accept, new_async_server,
  destroy_server,
}
use carrot_rpc.Server.Async.Given.{Answer, reply, answer, CanSend, gives}
use carrot_rpc.Server.Async.Answer.{IsRead, handle_read_payload-Answers}
use carrot_rpc.Server.Async.Session.{
  Exchange, Waits, AllServed, IsServed, converse, with_replies, converse-Replies,
}
use carrot_rpc.Server.Async.Step.{call_back, Reach, fresh, next, calls_back, ends}
use carrot_rpc.Server.Async.Phase.{Phase}
use carrot_rpc.Server.Async.Called.{Accepts}
use carrot_rpc.Server.Async.Sound.{Reach-Phase, Reach-Accepts}

abbrev meta : Bytes
meta = request_bytes (echo_request (text "echo"))

abbrev header : Packet
header = record { rpc_len = 13; req_len = 1; resp_len = 0 }

-- The connection after the header was read.
abbrev read : Connection
read = record new_connection {
  opened = true;
  buffer = record { block = some 32; size = 32 };
  header = header;
  n = 26;
}

abbrev echoed : Answer Bytes
echoed = reply (set_id (set_status new_response Status.success) 5) (7 ∷ [])

echo_answers :
    answer sample_env echo_services (sample_env.requests.parse_from_array meta) (7 ∷ []) ≡ echoed
unfolding text serialize method_identity_of merge_partial is_initialized resolve find find_first_of
    bytes_eq new_controller new_controller_for
echo_answers = refl

echoed-CanSend : CanSend sample_env sample_responses bytes_codec-IsCodec echoed
echoed-CanSend = (
  record {
    tidy = record { id_default = inl refl; status_default = inl refl; message_default = inr refl };
    id_is_u64 = omega arith;
    short = omega arith;
    known = refl;
  },
  omega arith,
)

is_read : IsRead sample_env sample_responses bytes_codec-IsCodec read meta (7 ∷ []) []
unfolding text serialize method_identity_of
is_read = record {
  served = refl;
  held = (refl, omega arith);
  rpc = refl;
  req = refl;
  rpc_is_int = omega arith;
  req_is_int = omega arith;
}

handle_read_payload-Answers_example :
    handle_read_payload sample_env echo_services no_error (meta ++ ((7 ∷ []) ++ [])) read
    ≡ gives sample_env sample_responses bytes_codec-IsCodec read
        (answer sample_env echo_services (sample_env.requests.parse_from_array meta) (7 ∷ []))
handle_read_payload-Answers_example =
    handle_read_payload-Answers sample_env sample_responses bytes_codec-IsCodec echo_services read
      meta (7 ∷ []) [] is_read
      (subst (CanSend sample_env sample_responses bytes_codec-IsCodec) (sym echo_answers)
        echoed-CanSend)

abbrev waiting : Connection
waiting = record new_connection {
  opened = true;
  buffer = record { block = some 16; size = 16 };
  pending = reading_header ∷ [];
}

abbrev echo_call : Exchange
echo_call = record { packet = header; meta = meta; param = 7 ∷ []; extra = [] }

echo_call-IsServed :
    IsServed sample_env sample_responses bytes_codec-IsCodec (λ _. refl) echo_services echo_call
unfolding text serialize method_identity_of Response.byte_size
echo_call-IsServed = record {
  rpc = refl;
  req = refl;
  resp = refl;
  small = omega arith;
  response = set_id (set_status new_response Status.success) 5;
  message = 7 ∷ [];
  answers = echo_answers;
  sendable = echoed-CanSend;
  no_larger = omega arith;
}

abbrev calls : List Exchange
calls = echo_call ∷ echo_call ∷ []

calls-AllServed :
    AllServed sample_env sample_responses bytes_codec-IsCodec (λ _. refl) echo_services calls
calls-AllServed = (echo_call-IsServed, (echo_call-IsServed, tt))

converse-Replies_example :
    (d : Connection) × (converse sample_env echo_services calls waiting ≡ finished d)
    × Waits d
    × (d.sent
        ≡ with_replies sample_env sample_responses bytes_codec-IsCodec
            (λ _. refl)
            echo_services
            calls
            calls-AllServed
            [])
converse-Replies_example =
    converse-Replies sample_env sample_responses bytes_codec-IsCodec (λ _. refl) echo_services calls
      calls-AllServed waiting
      (record { served = refl; opened = refl; waiting = refl; held = (refl, omega arith) })

-- A client connects, closes the connection, and the server is destroyed.
abbrev left_by : Ended (AsyncServer Bytes) → AsyncServer Bytes
left_by (finished s) = s
left_by (raised s what) = s
left_by crashed = new_async_server
left_by spins = new_async_server

abbrev accepted : AsyncServer Bytes
accepted =
    left_by (call_back sample_env accepting no_error [] [] new_connection [] new_async_server)

abbrev hung_up : AsyncServer Bytes
hung_up = left_by (
    call_back sample_env reading_header eof []
      (record new_connection { pending = accepting ∷ [] } ∷ [])
      (record new_connection { opened = true; buffer = record { block = some 16; size = 16 } }) []
      accepted)

run_hung_up : Reach sample_env hung_up
unfolding new_async_server start_accept handle_accept serve expand_packet grow handle_read_header
    destroy text
run_hung_up =
    next {s = accepted}
      (next {s = new_async_server} fresh (
        calls_back [] (record new_connection { pending = accepting ∷ [] }) [] [] accepting []
          no_error [] refl refl refl))
      (calls_back (record new_connection { pending = accepting ∷ [] } ∷ []) waiting [] []
        reading_header [] eof [] refl refl refl)

run_ended : Reach sample_env (destroy_server hung_up)
unfolding new_async_server start_accept handle_accept serve expand_packet grow handle_read_header
    destroy text
run_ended = next {s = hung_up} run_hung_up (ends refl refl)

Reach-Phase_example :
    Every
      (Phase sample_env.grants (destroy_server hung_up).alive)
      (destroy_server hung_up).connections
Reach-Phase_example = Reach-Phase sample_env (destroy_server hung_up) run_ended

hung_up_lives : hung_up.alive ≡ true
unfolding new_async_server start_accept handle_accept serve expand_packet grow handle_read_header
    destroy text
hung_up_lives = refl

Reach-Accepts_example : Accepts sample_env hung_up.connections
Reach-Accepts_example = Reach-Accepts sample_env hung_up run_hung_up hung_up_lives
