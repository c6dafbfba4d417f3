-- ===== src/Call/Examples.antt =====
-- A call of the method echo of the sample server.
use carrot_rpc.Prelude.{
  ◌≡◌, refl, ap, inl, inr, true, none, some, [], ◌∷◌, Bytes, text, arith, bytes_eq,
}
use carrot_rpc.Protob.Request
use carrot_rpc.Protob.Response
use carrot_rpc.Controller.{new_controller, new_controller_for}
use carrot_rpc.Server
use carrot_rpc.Server.Registry.{resolve, find, find_first_of}
use carrot_rpc.Server.Sample.{
  sample_env, sample_requests, sample_responses, bytes_codec-IsCodec, bytes_codec-bytes_of, echo,
  echo_services,
}
use carrot_rpc.Server.Async.{reading_header, new_connection}
use carrot_rpc.Server.Async.Session.{Waits}
use carrot_rpc.Client
use carrot_rpc.Client.Async.{CallTask}
use carrot_rpc.Client.Async.Handlers.{new_task}
use carrot_rpc.Call.{call}
use carrot_rpc.Call.Reply.{IsEnded}
use carrot_rpc.Call.Whole.{IsCallable, server, call-Answered}

abbrev client : Client.Async.Environment Bytes
client = record {
  requests = sample_env.requests;
  responses = sample_env.responses;
  messages = sample_env.messages;
  grants = λ _. true;
  run = λ _. none;
}

abbrev task : CallTask Bytes
task = new_task client 5 (text "Echo.echo") (new_controller_for 0 [] [] 0) (7 ∷ [])

abbrev channel : Client.Async.Connection Bytes
channel = record Client.Async.new_connection {
  id = 5;
  opened = true;
  tasks = task ∷ [];
  pending = Client.Async.reading_header ∷ [];
}

abbrev served : Server.Async.Connection
served = record new_connection {
  opened = true;
  buffer = record { block = some 16; size = 16 };
  pending = reading_header ∷ [];
}

callable :
    IsCallable client sample_requests sample_responses bytes_codec-IsCodec
      (λ _. refl)
      0
      []
      echo_services
      task
      (7 ∷ [])
unfolding text Request.byte_size Response.byte_size resolve find find_first_of bytes_eq
    new_controller new_controller_for
callable = record {
  can = record {
    meta_fits = record {
      tidy = record { id_default = inl refl; method_identity_default = inl refl };
      id_is_u64 = omega arith;
      short = omega arith;
      known = refl;
    };
    request_fits = omega arith;
    small = omega arith;
    consistent = inl refl;
  };
  service = record { s = echo; c = 0 };
  md = 0;
  request = 7 ∷ [];
  controller = new_controller 0 0;
  routed = refl;
  parses = ap some (bytes_codec-bytes_of (7 ∷ []));
  called = refl;
  verdict_fits = record {
    tidy = record { id_default = inl refl; status_default = inl refl; message_default = inr refl };
    id_is_u64 = omega arith;
    short = omega arith;
    known = refl;
  };
  response_fits = omega arith;
  response_complete = refl;
  no_larger = omega arith;
}

call-Answered_example :
    (d : Client.Async.Connection Bytes) × (s' : Server.Async.Connection) × (call client
        (server client sample_requests sample_responses bytes_codec-IsCodec
          (λ _. refl)
          0
          []
          echo_services)
        echo_services
        task
        channel
        served
      ≡ some (d, s'))
    × IsEnded client sample_responses bytes_codec-IsCodec (λ _. refl) 5 task (some (7 ∷ [])) d
    × Waits s'
call-Answered_example =
    call-Answered client sample_requests sample_responses bytes_codec-IsCodec (λ _. refl) 0 []
      echo_services task (7 ∷ []) callable channel (inl refl) refl refl served
      (record { served = refl; opened = refl; waiting = refl; held = (refl, omega arith) })
