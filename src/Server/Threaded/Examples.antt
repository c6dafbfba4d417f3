-- ===== src/Server/Threaded/Examples.antt =====
-- A thread whose peer closes the connection at once.
use carrot_rpc.Prelude.{◌≡◌, Bytes, text, refl, inl, subst, sym, [], ◌∷◌, arith}
use carrot_rpc.Protob.Request.{serialize}
use carrot_rpc.Server.Registry.{method_identity_of}
use carrot_rpc.Protob.Status
use carrot_rpc.Protob.Response
use carrot_rpc.Protob.Response.{new_response, set_status}
use carrot_rpc.Server.Sample.Echoing.{many, meta, header, connection, arrives, answered, reply-Fits}
use carrot_rpc.Server.Simple.Answer.{reply, answer}
use carrot_rpc.Server.Threaded.Answer.{serve_request-Answers}
use carrot_rpc.Server.Threaded.Given.{Fulfillable, Gives}
use carrot_rpc.Io.{Socket, serves, read_n, read_loop}
use carrot_rpc.Frame.{read_header}
use carrot_rpc.Server.Sample.{sample_env, sample_responses, bytes_codec-IsCodec, echo_services}
use carrot_rpc.Server.Threaded.{
  Thread, after_break, new_thread, handle_client, serve_request, destroy_connection,
}
use carrot_rpc.Server.Threaded.Session.{
  Exchange, stream, Takes, Ready, Serves, handle_client-Serves,
}
use carrot_rpc.Server.Threaded.Closing.{ClosesAtEnd, handle_client-Closes}

abbrev gone : Socket
gone = record { input = []; output = []; turns = serves 0 ∷ []; errno = 0 }

closes_twice :
    handle_client sample_env echo_services 3 (new_thread gone)
    ≡ after_break (record (new_thread gone) { socket = record gone { turns = [] }; closes = 2 })
unfolding handle_client serve_request read_header read_n read_loop destroy_connection
closes_twice = refl

handle_client-Closes_example :
    ClosesAtEnd 0 (handle_client sample_env echo_services 3 (new_thread gone))
handle_client-Closes_example = handle_client-Closes sample_env echo_services 3 (new_thread gone)

abbrev ready_thread : Thread
ready_thread = new_thread connection

fulfillable :
    Fulfillable sample_env sample_responses bytes_codec-IsCodec
      (λ _. refl)
      33
      (reply (set_status new_response Status.success) (1 ∷ 2 ∷ []))
unfolding Response.byte_size
fulfillable = (
  record { rpc_fits = reply-Fits; resp_fits = omega arith; small = omega arith },
  omega arith,
  omega arith,
)

serve_request-Answers_example :
    Gives sample_env sample_responses bytes_codec-IsCodec
      (λ _. refl)
      33
      (9 ∷ [])
      []
      (answer sample_env echo_services (sample_env.requests.parse_from_array meta) (1 ∷ 2 ∷ []))
      (serve_request sample_env echo_services ready_thread)
serve_request-Answers_example =
    serve_request-Answers sample_env sample_responses bytes_codec-IsCodec (λ _. refl) echo_services
      ready_thread refl (inl refl) header meta (1 ∷ 2 ∷ []) [] (9 ∷ []) arrives (omega arith)
      (subst (Fulfillable sample_env sample_responses bytes_codec-IsCodec (λ _. refl) 33)
        (sym answered) fulfillable)

abbrev echo : Exchange Bytes
echo = record {
  header = header;
  meta = meta;
  param = 1 ∷ 2 ∷ [];
  extra = [];
  response = set_status new_response Status.success;
  message = 1 ∷ 2 ∷ [];
}

abbrev twice : Thread
twice =
    new_thread (record connection { input = stream (echo ∷ echo ∷ []) (9 ∷ []); turns = many 150 })

takes : Takes sample_env sample_responses bytes_codec-IsCodec (λ _. refl) echo_services echo
unfolding text serialize method_identity_of Response.byte_size
takes = record {
  rpc = refl;
  req = refl;
  resp = refl;
  small = omega arith;
  answered = answered;
  can = fulfillable.0;
  small_reply = omega arith;
}

twice-Ready :
    Ready sample_env sample_responses bytes_codec-IsCodec
      (λ _. refl)
      echo_services
      twice
      (echo ∷ echo ∷ [])
      (9 ∷ [])
unfolding Response.byte_size
twice-Ready = record {
  closes = refl;
  consistent = inl refl;
  input = refl;
  harmless = tt;
  turns = omega arith;
}

handle_client-Serves_example :
    Serves sample_env sample_responses bytes_codec-IsCodec
      (λ _. refl)
      echo_services
      twice
      (echo ∷ echo ∷ [])
      (9 ∷ [])
      0
handle_client-Serves_example =
    handle_client-Serves sample_env sample_responses bytes_codec-IsCodec (λ _. refl) echo_services
      (echo ∷ echo ∷ []) twice (9 ∷ []) 0 (takes, (takes, tt)) twice-Ready
