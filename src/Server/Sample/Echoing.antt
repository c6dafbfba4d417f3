-- ===== src/Server/Sample/Echoing.antt =====
-- A call of the method echo that has arrived whole on a blocking socket.
use carrot_rpc.Prelude.{
  ℕ, zero, suc, ◌≡◌, refl, inl, inr, List, [], ◌∷◌, ◌++◌, Bytes, text, arith, bytes_eq,
}
use carrot_rpc.Packet.{Packet}
use carrot_rpc.Io.{Socket, Turn, serves}
use carrot_rpc.Frame.{frame}
use carrot_rpc.Protob.Status
use carrot_rpc.Protob.Response
use carrot_rpc.Protob.Response.{Response, new_response, set_status}
use carrot_rpc.Protob.Request.{serialize, merge_partial, is_initialized}
use carrot_rpc.Server.Registry.{resolve, find, find_first_of, method_identity_of}
use carrot_rpc.Controller.{new_controller}
use carrot_rpc.Server.Sample.{sample_env, echo_services, echo_request, request_bytes}
use carrot_rpc.Server.Simple.Arrival.{Arrives}
use carrot_rpc.Server.Simple.Answer.{reply, answer}

abbrev pub meta : Bytes
meta = request_bytes (echo_request (text "echo"))

abbrev pub header : Packet
header = record { rpc_len = 13; req_len = 2; resp_len = 0 }

abbrev pub many : ℕ → List Turn
many zero = []
many (suc n) = serves 3 ∷ many n

abbrev pub connection : Socket
connection = record {
  input = frame header ((meta ++ ((1 ∷ 2 ∷ []) ++ [])) ++ (9 ∷ []));
  output = [];
  turns = many 60;
  errno = 0;
}

pub arrives : Arrives connection header meta (1 ∷ 2 ∷ []) [] (9 ∷ [])
unfolding text serialize method_identity_of
arrives = record {
  rpc = refl;
  req = refl;
  resp = refl;
  small = omega arith;
  input = refl;
  harmless = tt;
  turns = omega arith;
}

pub answered :
    answer sample_env echo_services (sample_env.requests.parse_from_array meta) (1 ∷ 2 ∷ [])
    ≡ reply (set_status new_response Status.success) (1 ∷ 2 ∷ [])
unfolding text serialize method_identity_of merge_partial is_initialized resolve find find_first_of
    bytes_eq new_controller
answered = refl

pub reply-Fits : Response.Fits (set_status new_response Status.success)
reply-Fits = record {
  tidy = record { id_default = inr refl; status_default = inl refl; message_default = inr refl };
  id_is_u64 = omega arith;
  short = omega arith;
  known = refl;
}
