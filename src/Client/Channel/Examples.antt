-- ===== src/Client/Channel/Examples.antt =====
-- Calls to two services.
use carrot_rpc.Prelude.{
  ◌≡◌, refl, true, none, some, Option, [], ◌∷◌, Bytes, text, bytes_eq, arith, ap, length, Lacks,
}
use carrot_rpc.Controller.{Controller, new_controller_for}
use carrot_rpc.Server.Sample.{sample_env}
use carrot_rpc.Client.Async.{Environment}
use carrot_rpc.Client.Async.Handlers.{issue}
use carrot_rpc.Client.Channel.{key_of, Conns, find_conn, put_conn, call_method}
use carrot_rpc.Client.Channel.Keys.{call_method-Separate}
use carrot_rpc.Client.Channel.Runs.{ChannelReach, no_connections, goes_on, calls}
use carrot_rpc.Client.Channel.Sharing.{Shares, call_method-Shares}

abbrev client : Environment Bytes
client = record {
  requests = sample_env.requests;
  responses = sample_env.responses;
  messages = sample_env.messages;
  grants = λ _. true;
  run = λ _. none;
}

abbrev controller : Bytes → Controller
controller service = new_controller_for 0 (text "::1") service 0

abbrev or_none : Option (Conns Bytes) → Conns Bytes
or_none none = []
or_none (some s) = s

abbrev one : Conns Bytes
one = or_none (call_method client (text "Echo.echo") (controller (text "80")) (7 ∷ []) [])

abbrev two : Conns Bytes
two = or_none (call_method client (text "Echo.echo") (controller (text "8080")) (7 ∷ []) one)

called : call_method client (text "Echo.echo") (controller (text "8080")) (7 ∷ []) one ≡ some two
unfolding call_method find_conn put_conn issue key_of text bytes_eq new_controller_for
called = refl

no_colon_in_80 : Lacks b':' (text "80")
unfolding text
no_colon_in_80 = (λ e. cc, ((λ e. cc), tt))

no_colon_in_8080 : Lacks b':' (controller (text "8080")).service
unfolding text new_controller_for
no_colon_in_8080 = (λ e. cc, ((λ e. cc), ((λ e. cc), ((λ e. cc), tt))))

differ :
    ((controller (text "8080")).host ≡ text "::1")
      × ((controller (text "8080")).service ≡ text "80")
    → ⊥
unfolding text new_controller_for
differ (_, e) = omega (arith, ap length e)

call_method-Separate_example :
    find_conn (key_of (text "::1") (text "80")) two
    ≡ find_conn (key_of (text "::1") (text "80")) one
call_method-Separate_example =
    call_method-Separate client (text "Echo.echo") (controller (text "8080")) (7 ∷ []) one two
      (text "::1") (text "80") called no_colon_in_8080 no_colon_in_80 differ

abbrev again : Conns Bytes
again = or_none (call_method client (text "Echo.echo") (controller (text "80")) (8 ∷ []) two)

no_colon_8080 : Lacks b':' (text "8080")
unfolding text
no_colon_8080 = (λ e. cc, ((λ e. cc), ((λ e. cc), ((λ e. cc), tt))))

run : ChannelReach client two
unfolding call_method find_conn put_conn issue key_of text bytes_eq new_controller_for
run =
    goes_on {s = one}
      (goes_on {s = []} no_connections
        (calls (text "Echo.echo") (controller (text "80")) (7 ∷ []) refl))
      (calls (text "Echo.echo") (controller (text "8080")) (7 ∷ []) refl)

called_again :
    call_method client (text "Echo.echo") (controller (text "80")) (8 ∷ []) two ≡ some again
unfolding call_method find_conn put_conn issue key_of text bytes_eq new_controller_for
called_again = refl

no_colon : Lacks b':' (controller (text "80")).service
unfolding text new_controller_for
no_colon = (λ e. cc, ((λ e. cc), tt))

-- A second call to a host and service, after one to another service.
call_method-Shares_example :
    Shares client
      (text "Echo.echo")
      (controller (text "80"))
      (8 ∷ [])
      two
      again
      (text "::1")
      (text "8080")
call_method-Shares_example =
    call_method-Shares client (text "Echo.echo") (controller (text "80")) (8 ∷ []) two again
      (text "::1") (text "8080") run called_again no_colon no_colon_8080
