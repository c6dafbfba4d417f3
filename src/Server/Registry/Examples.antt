-- ===== src/Server/Registry/Examples.antt =====
-- Registrations and routes by name.
use carrot_rpc.Prelude.{◌≡◌, refl, none, some, text, bytes_eq, if◌then◌else◌, arith}
use carrot_rpc.Server.Registry.{
  find, register_service, resolve, method_identity_of, found, dot, find_first_of, service_not_found,
}
use carrot_rpc.Server.Registry.Register.{find-register_service}
use carrot_rpc.Server.Registry.Routing.{Lacks, resolve-method_identity_of}
use carrot_rpc.Server.Sample.{echo, echo_services}

resolve_unknown : resolve echo_services (text "Ping.echo") ≡ service_not_found
unfolding resolve find find_first_of text bytes_eq
resolve_unknown = refl

find-register_service_example :
    find (text "Ping") (register_service echo_services echo 7).1
    ≡ elim (find (text "Ping") echo_services) [
      | some cs ↦ some cs
      | none ↦ if bytes_eq echo.name (text "Ping") then some (record { s = echo; c = 7 }) else none
    ]
find-register_service_example = find-register_service echo_services echo 7 (text "Ping")

echo_Lacks : Lacks dot (text "Echo")
unfolding text
echo_Lacks = (omega arith, (omega arith, (omega arith, (omega arith, tt))))

find-echo : find (text "Echo") echo_services ≡ some (record { s = echo; c = 0 })
unfolding find text bytes_eq
find-echo = refl

find_method_echo : echo.find_method (text "echo") ≡ some 0
unfolding text bytes_eq
find_method_echo = refl

resolve-method_identity_of_example :
    resolve echo_services (method_identity_of (text "Echo") (text "echo"))
    ≡ found (record { s = echo; c = 0 }) 0
resolve-method_identity_of_example =
    resolve-method_identity_of echo_services (text "Echo") (text "echo")
      (record { s = echo; c = 0 }) 0 echo_Lacks find-echo find_method_echo
